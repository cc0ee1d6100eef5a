-- ===== src/Health/Tests.antt =====
-- Three failures in a row.
use clusterplex.Prelude.{◌≡◌, ◌%◌, true, false, not, ◌&&◌, [], ◌∷◌, nat_beq}
use clusterplex.Health.{record_check, after, misses, record_check_lem}

record_check_lem_example :
    let c = record_check (after (false ∷ false ∷ true ∷ [])) false in
    (c.serving ≡ false)
    × (c.give_up ≡ not false && nat_beq (misses (false ∷ false ∷ false ∷ true ∷ []) % 3) 0)
record_check_lem_example = record_check_lem (false ∷ false ∷ true ∷ []) false
