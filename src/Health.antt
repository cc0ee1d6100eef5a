-- ===== src/Health.antt =====
-- cmd/manager/elect.go: plexHealth, which decides from the health checks when Plex is restarted.
mod Tests
use clusterplex.Prelude.{
  ℕ, ◌+◌, ◌%◌, ◌<◌, ◌≡◌, refl, Bool, true, false, not, ◌&&◌, List, [], ◌∷◌, arith, if◌then◌else◌,
  ltb, nat_beq, Bool-cases, inl, inr,
}

abbrev pub unhealthy_restart_after : ℕ
unhealthy_restart_after = 3

pub record PlexHealth : Type 0 where
  pub consecutive_failures : ℕ

pub record Check : Type 0 where
  pub health : PlexHealth
  pub serving : Bool
  pub give_up : Bool

-- func (h *plexHealth) record: ok is that the check had no error.
unfoldable pub record_check : PlexHealth → Bool → Check
record_check h true = record {
  health = record { consecutive_failures = 0 };
  serving = true;
  give_up = false;
}
record_check h false =
    let n = h.consecutive_failures + 1 in
    if ltb n unhealthy_restart_after
    then record { health = record { consecutive_failures = n }; serving = false; give_up = false }
    else record { health = record { consecutive_failures = 0 }; serving = false; give_up = true }

-- The counter after the checks, the last of them first.
unfoldable pub after : List Bool → PlexHealth
after [] = record { consecutive_failures = 0 }
after (ok ∷ checks) = (record_check (after checks) ok).health

-- How many checks have failed since the last that did not.
unfoldable pub misses : List Bool → ℕ
misses [] = 0
misses (true ∷ checks) = 0
misses (false ∷ checks) = misses checks + 1

after-misses : (checks : List Bool) → (after checks).consecutive_failures ≡ misses checks % 3
unfolding after misses record_check
after-misses [] = refl
after-misses (true ∷ checks) = refl
after-misses (false ∷ checks) = ground (arith, after-misses checks)

-- Plex counts as serving exactly if the check succeeds, and recovery is started at exactly every
-- third failure in a row: at the third, the sixth and so on.
pub record_check_lem :
    (checks : List Bool) (ok : Bool)
    → let c = record_check (after checks) ok in
      (c.serving ≡ ok) × (c.give_up ≡ not ok && nat_beq (misses (ok ∷ checks) % 3) 0)
unfolding misses record_check
record_check_lem checks true = (refl, refl)
record_check_lem checks false =
    let count = after-misses checks in
    elim (Bool-cases (ltb ((after checks).consecutive_failures + 1) unhealthy_restart_after)) [
      | inl e ↦ rw e (refl, ground (arith, count))
      | inr e ↦ rw e (refl, ground (arith, count))
    ]
