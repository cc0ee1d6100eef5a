-- ===== src/Scheduler/Attempts.antt =====
-- Refreshes by id are given up after five failures.
use clusterplex.Prelude.{ℕ, ◌≡◌, false, List, [], ◌∷◌, str_eq, nat_eq}
use clusterplex.Dict.{lookup}
use clusterplex.Scheduler.{Config, Scheduler, Call, send_ids, or_zero}

-- What n failures leave of an id with none before.
record After (n : ℕ) (id : ℕ) (s u : Scheduler) : Type 0 where
  queued : lookup id u.by_id ≡ lookup id s.by_id
  counted : or_zero (lookup id u.id_fails) ≡ n

-- Failed sends of an id in a row, each with its due time and what is queued during it.
pub sends : Config → ℕ → List (ℕ × List Call) → Scheduler → Scheduler
sends c id [] s = s
sends c id ((due, meanwhile) ∷ rest) s =
    sends c id rest
      (send_ids c (λ i. record { meanwhile = meanwhile; ok = false }) s ((id, due) ∷ []))
