-- ===== src/Dispatch/Fair.antt =====
-- The order in which the workers are picked.
use native.Mathlib.Nat.{mod-add-mod, mod-eq_of_lt, mod-lt, add-mod_left}
use clusterplex.Prelude.{
  ℕ, zero, suc, ◌+◌, ◌-◌, ◌%◌, ◌≤◌, ◌<◌, ◌≡◌, sym, ap, ◌∙◌, Option, List, arith, length, Bool-cases,
  inl, inr, leb, leb→le,
}
use clusterplex.Dispatch.{Worker, nth, pick}

-- The worker picked after k earlier picks from the same list.
unfoldable pub turn : ℕ → ℕ → List Worker → Option Worker
turn zero next ws = (pick next ws).0
turn (suc k) next ws = turn k (pick next ws).1 ws

turn_lem :
    (k next : ℕ) (ws : List Worker)
    → next + k < 18446744073709551616
    → turn k next ws ≡ nth ((next + k) % length ws) ws
unfolding turn pick
turn_lem zero next ws h = ap (λ n. nth (n % length ws) ws) (omega arith)
turn_lem (suc k) next ws h =
    rw (mod-eq_of_lt {n = next + 1} {m = 18446744073709551616} (omega arith))
      (turn_lem k (next + 1) ws (omega arith) ∙ ap (λ n. nth (n % length ws) ws) (omega arith))

-- The number of picks to the worker of index j, and the index that it gives.
wait : (next n j : ℕ) → j < n → (k : ℕ) × (k < n) × ((next + k) % n ≡ j)
wait next n j h =
    let r = next % n in
    let below = mod-lt next {m = n} (omega arith) in
    elim (Bool-cases (leb r j)) [
      | inl le ↦ (
        j - r,
        omega arith,
        sym (mod-add-mod next n (j - r))
            ∙ ap (λ x. x % n) (ground (arith, leb→le r j))
            ∙ mod-eq_of_lt h,
      )
      | inr gt ↦ (
        n + j - r,
        ground arith,
        sym (mod-add-mod next n (n + j - r))
            ∙ ap (λ x. x % n) (ground arith)
            ∙ add-mod_left n j
            ∙ mod-eq_of_lt h,
      )
    ]

-- Among as many picks as there are workers, each worker is picked, if the 64-bit counter does not
-- wrap meanwhile.
pub turn_comes :
    (next : ℕ) (ws : List Worker) (j : ℕ)
    → j < length ws
    → next + length ws ≤ 18446744073709551616
    → (k : ℕ) × (k < length ws) × (turn k next ws ≡ nth j ws)
turn_comes next ws j h room =
    let (k, small, e) = wait next (length ws) j h in
    (k, small, turn_lem k next ws (omega (arith, small)) ∙ ap (λ n. nth n ws) e)
