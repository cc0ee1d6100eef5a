-- ===== src/Video/Loop.antt =====
-- Following labels from chain to chain: a walk that ends takes at most one round more than there
-- are chains.
use clusterplex.Prelude.{
  ℕ, zero, suc, ◌+◌, ◌≤◌, ◌<◌, ◌≡◌, refl, ap, ◌∙◌, false, not, Option, none, some, List, [], ◌∷◌,
  arith, ◌==◌, ==_iff, Str, str_eq, inl, inr, Bool-cases, Option-cases, length, subst, keep_if,
  length-keep_if-le,
}
use clusterplex.Video.Filter.{Chain, Kind, single, overlays, other, find_chain, kind_of, stream_ref}

-- The label that a round of follow goes on to, if it does not end there: an overlay's first input,
-- or the one input of another chain.
abbrev pub goes_on : Str → Option ℕ → Option Str
goes_on a none = some a
goes_on a (some s) = none

abbrev pub of_kind : Kind → Option Str
of_kind (single a) = goes_on a (stream_ref a)
of_kind (overlays a b) = goes_on a (stream_ref a)
of_kind other = none

abbrev pub of_found : Option Chain → Option Str
of_found none = none
of_found (some c) = of_kind (kind_of c)

unfoldable pub next_label : List Chain → Str → Option Str
next_label chains want = of_found (find_chain want chains)

-- Following from a label ends, after k rounds.
pub data Ends (chains : List Chain) : Str → ℕ → Type 0 where
  stop : {w : Str} → next_label chains w ≡ none → Ends chains w 1
  go : {w v : Str} {k : ℕ} → next_label chains w ≡ some v → Ends chains v k → Ends chains w (k + 1)

no_value : {A : Type 0} {a : A} {o : Option A} → o ≡ none → o ≡ some a → ⊥
no_value e f = cc

same_value : {A : Type 0} {a b : A} {o : Option A} → o ≡ some a → o ≡ some b → a ≡ b
same_value e f = cc

module _ {chains : List Chain} where
  -- The number of rounds is one number.
  rounds_unique : {w : Str} {k j : ℕ} → Ends chains w k → Ends chains w j → k ≡ j
  rounds_unique (stop e) (stop f) = refl
  rounds_unique (stop e) (go f d) = absurd (no_value e f)
  rounds_unique (go e c) (stop f) = absurd (no_value f e)
  rounds_unique (go e c) (go f d) = ap (λ n. n + 1) (rounds_unique c (moved (same_value f e) d))
    where
      moved : {v u : Str} {n : ℕ} → v ≡ u → Ends chains v n → Ends chains u n
      moved {v} {u} {n} p x = subst (λ y. Ends chains y n) p x

abbrev without_out : Str → List Chain → List Chain
without_out l cs = keep_if (λ c. not (c.out == l)) cs

find_chain-without_out :
    (w l : Str) (cs : List Chain)
    → (w == l) ≡ false
    → find_chain w (without_out l cs) ≡ find_chain w cs
unfolding find_chain
find_chain-without_out w l [] h = refl
find_chain-without_out w l (c ∷ cs) h = elim (Bool-cases (c.out == l)) [
  | inl gone ↦
      let other_label : (c.out == w) ≡ false =
        ground (arith, ==_iff c.out l, ==_iff c.out w, ==_iff w l) in
      rw (gone, other_label) (find_chain-without_out w l cs h)
  | inr kept ↦ elim (Bool-cases (c.out == w)) [
    | inl found ↦ rw (kept, found) refl
    | inr later ↦ rw (kept, later) (find_chain-without_out w l cs h)
  ]
]

length-without_out-le : (l : Str) (cs : List Chain) → length (without_out l cs) ≤ length cs
length-without_out-le l cs = length-keep_if-le (λ c. not (c.out == l)) cs

length-without_out :
    (l : Str) (c : Chain) (cs : List Chain)
    → find_chain l cs ≡ some c
    → length (without_out l cs) < length cs
unfolding find_chain
length-without_out l c [] h = absurd (ground arith)
length-without_out l c (d ∷ cs) h = elim (Bool-cases (d.out == l)) [
  | inl gone ↦ let fewer = length-without_out-le l cs in rw gone (omega arith)
  | inr kept ↦ let fewer = length-without_out l c cs (rw kept at h) in rw kept (omega arith)
]

next_label-without_out :
    (w l : Str) (cs : List Chain)
    → (w == l) ≡ false
    → next_label (without_out l cs) w ≡ next_label cs w
unfolding next_label
next_label-without_out w l cs h = ap of_found (find_chain-without_out w l cs h)

differs :
    {chains : List Chain} {k : ℕ} (w l : Str) (d : ℕ)
    → Ends chains l d
    → Ends chains w k
    → k < d
    → (w == l) ≡ false
differs {chains} {k} w l d e c h = elim (Bool-cases (w == l)) [
  | inl same ↦
      let equal_rounds : k ≡ d =
        rounds_unique (subst (λ x. Ends chains x k) ((==_iff w l).0 same) c) e in
      absurd (omega arith)
  | inr other_label ↦ other_label
]

-- A walk shorter than the one from l never meets l.
Ends-without_out :
    {chains : List Chain} {w : Str} {k : ℕ} (l : Str) (d : ℕ)
    → Ends chains l d
    → k < d
    → Ends chains w k
    → Ends (without_out l chains) w k
Ends-without_out {chains} {w} l d e h (stop f) =
    stop (next_label-without_out w l chains (differs w l d e (stop f) h) ∙ f)
Ends-without_out {chains} {w} l d e h (go f c) =
    go (next_label-without_out w l chains (differs w l d e (go f c) h) ∙ f)
      (Ends-without_out l d e (omega arith) c)

found_chain :
    (chains : List Chain) (w v : Str)
    → next_label chains w ≡ some v
    → (c : Chain) × (find_chain w chains ≡ some c)
unfolding next_label
found_chain chains w v e = elim (Option-cases (find_chain w chains)) [
  | inl f ↦ absurd (no_value (ap of_found f) e)
  | inr (c, f) ↦ (c, f)
]

rounds_within :
    (n k : ℕ) (chains : List Chain) (w : Str) → k ≤ n → Ends chains w k → k ≤ length chains + 1
rounds_within n k chains w h (stop e) = omega arith
rounds_within zero k chains w h (go e c) = absurd (omega arith)
rounds_within (suc n) k chains w h (go {v = v} {k = j} e c) =
    let (found, f) = found_chain chains w v e in
    let fewer = length-without_out w found chains f in
    let less : j < j + 1 = omega arith in
    let shorter =
      rounds_within n j (without_out w chains) v (omega arith)
        (Ends-without_out w (j + 1) (go e c) less c) in
    omega arith

-- Following a label ends within one round more than there are chains, if it ends.
pub Ends-le : {w : Str} {k : ℕ} (chains : List Chain) → Ends chains w k → k ≤ length chains + 1
Ends-le {w} {k} chains e = rounds_within k k chains w (omega arith) e
