-- ===== src/Video/Rounds.antt =====
-- The rounds of follow, and that the bound on them is enough.
use clusterplex.Prelude.{
  ℕ, zero, suc, ◌+◌, ◌-◌, ◌≤◌, ◌≡◌, refl, sym, ap, ◌∙◌, Option, none, some, List, [], ◌++◌, arith,
  Str, str_eq, ◌↔◌, length,
}
use clusterplex.Video.Job.{Result, ok, refused, no_chain, chain_inputs, second_overlay}
use clusterplex.Video.Filter.{
  Chain, Filter, Source, Overlay, Kind, single, overlays, other, find_chain, kind_of, stream_ref,
  follow2, follow, resolve, leading_label,
}
use clusterplex.Video.Loop.{goes_on, of_kind, of_found, next_label, Ends, stop, go, Ends-le}

-- What a round comes to: an end, or the next label with what is gathered.
data Round : Type 0 where
  halts : Result Source → Round
  goes : Str → List Filter → Option Overlay → Round

abbrev past : Str → List Filter → Option Overlay → Option ℕ → Round
past a fs over none = goes a fs over
past a fs over (some s) = halts (ok (record { src = s; filters = fs; over = over }))

abbrev overlaid : Str → List Filter → Result Source → Round
overlaid a fs (refused r) = halts (refused r)
overlaid a fs (ok drawn) =
    past a fs (some (record { src = drawn.src; filters = drawn.filters })) (stream_ref a)

module _ (chains : List Chain) where
  abbrev by_kind : Chain → List Filter → Option Overlay → Kind → Round
  by_kind c fs over (single a) = past a (c.filters ++ fs) over (stream_ref a)
  by_kind c fs none (overlays a b) = overlaid a fs (follow2 chains b)
  by_kind c fs (some o) (overlays a b) = halts (refused second_overlay)
  by_kind c fs over other = halts (refused chain_inputs)

  abbrev round : List Filter → Option Overlay → Option Chain → Round
  round fs over none = halts (refused no_chain)
  round fs over (some c) = by_kind c fs over (kind_of c)

  abbrev after : ℕ → Round → Result Source
  after n (halts r) = r
  after n (goes v fs over) = follow chains n v fs over

  follow-round :
      (n : ℕ) (w : Str) (fs : List Filter) (over : Option Overlay)
      → follow chains (suc n) w fs over ≡ after n (round fs over (find_chain w chains))
  unfolding follow
  follow-round n w fs over = ground arith

  follow_some :
      (n : ℕ) (w : Str) (fs : List Filter) (over : Option Overlay)
      → 1 ≤ n
      → follow chains n w fs over ≡ after (n - 1) (round fs over (find_chain w chains))
  follow_some zero w fs over h = absurd (omega arith)
  follow_some (suc n) w fs over h =
      follow-round n w fs over
      ∙ ap (λ k. after k (round fs over (find_chain w chains))) {x = n} {y = suc n - 1}
          (omega arith)

  abbrev label_of : Round → Option Str
  label_of (halts r) = none
  label_of (goes v fs over) = some v

  -- A round that is not refused goes on to the next label, if there is one.
  abbrev IsLabelled : Option Str → Round → Type 0
  IsLabelled o (halts (refused r)) = Unit
  IsLabelled o (halts (ok x)) = o ≡ none
  IsLabelled o (goes v fs over) = o ≡ some v

  past-IsLabelled :
      (a : Str) (fs : List Filter) (over : Option Overlay) (o : Option ℕ)
      → IsLabelled (goes_on a o) (past a fs over o)
  past-IsLabelled a fs over none = refl
  past-IsLabelled a fs over (some s) = refl

  overlaid-IsLabelled :
      (a : Str) (fs : List Filter) (r : Result Source)
      → IsLabelled (goes_on a (stream_ref a)) (overlaid a fs r)
  overlaid-IsLabelled a fs (refused r) = tt
  overlaid-IsLabelled a fs (ok drawn) =
      past-IsLabelled a fs (some (record { src = drawn.src; filters = drawn.filters }))
        (stream_ref a)

  kind-IsLabelled :
      (c : Chain) (fs : List Filter) (over : Option Overlay) (k : Kind)
      → IsLabelled (of_kind k) (by_kind c fs over k)
  kind-IsLabelled c fs over (single a) = past-IsLabelled a (c.filters ++ fs) over (stream_ref a)
  kind-IsLabelled c fs none (overlays a b) = overlaid-IsLabelled a fs (follow2 chains b)
  kind-IsLabelled c fs (some o) (overlays a b) = tt
  kind-IsLabelled c fs none other = tt
  kind-IsLabelled c fs (some o) other = tt

  round-IsLabelled :
      (fs : List Filter) (over : Option Overlay) (o : Option Chain)
      → IsLabelled (of_found o) (round fs over o)
  round-IsLabelled fs over none = tt
  round-IsLabelled fs over (some c) = kind-IsLabelled c fs over (kind_of c)

  -- Some rounds are enough, and no more change the result.
  record Enough (w : Str) (fs : List Filter) (over : Option Overlay) (x : Source) : Type 0 where
    rounds : ℕ
    ends : Ends chains w rounds
    same : (n : ℕ) → rounds ≤ n → follow chains n w fs over ≡ ok x

  enough :
      (m : ℕ) (w : Str) (fs : List Filter) (over : Option Overlay) (x : Source)
      → follow chains m w fs over ≡ ok x
      → Enough w fs over x
  unfolding follow next_label
  enough zero w fs over x e = absurd (ground (arith, e))
  enough (suc m) w fs over x e =
      by_round (round fs over (find_chain w chains)) refl
        (round-IsLabelled fs over (find_chain w chains)) (sym (follow-round m w fs over) ∙ e)
        (λ v gs added h. enough m v gs added x h)
    where
      by_round :
          (r : Round)
          → round fs over (find_chain w chains) ≡ r
          → IsLabelled (next_label chains w) r
          → after m r ≡ ok x
          → ((v : Str) (gs : List Filter) (added : Option Overlay)
              → follow chains m v gs added ≡ ok x
              → Enough v gs added x)
          → Enough w fs over x
      by_round (halts (refused f)) g l h ih = absurd (ground (arith, h))
      by_round (halts (ok y)) g l h ih = record {
        rounds = 1;
        ends = stop l;
        same = λ n p. follow_some n w fs over p ∙ ap (after (n - 1)) g ∙ h;
      }
      by_round (goes v gs added) g l h ih =
          let rest = ih v gs added h in
          record {
            rounds = rest.rounds + 1;
            ends = go l rest.ends;
            same = λ n p.
                follow_some n w fs over (omega (arith, p))
                ∙ ap (after (n - 1)) g
                ∙ rest.same (n - 1) (omega (arith, p));
          }

-- The loop's bound, one round more than there are chains, is enough: a label that some number of
-- rounds follows to a stream is followed to the same one, with the same filters and overlay, in the
-- rounds that the code gives it, and in any more.
follow_lem :
    (chains : List Chain) (w : Str) (fs : List Filter) (over : Option Overlay) (x : Source)
    (m n : ℕ)
    → follow chains m w fs over ≡ ok x
    → length chains + 1 ≤ n
    → follow chains n w fs over ≡ ok x
follow_lem chains w fs over x m n e h =
    let walk = enough chains m w fs over x e in
    let bound = Ends-le chains walk.ends in walk.same n (omega arith)

-- A -map of a label alone resolves to a source, with its filters and overlay, exactly if some number
-- of rounds follows the label to that source: the rounds that the code gives it are enough.
pub resolve-follow :
    (chains : List Chain) (m w : Str) (x : Source)
    → stream_ref m ≡ none
    → leading_label m ≡ some (w, [])
    → (resolve chains m ≡ ok x) ↔ ((n : ℕ) × (follow chains n w [] none ≡ ok x))
unfolding resolve
resolve-follow chains m w x e f =
    let resolved : resolve chains m ≡ follow chains (length chains + 1) w [] none =
      rw (resolve, e, f) refl in
    (
      λ h. (length chains + 1, sym resolved ∙ h),
      λ (n, h). resolved ∙ follow_lem chains w [] none x n (length chains + 1) h (omega arith),
    )
