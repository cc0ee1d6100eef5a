-- ===== src/Cache/Oldest.antt =====
-- What Evict removes, and how much it leaves.
use clusterplex.Prelude.{
  ℕ, suc, ◌+◌, ◌-◌, ◌≤◌, ◌≡◌, refl, sym, ap, subst, ◌∙◌, Bool, true, false, List, [], ◌∷◌, leb, pos,
  Str, str_eq, All, arith, Bool-cases, ◌⊎◌, inl, inr,
}
use clusterplex.Dict.{Dict}
use clusterplex.Cache.{done}
use clusterplex.Cache.Evict.{
  Listed, Evicted, total_size, insert_used, sort_used, is_open, evict_round, evict_from, evict,
}

-- Each entry was used no later than those after it.
abbrev pub ByUse : List Listed → Type 0
ByUse [] = Unit
ByUse (e ∷ es) = All (λ x. e.used ≤ x.used) es × ByUse es

All-insert_used :
    (P : Listed → Type 0) (x : Listed) (es : List Listed)
    → P x
    → All P es
    → All P (insert_used x es)
unfolding insert_used
All-insert_used P x [] p h = (p, tt)
All-insert_used P x (e ∷ es) p h = elim (Bool-cases (leb x.used e.used)) [
  | inl first ↦ rw first (p, h)
  | inr later ↦ rw later (h.0, All-insert_used P x es p h.1)
]

All_after :
    (n m : ℕ) (es : List Listed) → n ≤ m → All (λ x. m ≤ x.used) es → All (λ x. n ≤ x.used) es
All_after n m [] h a = tt
All_after n m (e ∷ es) h a = let first = a.0 in (omega arith, All_after n m es h a.1)

insert_used-ByUse : (x : Listed) (es : List Listed) → ByUse es → ByUse (insert_used x es)
unfolding insert_used
insert_used-ByUse x [] h = (tt, tt)
insert_used-ByUse x (e ∷ es) h = elim (Bool-cases (leb x.used e.used)) [
  | inl first ↦
      let before : x.used ≤ e.used = ground (arith, first) in
      rw first ((before, All_after x.used e.used es before h.0), h)
  | inr later ↦
      let before : e.used ≤ x.used = ground (arith, later) in
      rw later (All-insert_used (λ y. e.used ≤ y.used) x es before h.0, insert_used-ByUse x es h.1)
]

sort_used-ByUse : (es : List Listed) → ByUse (sort_used es)
unfolding sort_used
sort_used-ByUse [] = tt
sort_used-ByUse (e ∷ es) = insert_used-ByUse e (sort_used es) (sort_used-ByUse es)

total_size-insert_used :
    (x : Listed) (es : List Listed) → total_size (insert_used x es) ≡ x.size + total_size es
unfolding total_size insert_used
total_size-insert_used x [] = refl
total_size-insert_used x (e ∷ es) = ground (arith, total_size-insert_used x es)

total_size-sort_used : (es : List Listed) → total_size (sort_used es) ≡ total_size es
unfolding total_size sort_used
total_size-sort_used [] = refl
total_size-sort_used (e ∷ es) =
    total_size-insert_used e (sort_used es) ∙ ap (λ n. e.size + n) (total_size-sort_used es)

module _ (max : ℕ) (refs : Dict Str ℕ) (fails : Str → Bool) where
  -- What is left fits the limit, or a job holds each entry left.
  abbrev pub Fits : Evicted → ℕ → Type 0
  Fits r before = (before + total_size r.kept ≤ max) ⊎ All (λ e. is_open refs e.name ≡ true) r.kept

  round-Fits :
      (before total : ℕ) (e : Listed) (es : List Listed) (passed smaller : Evicted) (b c d : Bool)
      → leb total max ≡ b
      → is_open refs e.name ≡ c
      → total ≡ before + total_size (e ∷ es)
      → (passed.result ≡ done → Fits passed (before + e.size))
      → (smaller.result ≡ done → Fits smaller before)
      → (evict_round e es passed smaller b c d).result ≡ done
      → Fits (evict_round e es passed smaller b c d) before
  unfolding total_size
  round-Fits before total e es passed smaller true c d t o h p s r = inl (ground (arith, t, h))
  round-Fits before total e es passed smaller false true d t o h p s r = elim (p r) [
    | inl fits ↦ inl (omega arith)
    | inr held ↦ inr (o, held)
  ]
  round-Fits before total e es passed smaller false false true t o h p s r =
      absurd (ground (arith, r))
  round-Fits before total e es passed smaller false false false t o h p s r = s r

  evict_from-Fits :
      (before total : ℕ) (es : List Listed)
      → total ≡ before + total_size es
      → (evict_from max refs fails total es).result ≡ done
      → Fits (evict_from max refs fails total es) before
  unfolding evict_from total_size
  evict_from-Fits before total [] h d = inr tt
  evict_from-Fits before total (e ∷ es) h d =
      round-Fits before total e es (evict_from max refs fails total es)
        (evict_from max refs fails (total - e.size) es) (leb total max) (is_open refs e.name)
        (fails e.name) refl refl h (evict_from-Fits (before + e.size) total es (omega (arith, h)))
        (evict_from-Fits before (total - e.size) es (omega (arith, h))) d

  -- No job holds an entry that is removed, and it was used no later than any kept that no job holds.
  abbrev pub RemovesOldest : Evicted → Type 0
  RemovesOldest r =
      All
        (λ x.
          (is_open refs x.name ≡ false)
          × All (λ y. (is_open refs y.name ≡ true) ⊎ (x.used ≤ y.used)) r.kept)
        r.removed

  also_kept :
      (e : Listed) (kept : List Listed)
      → is_open refs e.name ≡ true
      → (removed : List Listed)
      → All
          (λ x.
            (is_open refs x.name ≡ false)
            × All (λ y. (is_open refs y.name ≡ true) ⊎ (x.used ≤ y.used)) kept)
          removed
      → All
          (λ x.
            (is_open refs x.name ≡ false)
            × All (λ y. (is_open refs y.name ≡ true) ⊎ (x.used ≤ y.used)) (e ∷ kept))
          removed
  also_kept e kept o [] h = tt
  also_kept e kept o (x ∷ xs) h = ((h.0.0, (inl o, h.0.1)), also_kept e kept o xs h.1)

  later :
      (e : Listed) (kept : List Listed)
      → All (λ y. e.used ≤ y.used) kept
      → All (λ y. (is_open refs y.name ≡ true) ⊎ (e.used ≤ y.used)) kept
  later e [] h = tt
  later e (x ∷ xs) h = (inr h.0, later e xs h.1)

  round-All :
      (P : Listed → Type 0) (e : Listed) (es : List Listed) (passed smaller : Evicted)
      (b c d : Bool)
      → All P (e ∷ es)
      → All P passed.kept
      → All P smaller.kept
      → All P (evict_round e es passed smaller b c d).kept
  round-All P e es passed smaller true c d h p s = h
  round-All P e es passed smaller false true d h p s = (h.0, p)
  round-All P e es passed smaller false false true h p s = h
  round-All P e es passed smaller false false false h p s = s

  -- What holds of all entries holds of those kept.
  evict_from-All :
      (P : Listed → Type 0) (total : ℕ) (es : List Listed)
      → All P es
      → All P (evict_from max refs fails total es).kept
  unfolding evict_from
  evict_from-All P total [] h = tt
  evict_from-All P total (e ∷ es) h =
      round-All P e es (evict_from max refs fails total es)
        (evict_from max refs fails (total - e.size) es) (leb total max) (is_open refs e.name)
        (fails e.name) h (evict_from-All P total es h.1) (evict_from-All P (total - e.size) es h.1)

  round-RemovesOldest :
      (e : Listed) (es : List Listed) (passed smaller : Evicted) (b c d : Bool)
      → is_open refs e.name ≡ c
      → RemovesOldest passed
      → RemovesOldest smaller
      → All (λ y. e.used ≤ y.used) smaller.kept
      → RemovesOldest (evict_round e es passed smaller b c d)
  round-RemovesOldest e es passed smaller true c d o p s a = tt
  round-RemovesOldest e es passed smaller false true d o p s a =
      also_kept e passed.kept o passed.removed p
  round-RemovesOldest e es passed smaller false false true o p s a = tt
  round-RemovesOldest e es passed smaller false false false o p s a =
      ((o, later e smaller.kept a), s)

  evict_from-RemovesOldest :
      (total : ℕ) (es : List Listed) → ByUse es → RemovesOldest (evict_from max refs fails total es)
  unfolding evict_from
  evict_from-RemovesOldest total [] h = tt
  evict_from-RemovesOldest total (e ∷ es) h =
      round-RemovesOldest e es (evict_from max refs fails total es)
        (evict_from max refs fails (total - e.size) es) (leb total max) (is_open refs e.name)
        (fails e.name) refl (evict_from-RemovesOldest total es h.1)
        (evict_from-RemovesOldest (total - e.size) es h.1)
        (evict_from-All (λ y. e.used ≤ y.used) (total - e.size) es h.0)

evict-limited :
    (max : ℕ) (refs : Dict Str ℕ) (fails : Str → Bool) (all : List Listed)
    → evict (pos (suc max)) refs fails all
      ≡ evict_from (suc max) refs fails (total_size all) (sort_used all)
unfolding evict
evict-limited max refs fails all = ground arith

-- Evict removes no entry that a job holds and the least recently used of the others, and where no
-- removal fails, what it leaves is within a limit, or is held by jobs to the last entry.
pub evict_lem :
    (max : ℕ) (refs : Dict Str ℕ) (fails : Str → Bool) (all : List Listed)
    → RemovesOldest (suc max) refs fails (evict (pos (suc max)) refs fails all)
      × ((evict (pos (suc max)) refs fails all).result ≡ done
          → Fits (suc max) refs fails (evict (pos (suc max)) refs fails all) 0)
evict_lem max refs fails all =
    let sorted = sort_used all in
    let in_order : total_size all ≡ 0 + total_size sorted =
      ground (arith, total_size-sort_used all) in
    let limited = sym (evict-limited max refs fails all) in
    (
      subst (RemovesOldest (suc max) refs fails) limited (
          evict_from-RemovesOldest (suc max) refs fails (total_size all) sorted
            (sort_used-ByUse all)),
      subst (λ r. r.result ≡ done → Fits (suc max) refs fails r 0) limited
          (λ d. evict_from-Fits (suc max) refs fails 0 (total_size all) sorted in_order d),
    )
