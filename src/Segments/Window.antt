-- ===== src/Segments/Window.antt =====
-- The list keeps the newest entries.
use clusterplex.Prelude.{
  ℕ, zero, suc, ◌+◌, ◌-◌, ◌≤◌, ◌<◌, ◌≡◌, refl, sym, ap, ◌∙◌, true, false, List, [], ◌∷◌, ◌++◌,
  arith, if◌then◌else◌, ltb, leb, Str, length, drop, length-append, length-drop, Bool-cases, inl,
  inr, leb→le, ltb→lt,
}
use clusterplex.Segments.{SegmentList, window, add_line, opened_keep}

module _ {A : Type 0} where
  -- The last k values, or all if k is 0.
  abbrev pub newest : ℕ → List A → List A
  newest k xs = if leb k 0 then xs else drop (length xs - k) xs

  drop-append : (n : ℕ) (xs ys : List A) → n ≤ length xs → drop n xs ++ ys ≡ drop n (xs ++ ys)
  drop-append zero xs ys h = refl
  drop-append (suc n) [] ys h = absurd (omega arith)
  drop-append (suc n) (x ∷ xs) ys h = drop-append n xs ys (omega arith)

  drop_of_empty : (n : ℕ) → drop {A = A} n [] ≡ []
  drop_of_empty zero = refl
  drop_of_empty (suc n) = refl

  drop-drop : (n k : ℕ) (xs : List A) → drop n (drop k xs) ≡ drop (k + n) xs
  drop-drop n zero xs = ap (λ i. drop i xs) (omega arith)
  drop-drop n (suc k) [] = drop_of_empty n ∙ sym (drop_of_empty (suc k + n))
  drop-drop n (suc k) (x ∷ xs) =
      drop-drop n k xs ∙ ap (λ i. drop i (x ∷ xs)) {x = suc (k + n)} {y = suc k + n} (omega arith)

  -- Cutting to k after a value is added to the last k.
  cut : ℕ → List A → List A
  cut k ys = if ltb k (length ys) then drop (length ys - k) ys else ys

  cut-drop : (k d : ℕ) (zs : List A) → d + k + 1 ≡ length zs → cut k (drop d zs) ≡ drop (d + 1) zs
  unfolding cut
  cut-drop k d zs h =
      let left = length-drop d zs in
      let long : ltb k (length (drop d zs)) ≡ true = ground arith in
      let one : length (drop d zs) - k ≡ 1 = omega arith in rw (long, one) (drop-drop 1 d zs)

  cut_short : (k : ℕ) (zs : List A) → length zs ≤ k → cut k zs ≡ zs
  unfolding cut
  cut_short k zs h = let fits : ltb k (length zs) ≡ false = ground arith in rw fits refl

  newest-drop : (k : ℕ) (xs : List A) → 1 ≤ k → newest k xs ≡ drop (length xs - k) xs
  newest-drop k xs h = let some_kept : leb k 0 ≡ false = ground arith in rw some_kept refl

  newest_more :
      (k : ℕ) (xs : List A) (x : A)
      → 1 ≤ k
      → cut k (newest k xs ++ x ∷ []) ≡ newest k (xs ++ x ∷ [])
  newest_more k xs x h =
      let one_more = length-append xs (x ∷ []) in
      ap (cut k) (
        ap (λ ys. ys ++ x ∷ []) (newest-drop k xs h)
        ∙ drop-append (length xs - k) xs (x ∷ []) (omega arith))
      ∙ elim (Bool-cases (leb k (length xs))) [
        | inl full ↦
            let fits = leb→le k (length xs) full in
            cut-drop k (length xs - k) (xs ++ x ∷ []) (omega arith)
            ∙ ap (λ i. drop i (xs ++ x ∷ [])) {x = length xs - k + 1}
                {y = length (xs ++ x ∷ []) - k} (omega arith)
        | inr short ↦
            let small : length xs < k = ground arith in
            ap (λ i. cut k (drop i (xs ++ x ∷ []))) {x = length xs - k} {y = 0} (omega arith)
            ∙ cut_short k (xs ++ x ∷ []) (omega arith)
            ∙ ap (λ i. drop i (xs ++ x ∷ [])) {x = 0} {y = length (xs ++ x ∷ []) - k} (omega arith)
      ]
      ∙ sym (newest-drop k (xs ++ x ∷ []) h)

pub add_line-newest :
    (l : SegmentList) (xs : List Str) (line : Str)
    → l.lines ≡ newest l.max xs
    → (add_line l line).lines ≡ newest l.max (xs ++ line ∷ [])
unfolding add_line cut
add_line-newest l xs line h = elim (Bool-cases (leb l.max 0)) [
  | inl all ↦ let unbounded : ltb 0 l.max ≡ false = ground arith in rw (unbounded, h, all) refl
  | inr bounded ↦
      let limit : ltb 0 l.max ≡ true = ground arith in
      rw limit (
        ap (λ ys. cut l.max (ys ++ line ∷ [])) h ∙ newest_more l.max xs line (ltb→lt 0 l.max limit))
]

-- What new_segment_list starts with.
pub newest_of_none : (k : ℕ) → [] ≡ newest {A = Str} k []
newest_of_none k = elim (Bool-cases (leb k 0)) [
  | inl all ↦ rw all refl
  | inr some_kept ↦ rw some_kept (sym (drop_of_empty (0 - k)))
]

-- The lines beside an open segment's: one fewer than the limit, or all if there is none.
abbrev pub beside_open : ℕ → List Str → List Str
beside_open k xs = if leb k 0 then xs else drop (length xs - (k - 1)) xs

pub window-beside_open :
    (l : SegmentList) (xs : List Str)
    → l.lines ≡ newest l.max xs
    → window l (opened_keep l) ≡ beside_open l.max xs
unfolding window opened_keep
window-beside_open l xs h = elim (Bool-cases (leb l.max 0)) [
  | inl all ↦ let unbounded : ltb 0 l.max ≡ false = ground arith in rw (unbounded, h, all) refl
  | inr bounded ↦
      let limit : ltb 0 l.max ≡ true = ground arith in
      let positive = ltb→lt 0 l.max limit in
      let cut_at = length xs - l.max in
      let same : l.lines ≡ drop cut_at xs = h ∙ newest-drop l.max xs positive in
      let left = length-drop cut_at xs in
      let long : length l.lines ≡ length xs - cut_at = ap length same ∙ left in
      elim (Bool-cases (leb (length l.lines) (l.max - 1))) [
        | inl short ↦
            let fits = leb→le (length l.lines) (l.max - 1) short in
            rw (limit, bounded, short)
              (same ∙ ap (λ i. drop i xs) {x = cut_at} {y = length xs - (l.max - 1)} (omega arith))
        | inr more ↦
            let over : l.max - 1 < length l.lines = ground arith in
            let again = length l.lines - (l.max - 1) in
            rw (limit, bounded, more)
              (ap (drop again) same
                ∙ drop-drop again cut_at xs
                ∙ ap (λ i. drop i xs) {x = cut_at + again} {y = length xs - (l.max - 1)}
                    (omega arith))
      ]
]
