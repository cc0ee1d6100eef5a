-- ===== src/Cache/Spans.antt =====
-- A span keeps what it reads while its file grows.
use clusterplex.Prelude.{
  take_append, ℕ, zero, suc, ◌+◌, ◌≤◌, ◌≡◌, refl, ap, ◌∙◌, true, some, List, [], ◌∷◌, ◌++◌, leb,
  length, take, drop, arith, length-append, Bool-cases, inl, inr,
}
use clusterplex.Cache.{Bytes, Span, read_at}

take-length : {A : Type 0} (xs : List A) → take (length xs) xs ≡ xs
take-length [] = refl
take-length (x ∷ xs) = ap (◌∷◌ x) (take-length xs)

drop-length : {A : Type 0} (xs ys : List A) → drop (length xs) (xs ++ ys) ≡ ys
drop-length [] ys = refl
drop-length (x ∷ xs) ys = drop-length xs ys

take-drop_append :
    {A : Type 0} (n k : ℕ) (xs ys : List A)
    → n + k ≤ length xs
    → take k (drop n (xs ++ ys)) ≡ take k (drop n xs)
take-drop_append zero k xs ys h = take_append k xs ys (omega arith)
take-drop_append (suc n) k [] ys h = absurd (omega arith)
take-drop_append (suc n) k (x ∷ xs) ys h = take-drop_append n k xs ys (omega arith)

-- What is read from a file is read from a longer one.
pub read_at-append :
    (file more new : Bytes) (s : Span)
    → read_at file s ≡ some new
    → read_at (file ++ more) s ≡ some new
unfolding read_at
read_at-append file more new s e = elim (Bool-cases (leb (s.off + s.len) (length file))) [
  | inl inside ↦
      let within : s.off + s.len ≤ length file = ground (arith, inside) in
      let longer : leb (s.off + s.len) (length (file ++ more)) ≡ true =
        ground (arith, within, length-append file more) in
      let taken : some (take s.len (drop s.off file)) ≡ some new = rw inside at e in
      rw longer (ap (λ x. some x) (take-drop_append s.off s.len file more within) ∙ taken)
  | inr outside ↦ absurd (ground (arith, rw outside at e))
]

-- A span of an append reads what was appended.
pub read_at-append_to :
    (file new : Bytes)
    → read_at (file ++ new) (record { off = length file; len = length new }) ≡ some new
unfolding read_at
read_at-append_to file new =
    let inside : leb (length file + length new) (length (file ++ new)) ≡ true =
      ground (arith, length-append file new) in
    rw inside (ap (λ x. some x) (ap (take (length new)) (drop-length file new) ∙ take-length new))
