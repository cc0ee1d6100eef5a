-- ===== src/Sorted/Orders.antt =====
-- The orders of Go's integers and strings; strings compare byte by byte.
use clusterplex.Prelude.{
  ℕ, ◌≡◌, refl, Bool, true, false, [], ◌∷◌, arith, if◌then◌else◌, ltb, nat_beq, Str,
}
use clusterplex.Sorted.{StrictOrder}

pub ltb_irrefl : (a : ℕ) → ltb a a ≡ false
ltb_irrefl a = ground arith

pub ltb_trans : (a b c : ℕ) → ltb a b ≡ true → ltb b c ≡ true → ltb a c ≡ true
ltb_trans a b c p q = ground arith

pub ltb_total : (a b : ℕ) → ltb a b ≡ false → ltb b a ≡ false → a ≡ b
ltb_total a b p q = ground arith

abbrev pub nat_order : StrictOrder ℕ
nat_order = record { lt = ltb; irrefl = ltb_irrefl; trans = ltb_trans; total = ltb_total }

unfoldable pub str_lt : Str → Str → Bool
str_lt [] [] = false
str_lt [] (y ∷ ys) = true
str_lt (x ∷ xs) [] = false
str_lt (x ∷ xs) (y ∷ ys) = if nat_beq x y then str_lt xs ys else ltb x y

pub str_lt_irrefl : (a : Str) → str_lt a a ≡ false
unfolding str_lt
str_lt_irrefl [] = refl
str_lt_irrefl (x ∷ xs) = ground (arith, str_lt_irrefl xs)

pub str_lt_trans : (a b c : Str) → str_lt a b ≡ true → str_lt b c ≡ true → str_lt a c ≡ true
unfolding str_lt
str_lt_trans [] [] c p q = cc
str_lt_trans [] (y ∷ ys) [] p q = cc
str_lt_trans [] (y ∷ ys) (z ∷ zs) p q = refl
str_lt_trans (x ∷ xs) [] c p q = cc
str_lt_trans (x ∷ xs) (y ∷ ys) [] p q = cc
str_lt_trans (x ∷ xs) (y ∷ ys) (z ∷ zs) p q = ground (arith, str_lt_trans xs ys zs)

pub str_lt_total : (a b : Str) → str_lt a b ≡ false → str_lt b a ≡ false → a ≡ b
unfolding str_lt
str_lt_total [] [] p q = refl
str_lt_total [] (y ∷ ys) p q = cc
str_lt_total (x ∷ xs) [] p q = cc
str_lt_total (x ∷ xs) (y ∷ ys) p q = ground (arith, str_lt_total xs ys)

abbrev pub str_order : StrictOrder Str
str_order = record {
  lt = str_lt;
  irrefl = str_lt_irrefl;
  trans = str_lt_trans;
  total = str_lt_total;
}
