-- ===== src/Prelude/Text.antt =====
-- Go's strings: sequences of bytes, with the functions of package strings that the program calls.
use Prim.Native.Char.{code}
use Prim.Native.String.{String}
use Prim.Native.Nat.{ℕ}
use mathlib.Core.Path.{◌≡◌, refl}
use mathlib.Core.Logic.{◌↔◌}
use mathlib.Core.Bool.{Bool, true, false, ◌&&◌}
use mathlib.Core.List.{List, [], ◌∷◌, ◌++◌}
use native.Mathlib.Omega.{arith}
use clusterplex.Prelude.Tests.{Eq, nat_beq}

abbrev pub Str : Type 0
Str = List ℕ

-- A text literal, whose characters are ASCII.
abbrev pub str : String → Str
str String.[] = []
str (String.◌∷◌ c s) = code c ∷ str s

unfoldable pub str_beq : Str → Str → Bool
str_beq [] [] = true
str_beq [] (y ∷ ys) = false
str_beq (x ∷ xs) [] = false
str_beq (x ∷ xs) (y ∷ ys) = nat_beq x y && str_beq xs ys

str_beq_sound : (a b : Str) → str_beq a b ≡ true → a ≡ b
unfolding str_beq
str_beq_sound [] [] h = refl
str_beq_sound [] (y ∷ ys) h = cc
str_beq_sound (x ∷ xs) [] h = cc
str_beq_sound (x ∷ xs) (y ∷ ys) h = ground (arith, str_beq_sound xs ys)

str_beq_refl : (a : Str) → str_beq a a ≡ true
unfolding str_beq
str_beq_refl [] = refl
str_beq_refl (x ∷ xs) = ground (arith, str_beq_refl xs)

str_beq_complete : (a b : Str) → a ≡ b → str_beq a b ≡ true
str_beq_complete a b p = rw p (str_beq_refl b)

pub str_beq_iff : (a b : Str) → (str_beq a b ≡ true) ↔ (a ≡ b)
str_beq_iff a b = (str_beq_sound a b, str_beq_complete a b)

instance abbrev pub str_eq : Eq Str
str_eq = record { beq = str_beq; beq_iff = str_beq_iff }

-- strings.HasPrefix
unfoldable pub has_prefix : Str → Str → Bool
has_prefix s [] = true
has_prefix [] (y ∷ ys) = false
has_prefix (x ∷ xs) (y ∷ ys) = nat_beq x y && has_prefix xs ys

pub has_prefix-append : (p s : Str) → has_prefix (p ++ s) p ≡ true
unfolding has_prefix
has_prefix-append [] s = refl
has_prefix-append (x ∷ p) s = ground (arith, has_prefix-append p s)
