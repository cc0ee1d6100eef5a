-- ===== src/Video/Decimals.antt =====
-- A number that strconv.Itoa prints is the one that strconv.Atoi reads.
use clusterplex.Prelude.{
  ℕ, zero, suc, ◌+◌, ◌-◌, ◌*◌, ◌/◌, ◌%◌, ◌^◌, ◌<◌, ◌≤◌, ◌≡◌, ◌≢◌, refl, ap, ◌∙◌, true, false, some,
  [], ◌∷◌, ltb, ◌==◌, nat_eq, Str, pos, All, arith, Bool-cases, inl, inr,
}
use clusterplex.Hashring.{itoa, itoa_from}
use clusterplex.Video.Strings.{is_digit, digits_from, digits, atoi}

digit_is_digit : (d : ℕ) → d < 10 → is_digit (48 + d) ≡ true
digit_is_digit d h = ground (arith, h)

digits_from_digit :
    (k d : ℕ) (acc : Str) → d < 10 → digits_from k ((48 + d) ∷ acc) ≡ digits_from (k * 10 + d) acc
unfolding digits_from
digits_from_digit k d acc h =
    let value : k * 10 + (48 + d - 48) ≡ k * 10 + d = omega arith in
    ground (arith, digit_is_digit d h, ap (λ x. digits_from x acc) value)

zero_plus : (n : ℕ) → 0 * 10 + n ≡ n
zero_plus n = omega arith

digits_from-itoa_from :
    (f n : ℕ) (acc : Str) → n < f → digits_from 0 (itoa_from f n acc) ≡ digits_from n acc
unfolding itoa_from
digits_from-itoa_from zero n acc h = absurd (omega arith)
digits_from-itoa_from (suc f) n acc h = elim (Bool-cases (ltb n 10)) [
  | inl one ↦
      let small : n < 10 = ground (arith, one) in
      rw one (digits_from_digit 0 n acc small ∙ ap (λ x. digits_from x acc) (zero_plus n))
  | inr more ↦
      let large : 10 ≤ n = ground (arith, more) in
      let rest = digits_from-itoa_from f (n / 10) ((48 + n % 10) ∷ acc) (omega arith) in
      let last = digits_from_digit (n / 10) (n % 10) acc (omega arith) in
      let whole : n / 10 * 10 + n % 10 ≡ n = omega arith in
      rw more (rest ∙ last ∙ ap (λ x. digits_from x acc) whole)
]

-- The digits of a number are digits.
abbrev pub AreDigits : Str → Type 0
AreDigits s = All (λ c. is_digit c ≡ true) s

itoa_from-AreDigits : (f n : ℕ) (acc : Str) → AreDigits acc → AreDigits (itoa_from f n acc)
unfolding itoa_from
itoa_from-AreDigits zero n acc h = h
itoa_from-AreDigits (suc f) n acc h = elim (Bool-cases (ltb n 10)) [
  | inl one ↦ let small : n < 10 = ground (arith, one) in rw one (digit_is_digit n small, h)
  | inr more ↦ rw more (
      itoa_from-AreDigits f (n / 10) ((48 + n % 10) ∷ acc)
        (digit_is_digit (n % 10) (omega arith), h))
]

pub itoa-AreDigits : (n : ℕ) → AreDigits (itoa n)
unfolding itoa
itoa-AreDigits n = itoa_from-AreDigits (suc n) n [] tt

itoa_from_filled : (f n : ℕ) (c : ℕ) (acc : Str) → itoa_from f n (c ∷ acc) ≢ []
unfolding itoa_from
itoa_from_filled zero n c acc e = absurd (ground (arith, e))
itoa_from_filled (suc f) n c acc e = elim (Bool-cases (ltb n 10)) [
  | inl one ↦ absurd (ground (arith, one, e))
  | inr more ↦ itoa_from_filled f (n / 10) (48 + n % 10) (c ∷ acc) (ground (arith, more, e))
]

pub itoa_filled : (n : ℕ) → itoa n ≢ []
unfolding itoa itoa_from
itoa_filled n e = elim (Bool-cases (ltb n 10)) [
  | inl one ↦ absurd (ground (arith, one, e))
  | inr more ↦ itoa_from_filled n (n / 10) (48 + n % 10) [] (ground (arith, more, e))
]

-- A text of digits that is not empty is read as digits, without a sign.
atoi-digits_from :
    (s : Str) (n : ℕ)
    → s ≢ []
    → AreDigits s
    → digits_from 0 s ≡ some n
    → n < 2 ^ 63
    → atoi s ≡ some (pos n)
unfolding atoi digits
atoi-digits_from [] n h d e b = absurd (h refl)
atoi-digits_from (c ∷ s) n h d e b =
    let first = d.0 in
    let no_minus : (c == 45) ≡ false = ground (arith, first) in
    let no_plus : (c == 43) ≡ false = ground (arith, first) in
    let below : ltb n (2 ^ 63) ≡ true = ground (arith, b) in rw (no_minus, no_plus, e, below) refl

pub atoi-itoa : (n : ℕ) → n < 2 ^ 63 → atoi (itoa n) ≡ some (pos n)
unfolding itoa digits_from
atoi-itoa n b =
    atoi-digits_from (itoa n) n (itoa_filled n) (itoa-AreDigits n)
      (digits_from-itoa_from (suc n) n [] (omega arith)) b
