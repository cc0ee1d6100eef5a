-- ===== src/Video/Conversion.antt =====
-- A job that Parse accepts is one that IsConversion sends to the pool.
use clusterplex.Prelude.{
  true, false, Option, none, some, List, [], ◌∷◌, ◌++◌, ◌==◌, ◌≡◌, ◌≢◌, refl, ap, ◌∙◌, ◌⊎◌, inl,
  inr, Bool-cases, Option-cases, Str, str, str_eq, str_beq, nat_eq, arith,
}
use clusterplex.Sorted.{contains}
use clusterplex.Dispatch.Args.{converts, after_last_input, is_conversion, converts_after}
use clusterplex.Video.Options.{is_flag}
use clusterplex.Video.Scan.{has_input}
use clusterplex.Video.Encodes.{Encodes, here, past_flag, past_value, InputsAligned}
use clusterplex.Video.Converts.{
  converts-Encodes, converts-append, flag_is_no_input, codec_is_no_input,
}

after_last_input-none : (xs : List Str) → has_input xs ≡ false → after_last_input xs ≡ none
unfolding after_last_input contains
after_last_input-none [] h = refl
after_last_input-none (a ∷ xs) h = ground (arith, after_last_input-none xs, h)

-- Where no -i follows, or what follows the last -i converts.
abbrev Leads : List Str → Type 0
Leads args = (has_input args ≡ false) ⊎ (converts_after (after_last_input args) ≡ true)

abbrev extended : List Str → Option (List Str) → Option (List Str)
extended ys none = none
extended ys (some t) = some (t ++ ys)

after_last_input-append :
    (xs ys : List Str)
    → has_input ys ≡ false
    → after_last_input (xs ++ ys) ≡ extended ys (after_last_input xs)
unfolding after_last_input
after_last_input-append [] ys h = after_last_input-none ys h
after_last_input-append (a ∷ xs) ys h = ground (arith, after_last_input-append xs ys h)

Leads-later : (a : Str) (xs : List Str) → (a == str "-i") ≡ false → Leads xs → Leads (a ∷ xs)
unfolding contains after_last_input
Leads-later a xs n (inl h) = inl (ground (arith, n, h))
Leads-later a xs n (inr h) = elim (Option-cases (after_last_input xs)) [
  | inl e ↦ absurd (ground (arith, e, h))
  | inr (t, e) ↦ inr (rw e (rw e at h))
]

Leads-past :
    (a v : Str) (rest : List Str)
    → (v == str "-i") ≡ false
    → converts rest ≡ true
    → Leads rest
    → Leads (a ∷ v ∷ rest)
unfolding contains after_last_input
Leads-past a v rest n c (inr h) = elim (Option-cases (after_last_input rest)) [
  | inl e ↦ absurd (ground (arith, e, h))
  | inr (t, e) ↦ inr (rw e (rw e at h))
]
Leads-past a v rest n c (inl h) = elim (Bool-cases (a == str "-i")) [
  | inl input ↦ inr (rw (after_last_input-none rest h, n, input) c)
  | inr other ↦ inl (rw (other, n) h)
]

no_input :
    (a : Str) (rest : List Str)
    → (a == str "-i") ≡ false
    → has_input rest ≡ false
    → has_input (a ∷ str "libx264" ∷ rest) ≡ false
unfolding contains str_beq
no_input a rest n h = ground (arith, n, h)

Encodes-Leads : {args : List Str} → Encodes args → InputsAligned args → Leads args
unfolding InputsAligned is_flag contains str_beq
Encodes-Leads (here {a = a} {rest = rest} e n) h = inl (no_input a rest (codec_is_no_input a e) n)
Encodes-Leads (past_flag {a = a} {v = v} {rest = rest} f d) h =
    Leads-later a (v ∷ rest) (flag_is_no_input a f) (Encodes-Leads d (rw f at h))
Encodes-Leads (past_value {a = a} {v = v} {rest = rest} f k d) h =
    let aligned : ((v == str "-i") ≡ false) × InputsAligned rest = rw f at h in
    Leads-past a v rest aligned.0 (converts-Encodes d) (Encodes-Leads d aligned.1)

empty_converts : converts [] ≢ true
unfolding converts
empty_converts e = ground (arith, e)

converts_extended :
    (o : Option (List Str)) (rest : List Str)
    → converts_after o ≡ true
    → converts_after (extended rest o) ≡ true
converts_extended none rest c = absurd (ground (arith, c))
converts_extended (some []) rest c = absurd (empty_converts c)
converts_extended (some (v ∷ t)) rest c = converts-append t rest c

-- IsConversion holds of such options, whatever follows that is no -i.
pub Encodes-is_conversion :
    {args : List Str} (rest : List Str)
    → Encodes args
    → InputsAligned args
    → has_input args ≡ true
    → has_input rest ≡ false
    → is_conversion (args ++ rest) ≡ true
unfolding is_conversion
Encodes-is_conversion {args} rest d h i n = elim (Encodes-Leads d h) [
  | inl none_there ↦ absurd (ground (arith, i, none_there))
  | inr c ↦
      ap converts_after (after_last_input-append args rest n)
      ∙ converts_extended (after_last_input args) rest c
]
