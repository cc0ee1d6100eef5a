-- ===== src/Relay/Query.antt =====
-- The query of a throttled conversion.
use mathlib.Core.List.{append_assoc}
use clusterplex.Prelude.{
  ℕ, ◌≡◌, refl, ap, ◌∙◌, Bool, true, false, not, ◌&&◌, List, [], ◌∷◌, ◌++◌, map, if◌then◌else◌,
  ◌==◌, Str, str, str_eq, nat_eq, keep_if, Bool-cases, inl, inr, All, arith,
}
use clusterplex.Relay.Sloth.{
  sloth_remaining, split_fields, onto_first, key_of, sloth_fields, join_fields, sloth_query,
}

-- A text without "&".
abbrev NoAmp : Str → Type 0
NoAmp [] = Unit
NoAmp (c ∷ s) = ((c == 38) ≡ false) × NoAmp s

onto_first-NoAmp :
    (c : ℕ) (xs : List Str) → (c == 38) ≡ false → All NoAmp xs → All NoAmp (onto_first c xs)
onto_first-NoAmp c [] h a = ((h, tt), tt)
onto_first-NoAmp c (x ∷ xs) h (a, b) = ((h, a), b)

split_fields-NoAmp : (s : Str) → All NoAmp (split_fields s)
unfolding split_fields
split_fields-NoAmp [] = (tt, tt)
split_fields-NoAmp (c ∷ s) = elim (Bool-cases (c == 38)) [
  | inl amp ↦ rw amp (tt, split_fields-NoAmp s)
  | inr other ↦ rw other (onto_first-NoAmp c (split_fields s) other (split_fields-NoAmp s))
]

split_fields-one : (s : Str) → NoAmp s → split_fields s ≡ s ∷ []
unfolding split_fields
split_fields-one [] h = refl
split_fields-one (c ∷ s) (h, a) = rw h (ap (onto_first c) (split_fields-one s a))

split_fields-amp : (s t : Str) → NoAmp s → split_fields (s ++ 38 ∷ t) ≡ s ∷ split_fields t
unfolding split_fields
split_fields-amp [] t h = refl
split_fields-amp (c ∷ s) t (h, a) = rw h (ap (onto_first c) (split_fields-amp s t a))

-- strings.Join of no fields is one empty field.
abbrev pub or_one_empty : List Str → List Str
or_one_empty [] = [] ∷ []
or_one_empty (x ∷ xs) = x ∷ xs

split_fields-join_fields :
    (xs : List Str) → All NoAmp xs → split_fields (join_fields xs) ≡ or_one_empty xs
unfolding join_fields split_fields
split_fields-join_fields [] h = refl
split_fields-join_fields (x ∷ []) (h, a) = split_fields-one x h
split_fields-join_fields (x ∷ y ∷ ys) (h, a) =
    ap split_fields (append_assoc x (str "&") (join_fields (y ∷ ys)))
    ∙ split_fields-amp x (join_fields (y ∷ ys)) h
    ∙ ap (λ zs. x ∷ zs) (split_fields-join_fields (y ∷ ys) a)

-- A field as sloth mode sends it.
abbrev pub sent_as : Str → Str
sent_as kv = if key_of kv == str "remaining" then str "remaining=" ++ sloth_remaining else kv

no_amp : Str → Bool
no_amp [] = true
no_amp (c ∷ s) = not (c == 38) && no_amp s

no_amp-NoAmp : (s : Str) → no_amp s ≡ true → NoAmp s
unfolding no_amp
no_amp-NoAmp [] h = tt
no_amp-NoAmp (c ∷ s) h = (ground (arith, h), no_amp-NoAmp s (ground (arith, h)))

remaining-NoAmp : NoAmp (str "remaining=" ++ sloth_remaining)
unfolding no_amp
remaining-NoAmp = no_amp-NoAmp (str "remaining=" ++ sloth_remaining) refl

module _ (P : Str → Type 0) (p : P (str "remaining=" ++ sloth_remaining)) where
  sloth_fields-All : (xs : List Str) → All P xs → All P (sloth_fields xs)
  unfolding sloth_fields
  sloth_fields-All [] a = tt
  sloth_fields-All (kv ∷ xs) (h, a) = elim (Bool-cases (key_of kv == str "speed")) [
    | inl speed ↦ rw speed (sloth_fields-All xs a)
    | inr other ↦ elim (Bool-cases (key_of kv == str "remaining")) [
      | inl e ↦ rw (other, e) (p, sloth_fields-All xs a)
      | inr e ↦ rw (other, e) (h, sloth_fields-All xs a)
    ]
  ]

sloth_fields-map :
    (xs : List Str)
    → sloth_fields xs ≡ map sent_as (keep_if (λ kv. not (key_of kv == str "speed")) xs)
unfolding sloth_fields
sloth_fields-map [] = refl
sloth_fields-map (kv ∷ xs) = elim (Bool-cases (key_of kv == str "speed")) [
  | inl speed ↦ rw speed (sloth_fields-map xs)
  | inr other ↦ elim (Bool-cases (key_of kv == str "remaining")) [
    | inl e ↦
        rw (other, e) (ap (λ ys. (str "remaining=" ++ sloth_remaining) ∷ ys) (sloth_fields-map xs))
    | inr e ↦ rw (other, e) (ap (λ ys. kv ∷ ys) (sloth_fields-map xs))
  ]
]

-- The fields of a query in sloth mode are those of the query in order without those of the key speed,
-- each field of the key remaining with the text for no known time, and the others as they were. A
-- query of nothing but speed becomes the empty one.
pub split_fields-sloth_query :
    (query : Str)
    → split_fields (sloth_query query)
      ≡ or_one_empty
          (map sent_as (keep_if (λ kv. not (key_of kv == str "speed")) (split_fields query)))
unfolding sloth_query
split_fields-sloth_query query =
    let fields = split_fields query in
    split_fields-join_fields (sloth_fields fields)
      (sloth_fields-All NoAmp remaining-NoAmp fields (split_fields-NoAmp query))
    ∙ ap or_one_empty (sloth_fields-map fields)
