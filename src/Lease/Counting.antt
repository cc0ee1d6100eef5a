-- ===== src/Lease/Counting.antt =====
-- What clustarr reads of the count after a manager's Renew.
use clusterplex.Prelude.{
  ℕ, ◌+◌, ◌/◌, ◌^◌, ◌*◌, ◌<◌, ◌≡◌, ◌≢◌, ◌||◌, not, ltb, ℤ, negsuc, refl, sym, ap, ◌∙◌, false,
  Option, none, some, [], ◌∷◌, ◌++◌, if◌then◌else◌, ◌==◌, ==_iff, ==_refl, leb, pos, Str, str_eq,
  has_prefix, has_prefix-append, arith, Bool-cases, inl, inr,
}
use clusterplex.Dict.{Dict, lookup, insert, delete, has, IsMap, lookup-insert, delete-absent}
use clusterplex.Hashring.{itoa}
use clusterplex.Lease.{Lease, second, Reply, found, not_found, failed}
use clusterplex.Lease.Count.{
  annotation, entry_prefix, stale_after, pieces, onto_word, filled, fields, entry_of, entry_in,
  parse_entry, is_stale, fresh_count, with_entry, untouched, sweep, entry_text, summed,
  renewed_annotations, renew_lease, renew_over, blank_lease, Counter, count, read_count, count_in,
}
use clusterplex.Video.Strings.{is_space, atoi}
use clusterplex.Video.Decimals.{AreDigits, itoa-AreDigits, itoa_filled, atoi-itoa}

pieces-word : (w s : Str) → AreDigits w → pieces (w ++ 32 ∷ s) ≡ w ∷ pieces s
unfolding pieces
pieces-word [] s d = refl
pieces-word (c ∷ w) s d =
    let solid : is_space c ≡ false = ground (arith, d.0) in
    rw solid (ap (onto_word c) (pieces-word w s d.1))

pieces-last : (w : Str) → AreDigits w → pieces w ≡ w ∷ []
unfolding pieces
pieces-last [] d = refl
pieces-last (c ∷ w) d =
    let solid : is_space c ≡ false = ground (arith, d.0) in
    rw solid (ap (onto_word c) (pieces-last w d.1))

filled-two : (v w : Str) → v ≢ [] → w ≢ [] → filled (v ∷ w ∷ []) ≡ v ∷ w ∷ []
unfolding filled
filled-two [] w nv nw = absurd (nv refl)
filled-two (c ∷ v) [] nv nw = absurd (nw refl)
filled-two (c ∷ v) (d ∷ w) nv nw = refl

fields-two :
    (v w : Str) → AreDigits v → AreDigits w → v ≢ [] → w ≢ [] → fields (v ++ 32 ∷ w) ≡ v ∷ w ∷ []
unfolding fields filled
fields-two v w dv dw nv nw =
    ap filled (pieces-word v w dv ∙ ap (λ x. v ∷ x) (pieces-last w dw)) ∙ filled-two v w nv nw

-- A manager's own entry is read back as it was written.
parse_entry-entry_text :
    (n now : ℕ)
    → n < 2 ^ 63
    → now / second < 2 ^ 63
    → parse_entry (entry_text n now) ≡ some (n, pos (now / second))
unfolding parse_entry
parse_entry-entry_text n now hn ht =
    let two =
      fields-two (itoa n) (itoa (now / second)) (itoa-AreDigits n) (itoa-AreDigits (now / second))
        (itoa_filled n) (itoa_filled (now / second)) in
    ap entry_in two
    ∙ ap (λ a. entry_of a (atoi (itoa (now / second)))) (atoi-itoa n hn)
    ∙ ap (entry_of (some (pos n))) (atoi-itoa (now / second) ht)

abbrev or_none_counted : Option ℕ → ℕ
or_none_counted none = 0
or_none_counted (some n) = n

-- What an annotation adds to the sum.
weight : ℕ → Str → Str → ℕ
weight now k v =
    if has_prefix k entry_prefix then or_none_counted (fresh_count now (parse_entry v)) else 0

with_entry-sum :
    (k v : Str) (o : Option ℕ) (r : Dict Str Str × ℕ)
    → (with_entry k v o r).1 ≡ or_none_counted o + r.1
with_entry-sum k v none (m, sum) = omega arith
with_entry-sum k v (some n) (m, sum) = refl

untouched-sum : (k v : Str) (r : Dict Str Str × ℕ) → (untouched k v r).1 ≡ r.1
untouched-sum k v (m, sum) = refl

zero_more : (n : ℕ) → n ≡ 0 + n
zero_more n = omega arith

sweep-weight :
    (now : ℕ) (k v : Str) (m : Dict Str Str)
    → (sweep now ((k, v) ∷ m)).1 ≡ weight now k v + (sweep now m).1
unfolding sweep weight
sweep-weight now k v m = elim (Bool-cases (has_prefix k entry_prefix)) [
  | inl entry ↦ rw entry (with_entry-sum k v (fresh_count now (parse_entry v)) (sweep now m))
  | inr other ↦ rw other (untouched-sum k v (sweep now m) ∙ zero_more (sweep now m).1)
]

sweep-insert :
    (now : ℕ) (k v : Str) (m : Dict Str Str)
    → IsMap m
    → (sweep now (insert k v m)).1 ≡ weight now k v + (sweep now (delete k m)).1
unfolding insert delete
sweep-insert now k v [] h = sweep-weight now k v []
sweep-insert now k v ((i, x) ∷ m) h = elim (Bool-cases (i == k)) [
  | inl same ↦
      let i_is_k = (==_iff i k).0 same in
      let gone : has k m ≡ false = ap (λ y. has y m) (sym i_is_k) ∙ h.0 in
      let rest = delete-absent k m gone in
      rw same (
        sweep-weight now i v m
        ∙ ap (λ y. weight now y v + (sweep now m).1) i_is_k
        ∙ ap (λ d. weight now k v + (sweep now d).1) (sym rest))
  | inr apart ↦
      let later = sweep-insert now k v m h.1 in
      let kept = sweep-weight now i x (delete k m) in
      rw apart (sweep-weight now i x (insert k v m) ∙ omega (arith, later, kept))
]

-- An entry's count, if it was written less than 30 seconds before.
abbrev pub recent_count : ℕ → Option (ℕ × ℤ) → ℕ
recent_count now none = 0
recent_count now (some (n, pos at)) = if ltb now (at * 1_000_000 + 30_000_000) then n else 0
recent_count now (some (n, negsuc at)) =
    if ltb (now + (at + 1) * 1_000_000) 30_000_000 then n else 0

-- What an annotation counts for another manager than identity.
abbrev pub of_other : ℕ → Str → Str → Str → ℕ
of_other now identity k v =
    if k == (entry_prefix ++ identity) || not (has_prefix k entry_prefix)
    then 0
    else recent_count now (parse_entry v)

-- What the other managers' entries of the last 30 seconds add up to.
unfoldable pub others : ℕ → Str → Dict Str Str → ℕ
others now identity [] = 0
others now identity ((k, v) ∷ m) = of_other now identity k v + others now identity m

recent_count-fresh_count :
    (now : ℕ) (o : Option (ℕ × ℤ)) → or_none_counted (fresh_count now o) ≡ recent_count now o
recent_count-fresh_count now none = refl
recent_count-fresh_count now (some (n, pos at)) = ground arith
recent_count-fresh_count now (some (n, negsuc at)) = ground arith

sweep-others :
    (now : ℕ) (identity : Str) (m : Dict Str Str)
    → (sweep now (delete (entry_prefix ++ identity) m)).1 ≡ others now identity m
unfolding sweep others delete weight
sweep-others now identity [] = refl
sweep-others now identity ((k, v) ∷ m) =
    let rest = sweep-others now identity m in
    elim (Bool-cases (k == (entry_prefix ++ identity))) [
      | inl own ↦ rw own (rest ∙ zero_more (others now identity m))
      | inr apart ↦
          let kept = sweep-weight now k v (delete (entry_prefix ++ identity) m) in
          let fresh = recent_count-fresh_count now (parse_entry v) in
          rw apart (
            kept ∙ elim (Bool-cases (has_prefix k entry_prefix)) [
              | inl entry ↦ rw entry (omega (arith, rest, fresh))
              | inr other ↦ rw other (omega (arith, rest))
            ])
    ]

own_weight :
    (n now : ℕ) (identity : Str)
    → n < 2 ^ 63
    → now / second < 2 ^ 63
    → weight now (entry_prefix ++ identity) (entry_text n now) ≡ n
unfolding weight
own_weight n now identity hn ht =
    let is_entry = has_prefix-append entry_prefix identity in
    let own = parse_entry-entry_text n now hn ht in
    let fresh : is_stale now (pos (now / second)) ≡ false = ground arith in
    rw (is_entry, own, fresh) refl

lookup-summed : (r : Dict Str Str × ℕ) → lookup annotation (summed r) ≡ some (itoa r.1)
lookup-summed (m, sum) =
    ground (arith, lookup-insert annotation annotation (itoa sum) m, ==_refl annotation)

some_inj : {A : Type 0} {a b : A} → some a ≡ some b → a ≡ b
some_inj e = ground (arith, e)

count-renew_lease :
    (n now : ℕ) (identity : Str) (l : Lease)
    → IsMap l.annotations
    → now / second < 2 ^ 63
    → n + others now identity l.annotations < 2 ^ 63
    → count (renew_lease n now identity l) now ≡ n + others now identity l.annotations
unfolding count renew_lease renewed_annotations
count-renew_lease n now identity l h ht hs =
    let own = entry_prefix ++ identity in
    let swept = sweep now (insert own (entry_text n now) l.annotations) in
    let mine = own_weight n now identity (omega arith) ht in
    let total : swept.1 ≡ n + others now identity l.annotations =
      sweep-insert now own (entry_text n now) l.annotations h
      ∙ omega (arith, mine, sweep-others now identity l.annotations) in
    let recent : leb (now + stale_after) now ≡ false = ground arith in
    let in_range : swept.1 < 2 ^ 63 = omega (arith, total, hs) in
    rw recent
      (ap read_count (lookup-summed swept) ∙ ap count_in (atoi-itoa swept.1 in_range) ∙ total)

-- The annotations that Renew finds.
abbrev pub annotations_of : Reply → Dict Str Str
annotations_of not_found = []
annotations_of (found l) = l.annotations
annotations_of failed = []

-- After a Renew that is written, also one that creates the Lease, a reader counts the manager's own
-- conversions and those of the other managers' fresh entries, if the numbers are within 64 bits.
pub count-renew_over :
    (c : Counter) (now : ℕ) (reply : Reply) (sent : Lease)
    → IsMap (annotations_of reply)
    → now / second < 2 ^ 63
    → c.n + others now c.identity (annotations_of reply) < 2 ^ 63
    → renew_over c now reply ≡ some sent
    → count sent now ≡ c.n + others now c.identity (annotations_of reply)
unfolding renew_over
count-renew_over c now not_found sent h ht hs e =
    ap (λ l. count l now) (some_inj (sym e))
    ∙ count-renew_lease c.n now c.identity blank_lease h ht hs
count-renew_over c now (found l) sent h ht hs e =
    ap (λ x. count x now) (some_inj (sym e)) ∙ count-renew_lease c.n now c.identity l h ht hs
count-renew_over c now failed sent h ht hs e = absurd (ground (arith, e))
