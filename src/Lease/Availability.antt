-- ===== src/Lease/Availability.antt =====
-- Where traffic goes: what the tracker makes of the Lease, and of what the publishers write.
use clusterplex.Prelude.{
  ℕ, ◌≡◌, refl, ap, ◌∙◌, false, ◌||◌, Option, none, some, arith, if◌then◌else◌, ◌==◌, ==_iff,
  ==_refl, Str, str_eq, is_empty, inl, inr, Bool-cases, Option-cases,
}
use clusterplex.Dict.{Dict, lookup, lookup-insert, lookup-delete}
use clusterplex.Lease.{Lease, holder_of}
use clusterplex.Lease.Elector.{ended}
use clusterplex.Lease.Route.{
  Target, Codec, IsAscii, availability_annotation, expired, evaluate, publish_change, clear_change,
  checked, names_other,
}

-- What is left of the annotations once a change is made, if one is.
abbrev pub or_same : Dict Str Str → Option (Dict Str Str) → Dict Str Str
or_same m none = m
or_same m (some m') = m'

pub published : Codec → Target → Lease → Lease
published c t l = record l {
  annotations = or_same l.annotations (publish_change c t l.annotations);
}

pub cleared : Codec → Str → Lease → Lease
cleared c pod l = record l {
  annotations = or_same l.annotations (clear_change c pod l.annotations);
}

lookup-published :
    (c : Codec) (t : Target) (m : Dict Str Str)
    → lookup availability_annotation (or_same m (publish_change c t m)) ≡ some (c.marshal t)
unfolding publish_change
lookup-published c t m =
    let new = lookup-insert availability_annotation availability_annotation (c.marshal t) m in
    let self = ==_refl availability_annotation in
    elim (Option-cases (lookup availability_annotation m)) [
      | inl e ↦ rw (e, publish_change) (ground (arith, new, self))
      | inr (raw, e) ↦ elim (Bool-cases (raw == c.marshal t)) [
        | inl same ↦
            rw (e, publish_change) (rw same (e ∙ ap some ((==_iff raw (c.marshal t)).0 same)))
        | inr other ↦ rw (e, publish_change) (rw other (ground (arith, new, self)))
      ]
    ]

-- Once a pod that holds an unexpired Lease has published a target of its own, with an address, in ASCII,
-- traffic goes to that target.
pub evaluate-published :
    (c : Codec) (now : ℕ) (t : Target) (l : Lease)
    → IsAscii t
    → holder_of l ≡ t.pod
    → is_empty t.pod ≡ false
    → is_empty t.address ≡ false
    → expired l now ≡ false
    → evaluate c now (published c t l) ≡ some t
unfolding evaluate published expired
evaluate-published c now t l ascii holds named full live =
    rw
      (
        holds,
        named,
        live,
        lookup-published c t l.annotations,
        c.marshal_full t,
        c.round_trip t ascii,
      )
      (ground (arith, ==_refl t.pod, full, holds))

-- What the routing makes of the annotation.
read_raw : Codec → Lease → Option Str → Option Target
read_raw c l none = none
read_raw c l (some raw) = if is_empty raw then none else checked l (c.unmarshal raw)

evaluate-read_raw :
    (c : Codec) (now : ℕ) (l : Lease)
    → evaluate c now l ≡ (
        if is_empty (holder_of l) || expired l now
        then none
        else read_raw c l (lookup availability_annotation l.annotations))
unfolding evaluate read_raw
evaluate-read_raw c now l = ground arith

abbrev unless_of : Str → Option Target → Option Target
unless_of pod none = none
unless_of pod (some t) = if t.pod == pod then none else some t

lookup-cleared :
    (c : Codec) (pod : Str) (m : Dict Str Str) (o : Option Str)
    → lookup availability_annotation m ≡ o
    → lookup availability_annotation (or_same m (clear_change c pod m)) ≡ elim o [
      | none ↦ none
      | some raw ↦ if names_other pod (c.unmarshal raw) then some raw else none
    ]
unfolding clear_change
lookup-cleared c pod m none e = rw (e, clear_change) e
lookup-cleared c pod m (some raw) e = elim (Bool-cases (names_other pod (c.unmarshal raw))) [
  | inl other ↦ rw (e, clear_change) (rw other e)
  | inr own ↦
      rw (e, clear_change)
        (rw own (
          ground (
            arith,
            lookup-delete availability_annotation availability_annotation m,
            ==_refl availability_annotation,
          )))
]

read_raw-cleared :
    (c : Codec) (pod : Str) (l : Lease) (raw : Str) (o : Option Target)
    → c.unmarshal raw ≡ o
    → read_raw c l (if names_other pod o then some raw else none)
      ≡ unless_of pod (read_raw c l (some raw))
unfolding read_raw
read_raw-cleared c pod l raw none e = ground arith
read_raw-cleared c pod l raw (some t) e = ground arith

-- The cleared Lease differs from l in its annotations alone.
read_lookup :
    (c : Codec) (pod : Str) (l : Lease) (o : Option Str)
    → lookup availability_annotation l.annotations ≡ o
    → read_raw c (cleared c pod l) (lookup availability_annotation (cleared c pod l).annotations)
      ≡ unless_of pod (read_raw c l o)
unfolding read_raw cleared
read_lookup c pod l none e = rw (lookup-cleared c pod l.annotations none e) refl
read_lookup c pod l (some raw) e =
    rw (lookup-cleared c pod l.annotations (some raw) e)
      (read_raw-cleared c pod l raw (c.unmarshal raw) refl)

-- What Clear does to the routing: nothing, unless traffic went to the pod that clears, which then
-- takes no more.
pub evaluate-cleared :
    (c : Codec) (now : ℕ) (pod : Str) (l : Lease)
    → evaluate c now (cleared c pod l)
      ≡ elim (evaluate c now l) [ none ↦ none | some t ↦ if t.pod == pod then none else some t ]
unfolding cleared expired
evaluate-cleared c now pod l =
    rw (evaluate-read_raw c now (cleared c pod l), evaluate-read_raw c now l)
      (elim (Bool-cases (is_empty (holder_of l) || ended l.renewed l.seconds now)) [
        | inl shut ↦ rw shut refl
        | inr live ↦
            rw live (read_lookup c pod l (lookup availability_annotation l.annotations) refl)
      ])
