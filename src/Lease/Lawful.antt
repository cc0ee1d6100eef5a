-- ===== src/Lease/Lawful.antt =====
-- What a call writes over a Lease that it read is lawful.
use clusterplex.Prelude.{
  ℕ, ◌≤◌, ◌≡◌, refl, Bool, true, false, not, ◌&&◌, Option, none, some, arith, if◌then◌else◌, ◌==◌,
  ==_iff, Str, str_eq, is_empty, ◌⊎◌, inl, inr, Bool-cases, subst, ℤ,
}
use clusterplex.Dict.{Dict}
use clusterplex.Lease.{Lease, lease_end, end_of, holder_of, or_empty_str}
use clusterplex.Lease.Elector
use clusterplex.Lease.Elector.{
  Elector, acquire_plan, renew_plan, release_plan, held_by, free, ended,
}
use clusterplex.Lease.Blocks
use clusterplex.Lease.Blocks.{annotate_plan, acquire_found, lapsed}
use clusterplex.Lease.Route.{publish_change, clear_change}
use clusterplex.Lease.Client.{
  Client, Good, annotated, creates, identity, writes, keeps, takes, frees, acquires, renews,
  releases, acquires_block, annotates_block, publishes, clears,
}

same_lease : {a b : Lease} → some a ≡ some b → a ≡ b
same_lease e = cc

over_ended : (r s : Option ℕ) (now : ℕ) → ended r s now ≡ true → end_of r s ≤ now
over_ended none s now h = omega arith
over_ended (some r) none now h = omega arith
over_ended (some r) (some s) now h = ground arith

over_lapsed : (r s : Option ℕ) (now : ℕ) → lapsed r s now ≡ true → end_of r s ≤ now
over_lapsed none s now h = omega arith
over_lapsed (some r) none now h = omega arith
over_lapsed (some r) (some s) now h = ground arith

held_by-holder :
    (x : Lease) (p : Str) → held_by x p ≡ true → (holder_of x ≡ p) × (x.holder ≡ some p)
unfolding held_by
held_by-holder x p h = named x.holder h
  where
    named :
        (o : Option Str)
        → (not (is_empty (or_empty_str o)) && or_empty_str o == p) ≡ true
        → (or_empty_str o ≡ p) × (o ≡ some p)
    named none e = cc
    named (some w) e = (ground (arith, (==_iff w p).0), ground (arith, (==_iff w p).0))

-- A written Lease that is good, and the one that a call sends.
sent-Good :
    {p : Str} {now : ℕ} {x w x' : Lease} → Good p now x w → some w ≡ some x' → Good p now x x'
sent-Good {p} {now} {x} g e = subst (Good p now x) (same_lease e) g

abbrev MayTake : Str → ℕ → Lease → Type 0
MayTake p now x = (is_empty (holder_of x) ≡ true) ⊎ ((holder_of x ≡ p) ⊎ (lease_end x ≤ now))

elector-MayTake :
    (p : Str) (now : ℕ) (x : Lease)
    → (not (held_by x p) && not (free x) && not (Elector.expired x now)) ≡ false
    → MayTake p now x
unfolding free Elector.expired
elector-MayTake p now x h = elim (Bool-cases (held_by x p)) [
  | inl own ↦ inr (inl (held_by-holder x p own).0)
  | inr other ↦ elim (Bool-cases (is_empty (holder_of x))) [
    | inl none_there ↦ inl none_there
    | inr some_there ↦ inr (inr (over_ended x.renewed x.seconds now (ground arith)))
  ]
]

block-MayTake :
    (p : Str) (now : ℕ) (x : Lease)
    → (not (is_empty (holder_of x)) && not (holder_of x == p) && not (Blocks.expired x now)) ≡ false
    → MayTake p now x
unfolding Blocks.expired
block-MayTake p now x h = elim (Bool-cases (is_empty (holder_of x))) [
  | inl none_there ↦ inl none_there
  | inr some_there ↦ elim (Bool-cases (holder_of x == p)) [
    | inl own ↦ inr (inl ((==_iff (holder_of x) p).0 own))
    | inr other ↦ inr (inr (over_lapsed x.renewed x.seconds now (ground arith)))
  ]
]

acquires-Good :
    (e : Elector) (now : ℕ) (x x' : Lease)
    → writes (acquires e) now x ≡ some x'
    → Good e.identity now x x'
unfolding writes acquire_plan
acquires-Good e now x x' h =
    elim (Bool-cases (not (held_by x e.identity) && not (free x) && not (Elector.expired x now))) [
      | inl refused ↦ absurd (ground arith)
      | inr may ↦ sent-Good (takes (elector-MayTake e.identity now x may) refl, refl) (rw may at h)
    ]

renews-Good :
    (e : Elector) (now : ℕ) (x x' : Lease)
    → writes (renews e) now x ≡ some x'
    → Good e.identity now x x'
unfolding writes renew_plan
renews-Good e now x x' h = elim (Bool-cases (held_by x e.identity)) [
  | inl own ↦
      let (is_own, named) = held_by-holder x e.identity own in
      sent-Good (takes (inr (inl is_own)) named, refl) (rw own at h)
  | inr other ↦ absurd (ground arith)
]

releases-Good :
    (e : Elector) (now : ℕ) (x x' : Lease)
    → writes (releases e) now x ≡ some x'
    → Good e.identity now x x'
unfolding writes release_plan
releases-Good e now x x' h = elim (Bool-cases (held_by x e.identity)) [
  | inl own ↦ sent-Good (frees (held_by-holder x e.identity own).0 refl, refl) (rw own at h)
  | inr other ↦ absurd (ground arith)
]

acquires_block-Good :
    (d : ℤ) (p : Str) (labels : Dict Str Str) (now : ℕ) (x x' : Lease)
    → writes (acquires_block d p labels) now x ≡ some x'
    → Good p now x x'
unfolding writes Blocks.acquire_plan acquire_found
acquires_block-Good d p labels now x x' h =
    elim (Bool-cases
      (not (is_empty (holder_of x)) && not (holder_of x == p) && not (Blocks.expired x now))) [
        | inl refused ↦ absurd (ground arith)
        | inr may ↦
            sent-Good (takes (block-MayTake p now x may) refl, version_kept (holder_of x == p))
              (rw may at h)
      ]
  where
    version_kept : (b : Bool) → (if b then x else Blocks.hand_over now x).version ≡ x.version
    version_kept true = refl
    version_kept false = refl

annotates_block-Good :
    (p : Str) (annotations : Dict Str Str) (now : ℕ) (x x' : Lease)
    → writes (annotates_block p annotations) now x ≡ some x'
    → Good p now x x'
unfolding writes annotate_plan
annotates_block-Good p annotations now x x' h = elim (Bool-cases (Blocks.is_holder x.holder p)) [
  | inl own ↦ sent-Good (keeps refl refl, refl) (rw own at h)
  | inr other ↦ absurd (ground arith)
]

annotated-Good :
    (p : Str) (now : ℕ) (x x' : Lease) (o : Option (Dict Str Str))
    → annotated x o ≡ some x'
    → Good p now x x'
annotated-Good p now x x' none h = absurd (ground arith)
annotated-Good p now x x' (some m) h = sent-Good (keeps refl refl, refl) h

-- Whatever a call writes over a Lease that it read is lawful, and carries the version it read.
pub client-Good :
    (c : Client) (now : ℕ) (x x' : Lease) → writes c now x ≡ some x' → Good (identity c) now x x'
unfolding identity
client-Good (acquires e) now x x' h = acquires-Good e now x x' h
client-Good (renews e) now x x' h = renews-Good e now x x' h
client-Good (releases e) now x x' h = releases-Good e now x x' h
client-Good (acquires_block d p labels) now x x' h = acquires_block-Good d p labels now x x' h
client-Good (annotates_block p annotations) now x x' h =
    annotates_block-Good p annotations now x x' h
client-Good (publishes c t) now x x' h =
    annotated-Good t.pod now x x' (publish_change c t x.annotations) (unfold writes in h)
client-Good (clears c pod) now x x' h =
    annotated-Good pod now x x' (clear_change c pod x.annotations) (unfold writes in h)

-- A Lease that a call creates names the caller.
pub client-creates :
    (c : Client) (now : ℕ) (x' : Lease) → creates c now ≡ some x' → x'.holder ≡ some (identity c)
unfolding creates identity acquire_plan renew_plan release_plan Blocks.acquire_plan annotate_plan
client-creates (acquires e) now x' h = ground arith
client-creates (renews e) now x' h = ground arith
client-creates (releases e) now x' h = ground arith
client-creates (acquires_block d p labels) now x' h = ground arith
client-creates (annotates_block p annotations) now x' h = ground arith
client-creates (publishes c t) now x' h = ground arith
client-creates (clears c pod) now x' h = ground arith
