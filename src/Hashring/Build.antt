-- ===== src/Hashring/Build.antt =====
-- What New's loops leave in the ring: each point belongs to the first member, in order, that has
-- a replica there.
use clusterplex.Prelude.{
  ℕ, zero, suc, ◌+◌, ◌≡◌, refl, ap, ◌∙◌, Bool, false, ◌||◌, Option, none, some, List, [], ◌∷◌, ◌++◌,
  arith, if◌then◌else◌, ◌==◌, ==_iff, Str, str, str_eq, nat_eq, Bool-cases, inl, inr,
}
use clusterplex.Dict.{Dict, lookup, has, insert, lookup-insert, has-insert, is_some, lookup-has}
use clusterplex.Sorted.{contains, contains-sort, sort-IsAscending, IsDistinct, IsAscending}
use clusterplex.Sorted.Orders.{nat_order}
use clusterplex.Hashring.{
  Ring, replicas, point, itoa, place, place_from, place_all, kept_of, new_ring,
}
use clusterplex.Sorted.{contains-append}
use clusterplex.Hashring.Set.{append-IsDistinct}

abbrev pub replica_point : Str → ℕ → ℕ
replica_point m i = point (m ++ str "#" ++ itoa i)

-- Member m has a replica at p, among n replicas from i on.
unfoldable pub claims : ℕ → ℕ → Str → ℕ → Bool
claims zero i m p = false
claims (suc n) i m p = replica_point m i == p || claims n (i + 1) m p

-- The first of the members with a replica at p.
unfoldable pub first_owner : List Str → ℕ → Option Str
first_owner [] p = none
first_owner (m ∷ ms) p = if claims replicas 0 m p then some m else first_owner ms p

-- The two fields hold the same points, once each.
pub record IsRing (r : Ring) : Type 0 where
  pub same : (p : ℕ) → contains r.points p ≡ has p r.owner
  pub once : IsDistinct r.points

-- A point that is taken keeps its owner.
lookup-claim :
    (o : Dict ℕ Str) (m : Str) (q p : ℕ)
    → lookup p (if has q o then o else insert q m o)
      ≡ (if has p o then lookup p o else if q == p then some m else none)
lookup-claim o m q p = elim (Bool-cases (q == p)) [
  | inl hit ↦
      ground (arith, ap (λ r. has r o) ((==_iff q p).0 hit), lookup-insert q p m o, lookup-has p o)
  | inr miss ↦ ground (arith, lookup-insert q p m o, lookup-has p o)
]

has-claim :
    (o : Dict ℕ Str) (m : Str) (q p : ℕ)
    → has p (if has q o then o else insert q m o) ≡ has p o || q == p
has-claim o m q p = elim (Bool-cases (q == p)) [
  | inl hit ↦ ground (arith, ap (λ r. has r o) ((==_iff q p).0 hit), has-insert q p m o)
  | inr miss ↦ ground (arith, has-insert q p m o)
]

lookup-place :
    (r : Ring) (m : Str) (i p : ℕ)
    → lookup p (place r m i).owner ≡ (
        if has p r.owner then lookup p r.owner else if replica_point m i == p then some m else none)
unfolding place
lookup-place r m i p = ground (arith, lookup-claim r.owner m (replica_point m i) p)

has-place :
    (r : Ring) (m : Str) (i p : ℕ)
    → has p (place r m i).owner ≡ has p r.owner || replica_point m i == p
unfolding place
has-place r m i p = ground (arith, has-claim r.owner m (replica_point m i) p)

place-IsRing : (r : Ring) (m : Str) (i : ℕ) → IsRing r → IsRing (place r m i)
unfolding place
place-IsRing r m i h = record {
  same = λ p. ground (
    arith,
    h.same p,
    has-claim r.owner m (replica_point m i) p,
    contains-append r.points (replica_point m i) p,
  );
  once =
      ground
        (arith, h.same (replica_point m i), h.once, append-IsDistinct r.points (replica_point m i));
}

has-place_from :
    (n i : ℕ) (r : Ring) (m : Str) (p : ℕ)
    → has p (place_from n i r m).owner ≡ has p r.owner || claims n i m p
unfolding place_from claims
has-place_from zero i r m p = ground arith
has-place_from (suc n) i r m p =
    ground (arith, has-place_from n (i + 1) (place r m i) m p, has-place r m i p)

lookup-place_from :
    (n i : ℕ) (r : Ring) (m : Str) (p : ℕ)
    → lookup p (place_from n i r m).owner
      ≡ (if has p r.owner then lookup p r.owner else if claims n i m p then some m else none)
unfolding place_from claims
lookup-place_from zero i r m p = ground (arith, lookup-has p r.owner)
lookup-place_from (suc n) i r m p =
    ground (
      arith,
      lookup-place_from n (i + 1) (place r m i) m p,
      lookup-place r m i p,
      has-place r m i p,
    )

place_from-IsRing : (n i : ℕ) (r : Ring) (m : Str) → IsRing r → IsRing (place_from n i r m)
unfolding place_from
place_from-IsRing zero i r m h = h
place_from-IsRing (suc n) i r m h =
    place_from-IsRing n (i + 1) (place r m i) m (place-IsRing r m i h)

lookup-place_all :
    (r : Ring) (ms : List Str) (p : ℕ)
    → lookup p (place_all r ms).owner
      ≡ (if has p r.owner then lookup p r.owner else first_owner ms p)
unfolding place_all first_owner
lookup-place_all r [] p = ground (arith, lookup-has p r.owner)
lookup-place_all r (m ∷ ms) p = ground (
  arith,
  lookup-place_all (place_from replicas 0 r m) ms p,
  lookup-place_from replicas 0 r m p,
  has-place_from replicas 0 r m p,
)

place_all-IsRing : (r : Ring) (ms : List Str) → IsRing r → IsRing (place_all r ms)
unfolding place_all
place_all-IsRing r [] h = h
place_all-IsRing r (m ∷ ms) h =
    place_all-IsRing (place_from replicas 0 r m) ms (place_from-IsRing replicas 0 r m h)

abbrev start : List Str → Ring
start ms = record { members = ms; points = []; owner = [] }

start-IsRing : (ms : List Str) → IsRing (start ms)
unfolding contains has
start-IsRing ms = record { same = λ p. refl; once = tt }

-- The owner of each point of the ring.
pub lookup-new_ring :
    (ms : List Str) (p : ℕ) → lookup p (new_ring ms).owner ≡ first_owner (kept_of ms) p
unfolding new_ring has
lookup-new_ring ms p = lookup-place_all (start (kept_of ms)) (kept_of ms) p

-- The points of the ring ascend, and are those that have an owner.
pub points-IsAscending : (ms : List Str) → IsAscending nat_order (new_ring ms).points
unfolding new_ring
points-IsAscending ms =
    sort-IsAscending nat_order (place_all (start (kept_of ms)) (kept_of ms)).points
      (place_all-IsRing (start (kept_of ms)) (kept_of ms) (start-IsRing (kept_of ms))).once

pub contains-points :
    (ms : List Str) (p : ℕ) → contains (new_ring ms).points p ≡ is_some (first_owner (kept_of ms) p)
unfolding new_ring
contains-points ms p =
    let r = place_all (start (kept_of ms)) (kept_of ms) in
    contains-sort nat_order p r.points
    ∙ (place_all-IsRing (start (kept_of ms)) (kept_of ms) (start-IsRing (kept_of ms))).same p
    ∙ lookup-has p r.owner
    ∙ ap is_some (unfold new_ring in lookup-new_ring ms p)
