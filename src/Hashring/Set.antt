-- ===== src/Hashring/Set.antt =====
-- New keeps the members that are named, once each and in order, so the ring is that of a set.
use clusterplex.Prelude.{
  ℕ, zero, suc, ◌+◌, ◌≢◌, is_empty, ◌≡◌, refl, ap, ◌∙◌, Bool, true, false, not, ◌&&◌, ◌||◌, List,
  [], ◌∷◌, ◌++◌, arith, Eq, ◌==◌, ==_iff, Str, str_eq, Bool-cases, inl, inr, keep_if,
}
use clusterplex.Sorted.{
  contains, contains-append, contains-sort, contains-keep_if, sort-IsAscending, keep_if-IsAscending,
  IsDistinct, IsAscending, SameMembers, ascending_eq,
}
use clusterplex.Sorted.Orders.{str_order}
use clusterplex.Hashring.{Ring, replicas, collect, place, place_from, place_all, kept_of, new_ring}

module _ {A : Type 0} ⦃e : Eq A⦄ where
  pub append-IsDistinct :
      (xs : List A) (b : A) → contains xs b ≡ false → IsDistinct xs → IsDistinct (xs ++ b ∷ [])
  unfolding contains
  append-IsDistinct [] b n h = (refl, tt)
  append-IsDistinct (x ∷ xs) b n h =
      ground (arith, e.beq_iff x b, e.beq_iff b x, contains-append xs b x, append-IsDistinct xs b)

contains-collect :
    (kept ms : List Str) (a : Str)
    → contains (collect kept ms) a ≡ contains kept a || (contains ms a && not (a == []))
unfolding contains collect
contains-collect kept [] a = ground arith
contains-collect kept (m ∷ ms) a = elim (Bool-cases (m == a)) [
  | inl hit ↦ ground (
    arith,
    ap (contains kept) ((==_iff m a).0 hit),
    (==_iff m a).0 hit,
    contains-append kept m a,
    contains-collect kept ms a,
    contains-collect (kept ++ m ∷ []) ms a,
  )
  | inr miss ↦ ground (
    arith,
    contains-append kept m a,
    contains-collect kept ms a,
    contains-collect (kept ++ m ∷ []) ms a,
  )
]

step-IsDistinct :
    (kept : List Str) (m : Str) (b : Bool)
    → (b || contains kept m) ≡ false
    → IsDistinct kept
    → IsDistinct (kept ++ m ∷ [])
step-IsDistinct kept m b n h = append-IsDistinct kept m (ground arith) h

collect-IsDistinct : (kept ms : List Str) → IsDistinct kept → IsDistinct (collect kept ms)
unfolding collect
collect-IsDistinct kept [] h = h
collect-IsDistinct kept (m ∷ ms) h = elim (Bool-cases (m == [] || contains kept m)) [
  | inl skip ↦ rw skip (collect-IsDistinct kept ms h)
  | inr take ↦
      rw take (collect-IsDistinct (kept ++ m ∷ []) ms (step-IsDistinct kept m (m == []) take h))
]

pub kept_of-IsAscending : (ms : List Str) → IsAscending str_order (kept_of ms)
unfolding kept_of
kept_of-IsAscending ms = sort-IsAscending str_order (collect [] ms) (collect-IsDistinct [] ms tt)

pub contains-kept_of :
    (ms : List Str) (a : Str) → contains (kept_of ms) a ≡ contains ms a && not (a == [])
unfolding kept_of contains
contains-kept_of ms a = contains-sort str_order a (collect [] ms) ∙ contains-collect [] ms a

kept_of_same : (ms ns : List Str) → SameMembers ms ns → kept_of ms ≡ kept_of ns
kept_of_same ms ns h =
    ascending_eq str_order (kept_of ms) (kept_of ns) (kept_of-IsAscending ms)
      (kept_of-IsAscending ns)
      λ a. ground (arith, contains-kept_of ms a, contains-kept_of ns a, h a)

-- The ring does not depend on the order in which members are given, nor on how often one is.
pub new_ring_same : (ms ns : List Str) → SameMembers ms ns → new_ring ms ≡ new_ring ns
unfolding new_ring
new_ring_same ms ns h = rw (kept_of_same ms ns h)

-- Without one member, the others are kept as they were.
pub kept_of_without :
    (ms : List Str) (m : Str)
    → kept_of (keep_if (λ x. not (x == m)) ms) ≡ keep_if (λ x. not (x == m)) (kept_of ms)
kept_of_without ms m =
    let others : Str → Bool = λ x. not (x == m) in
    ascending_eq str_order (kept_of (keep_if others ms)) (keep_if others (kept_of ms))
      (kept_of-IsAscending (keep_if others ms))
      (keep_if-IsAscending str_order others (kept_of ms) (kept_of-IsAscending ms))
      λ a. ground (
        arith,
        contains-kept_of (keep_if others ms) a,
        contains-keep_if others ms a,
        contains-keep_if others (kept_of ms) a,
        contains-kept_of ms a,
      )

members-place_from : (n i : ℕ) (r : Ring) (m : Str) → (place_from n i r m).members ≡ r.members
unfolding place_from place
members-place_from zero i r m = refl
members-place_from (suc n) i r m = ground (arith, members-place_from n (i + 1) (place r m i) m)

members-place_all : (r : Ring) (ms : List Str) → (place_all r ms).members ≡ r.members
unfolding place_all
members-place_all r [] = refl
members-place_all r (m ∷ ms) =
    members-place_all (place_from replicas 0 r m) ms ∙ members-place_from replicas 0 r m

pub members-new_ring : (ms : List Str) → (new_ring ms).members ≡ kept_of ms
unfolding new_ring
members-new_ring ms =
    members-place_all (record { members = kept_of ms; points = []; owner = [] }) (kept_of ms)

nonempty : (xs : List Str) (a : Str) → contains xs a ≡ true → is_empty xs ≡ false
unfolding contains
nonempty [] a h = cc
nonempty (x ∷ xs) a h = refl

-- A ring over a named member is not empty.
pub members_named :
    (ms : List Str) (a : Str)
    → contains ms a ≡ true
    → a ≢ []
    → is_empty (new_ring ms).members ≡ false
members_named ms a h named =
    rw (members-new_ring ms)
      (nonempty (kept_of ms) a (ground (arith, contains-kept_of ms a, (==_iff a []).0)))
