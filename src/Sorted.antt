-- ===== src/Sorted.antt =====
-- Package slices' Sort and BinarySearch over a strict total order, and strictly ascending lists:
-- such a list is known by its members alone.
pub mod Orders
use Prim.Native.Nat.{compare, Ordering}
use clusterplex.Prelude.{
  ℕ, zero, suc, ◌<◌, ◌≡◌, refl, sym, ap, Bool, true, false, not, ◌&&◌, Option, none, some, List, [],
  ◌∷◌, ◌++◌, arith, if◌then◌else◌, Eq, ◌==◌, All, All-keep_if, keep_if, Bool-cases, inl, inr, ltb,
  Str, ◌⊎◌, subst, ◌||◌, nat_eq, str_eq, ==_refl, ◌∙◌,
}

pub record StrictOrder (A : Type 0) : Type 0 where
  pub lt : A → A → Bool
  pub irrefl : (a : A) → lt a a ≡ false
  pub trans : (a b c : A) → lt a b ≡ true → lt b c ≡ true → lt a c ≡ true
  pub total : (a b : A) → lt a b ≡ false → lt b a ≡ false → a ≡ b

module _ {A : Type 0} ⦃e : Eq A⦄ where
  -- slices.Contains
  unfoldable pub contains : List A → A → Bool
  contains [] a = false
  contains (x ∷ xs) a = x == a || contains xs a

  -- A list holds each of its values once.
  abbrev pub IsDistinct : List A → Type 0
  IsDistinct [] = Unit
  IsDistinct (x ∷ xs) = (contains xs x ≡ false) × IsDistinct xs

  abbrev pub SameMembers : List A → List A → Type 0
  SameMembers xs ys = (a : A) → contains xs a ≡ contains ys a

  pub contains-All : (P : A → Type 0) (xs : List A) (a : A) → All P xs → contains xs a ≡ true → P a
  unfolding contains
  contains-All P [] a h m = absurd (no_member m)
    where
      no_member : false ≡ true → ⊥
      no_member p = cc
  contains-All P (x ∷ xs) a h m = elim (Bool-cases (x == a)) [
    | inl hit ↦ subst P ((e.beq_iff x a).0 hit) h.0
    | inr miss ↦ contains-All P xs a h.1 (rw miss at m)
  ]

  pub contains-append :
      (xs : List A) (b a : A) → contains (xs ++ b ∷ []) a ≡ contains xs a || b == a
  unfolding contains
  contains-append [] b a = ground arith
  contains-append (x ∷ xs) b a = ground (arith, contains-append xs b a)

  pub contains-keep_if :
      (p : A → Bool) (xs : List A) (a : A) → contains (keep_if p xs) a ≡ contains xs a && p a
  unfolding contains
  contains-keep_if p [] a = refl
  contains-keep_if p (x ∷ xs) a = elim (Bool-cases (x == a)) [
    | inl hit ↦
        let same = (e.beq_iff x a).0 hit in ground (arith, ap p same, contains-keep_if p xs a)
    | inr miss ↦ ground (arith, contains-keep_if p xs a)
  ]

module _ {A : Type 0} (o : StrictOrder A) where
  sort_in : A → List A → List A
  sort_in a [] = a ∷ []
  sort_in a (x ∷ xs) = if o.lt x a then x ∷ sort_in a xs else a ∷ x ∷ xs

  -- slices.Sort, sort.Strings
  unfoldable pub sort : List A → List A
  unfolding sort_in
  sort [] = []
  sort (x ∷ xs) = sort_in x (sort xs)

  abbrev pub Above : A → List A → Type 0
  Above a = All (λ y. o.lt a y ≡ true)

  -- Every value stands below all that follow it.
  abbrev pub IsAscending : List A → Type 0
  IsAscending [] = Unit
  IsAscending (x ∷ xs) = Above x xs × IsAscending xs

  pub Above-trans : (a b : A) (xs : List A) → o.lt a b ≡ true → Above b xs → Above a xs
  Above-trans a b [] p h = tt
  Above-trans a b (x ∷ xs) p h = (o.trans a b x p h.0, Above-trans a b xs p h.1)

  keep_if-Above : (p : A → Bool) (a : A) (xs : List A) → Above a xs → Above a (keep_if p xs)
  keep_if-Above p a xs h = All-keep_if (λ y. o.lt a y ≡ true) p xs h

  pub keep_if-IsAscending :
      (p : A → Bool) (xs : List A) → IsAscending xs → IsAscending (keep_if p xs)
  keep_if-IsAscending p [] h = tt
  keep_if-IsAscending p (x ∷ xs) h =
      ground (arith, keep_if-Above p x xs h.0, keep_if-IsAscending p xs h.1)

module _ {A : Type 0} ⦃e : Eq A⦄ (o : StrictOrder A) where
  contains-sort_in :
      (a b : A) (xs : List A) → contains (sort_in o b xs) a ≡ (b == a || contains xs a)
  unfolding sort_in contains
  contains-sort_in a b [] = refl
  contains-sort_in a b (x ∷ xs) = ground (arith, contains-sort_in a b xs)

  pub contains-sort : (a : A) (xs : List A) → contains (sort o xs) a ≡ contains xs a
  unfolding sort contains
  contains-sort a [] = refl
  contains-sort a (x ∷ xs) = ground (arith, contains-sort_in a x (sort o xs), contains-sort a xs)

  Above-sort_in :
      (a b : A) (xs : List A) → o.lt a b ≡ true → Above o a xs → Above o a (sort_in o b xs)
  unfolding sort_in
  Above-sort_in a b [] p h = (p, tt)
  Above-sort_in a b (x ∷ xs) p h = ground (arith, Above-sort_in a b xs p h.1)

  sort_in-IsAscending :
      (b : A) (xs : List A)
      → contains xs b ≡ false
      → IsAscending o xs
      → IsAscending o (sort_in o b xs)
  unfolding sort_in contains
  sort_in-IsAscending b [] n h = (tt, tt)
  sort_in-IsAscending b (x ∷ xs) n h = ground (
    arith,
    e.beq_iff x b,
    o.total x b,
    Above-sort_in x b xs,
    Above-trans o b x xs,
    sort_in-IsAscending b xs,
  )

  pub sort-IsAscending : (xs : List A) → IsDistinct xs → IsAscending o (sort o xs)
  unfolding sort
  sort-IsAscending [] h = tt
  sort-IsAscending (x ∷ xs) h =
      sort_in-IsAscending x (sort o xs) (rw (contains-sort x xs) h.0) (sort-IsAscending xs h.1)

  Above-absent : (a : A) (xs : List A) → Above o a xs → contains xs a ≡ false
  Above-absent a xs h = elim (Bool-cases (contains xs a)) [
    | inl m ↦ cc (o.irrefl a, contains-All (λ y. o.lt a y ≡ true) xs a h m)
    | inr n ↦ n
  ]

  same_head :
      (x y : A) (xs ys : List A)
      → Above o x xs
      → Above o y ys
      → contains (y ∷ ys) x ≡ true
      → contains (x ∷ xs) y ≡ true
      → x ≡ y
  unfolding contains
  same_head x y xs ys hx hy mx my = elim (Bool-cases (y == x)) [
    | inl eq ↦ sym ((e.beq_iff y x).0 eq)
    | inr ne ↦
        let below : o.lt y x ≡ true = contains-All (λ z. o.lt y z ≡ true) ys x hy (rw ne at mx) in
        elim (Bool-cases (x == y)) [
          | inl eq ↦ (e.beq_iff x y).0 eq
          | inr ne' ↦
              let above : o.lt x y ≡ true =
                contains-All (λ z. o.lt x z ≡ true) xs y hx (rw ne' at my) in
              cc (o.trans x y x above below, o.irrefl x)
        ]
  ]

  same_tail :
      (x : A) (xs ys : List A)
      → Above o x xs
      → Above o x ys
      → SameMembers (x ∷ xs) (x ∷ ys)
      → SameMembers xs ys
  unfolding contains
  same_tail x xs ys hx hy h a = elim (Bool-cases (x == a)) [
    | inl eq ↦
        let same = (e.beq_iff x a).0 eq in
        subst (λ b. contains xs b ≡ contains ys b) same
          (Above-absent x xs hx ∙ sym (Above-absent x ys hy))
    | inr ne ↦ ground (arith, h a)
  ]

  contains_head : (x : A) (xs : List A) → contains (x ∷ xs) x ≡ true
  unfolding contains
  contains_head x xs = rw (==_refl x)

  -- Ascending lists with the same members are equal.
  pub ascending_eq :
      (xs ys : List A) → IsAscending o xs → IsAscending o ys → SameMembers xs ys → xs ≡ ys
  unfolding contains
  ascending_eq [] [] hx hy h = refl
  ascending_eq [] (y ∷ ys) hx hy h = cc (h y, ==_refl y)
  ascending_eq (x ∷ xs) [] hx hy h = cc (h x, ==_refl x)
  ascending_eq (x ∷ xs) (y ∷ ys) hx hy h =
      let found : contains (y ∷ ys) x ≡ true = sym (h x) ∙ contains_head x xs in
      let met : contains (x ∷ xs) y ≡ true = h y ∙ contains_head y ys in
      let eq : x ≡ y = same_head x y xs ys hx.0 hy.0 found met in
      let above = subst (λ z. Above o z ys) (sym eq) hy.0 in
      let same = subst (λ z. SameMembers (x ∷ xs) (z ∷ ys)) (sym eq) h in
      let tails = ascending_eq xs ys hx.1 hy.1 (same_tail x xs ys hx.0 above same) in cc (eq, tails)
