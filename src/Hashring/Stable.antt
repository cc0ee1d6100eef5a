-- ===== src/Hashring/Stable.antt =====
-- A pod that leaves moves only the keys it owned, and every key of a ring with members has an
-- owner among them.
use clusterplex.Prelude.{
  ℕ, suc, ◌≡◌, ◌≢◌, refl, sym, ap, ◌∙◌, Bool, true, false, not, ◌&&◌, Option, none, some, List, [],
  ◌∷◌, arith, ◌==◌, ==_iff, ==_refl, Str, str_eq, nat_eq, Bool-cases, inl, inr, keep_if,
  Option-cases,
}
use clusterplex.Dict.{is_some}
use clusterplex.Sorted.{contains, contains-keep_if, keep_if-IsAscending, ascending_eq}
use clusterplex.Sorted.Orders.{nat_order}
use clusterplex.Hashring.{
  replicas, point, kept_of, new_ring, search_from, next_point, locate, or_empty,
}
use clusterplex.Hashring.Set.{kept_of_without, contains-kept_of}
use clusterplex.Hashring.Build.{
  claims, first_owner, replica_point, lookup-new_ring, points-IsAscending, contains-points,
}

-- The members but m.
abbrev pub without : Str → List Str → List Str
without m ms = keep_if (λ x. not (x == m)) ms

abbrev wrap : List ℕ → Option ℕ → Option ℕ
wrap [] o = o
wrap (x ∷ xs) none = some x
wrap (x ∷ xs) (some r) = some r

next_point-wrap : (p : ℕ) (qs : List ℕ) → next_point p qs ≡ wrap qs (search_from p qs)
unfolding next_point search_from
next_point-wrap p [] = refl
next_point-wrap p (q ∷ qs) = ground arith

search_from-contains : (p r : ℕ) (qs : List ℕ) → search_from p qs ≡ some r → contains qs r ≡ true
unfolding search_from contains
search_from-contains p r [] h = cc
search_from-contains p r (q ∷ qs) h = ground (arith, search_from-contains p r qs)

wrap-contains :
    (r : ℕ) (qs : List ℕ) (o : Option ℕ)
    → ((t : ℕ) → o ≡ some t → contains qs t ≡ true)
    → wrap qs o ≡ some r
    → contains qs r ≡ true
unfolding contains
wrap-contains r [] o found h = found r h
wrap-contains r (q ∷ qs) none found h = ground arith
wrap-contains r (q ∷ qs) (some t) found h = found r h

next_point-contains : (p r : ℕ) (qs : List ℕ) → next_point p qs ≡ some r → contains qs r ≡ true
next_point-contains p r qs h =
    wrap-contains r qs (search_from p qs) (λ t. search_from-contains p t qs)
      (sym (next_point-wrap p qs) ∙ h)

module _ (keep : ℕ → Bool) where
  search_from-keep_if :
      (p r : ℕ) (qs : List ℕ)
      → search_from p qs ≡ some r
      → keep r ≡ true
      → search_from p (keep_if keep qs) ≡ some r
  unfolding search_from
  search_from-keep_if p r [] h k = cc
  search_from-keep_if p r (q ∷ qs) h k = ground (arith, search_from-keep_if p r qs)

  search_from-keep_if-none :
      (p : ℕ) (qs : List ℕ) → search_from p qs ≡ none → search_from p (keep_if keep qs) ≡ none
  unfolding search_from
  search_from-keep_if-none p [] h = refl
  search_from-keep_if-none p (q ∷ qs) h = ground (arith, search_from-keep_if-none p qs)

  wrap-keep_if :
      (p r : ℕ) (qs : List ℕ) (o : Option ℕ)
      → search_from p qs ≡ o
      → wrap qs o ≡ some r
      → keep r ≡ true
      → wrap (keep_if keep qs) (search_from p (keep_if keep qs)) ≡ some r
  unfolding search_from
  wrap-keep_if p r [] none e h k = cc
  wrap-keep_if p r [] (some t) e h k = cc
  wrap-keep_if p r (q ∷ qs) none e h k = ground (arith, search_from-keep_if-none p (q ∷ qs) e)
  wrap-keep_if p r (q ∷ qs) (some t) e h k =
      some_wins (keep_if keep (q ∷ qs)) (search_from-keep_if p r (q ∷ qs) (e ∙ h) k)
    where
      some_wins : (ts : List ℕ) {o : Option ℕ} → o ≡ some r → wrap ts o ≡ some r
      some_wins [] eq = eq
      some_wins (u ∷ us) eq = rw eq

  -- Points that go do not change where a search ends, if its end stays.
  next_point-keep_if :
      (p r : ℕ) (qs : List ℕ)
      → next_point p qs ≡ some r
      → keep r ≡ true
      → next_point p (keep_if keep qs) ≡ some r
  next_point-keep_if p r qs h k =
      next_point-wrap p (keep_if keep qs)
      ∙ wrap-keep_if p r qs (search_from p qs) refl (sym (next_point-wrap p qs) ∙ h) k

  next_point-keep_if-none :
      (p : ℕ) (qs : List ℕ) → next_point p qs ≡ none → next_point p (keep_if keep qs) ≡ none
  unfolding next_point
  next_point-keep_if-none p [] h = refl
  next_point-keep_if-none p (q ∷ qs) h = ground arith

module _ (m : Str) where
  first_owner-without :
      (ms : List Str) (p : ℕ) (a : Str)
      → first_owner ms p ≡ some a
      → (a == m) ≡ false
      → first_owner (without m ms) p ≡ some a
  unfolding first_owner
  first_owner-without [] p a h n = cc
  first_owner-without (x ∷ xs) p a h n = ground (arith, first_owner-without xs p a)

  first_owner_less :
      (ms : List Str) (p : ℕ)
      → is_some (first_owner (without m ms) p) ≡ true
      → is_some (first_owner ms p) ≡ true
  unfolding first_owner
  first_owner_less [] p h = cc
  first_owner_less (x ∷ xs) p h = ground (arith, first_owner_less xs p)

  -- The points that stay when m leaves.
  stays : List Str → ℕ → Bool
  stays ms p = is_some (first_owner (without m (kept_of ms)) p)

  points-without :
      (ms : List Str) → (new_ring (without m ms)).points ≡ keep_if (stays ms) (new_ring ms).points
  unfolding stays
  points-without ms =
      ascending_eq nat_order (new_ring (without m ms)).points
        (keep_if (stays ms) (new_ring ms).points) (points-IsAscending (without m ms))
        (keep_if-IsAscending nat_order (stays ms) (new_ring ms).points (points-IsAscending ms))
        λ p. ground (
          arith,
          contains-points (without m ms) p,
          ap (λ ks. is_some (first_owner ks p)) (kept_of_without ms m),
          contains-keep_if (stays ms) (new_ring ms).points p,
          contains-points ms p,
          first_owner_less (kept_of ms) p,
        )

-- Where a key goes, by the search's end.
locate_at :
    (ms : List Str) (key : Str) (p : ℕ)
    → next_point (point key) (new_ring ms).points ≡ some p
    → locate (new_ring ms) key ≡ or_empty (first_owner (kept_of ms) p)
unfolding locate
locate_at ms key p h = rw (h, locate) (ap or_empty (lookup-new_ring ms p))

locate-none :
    (ms : List Str) (key : Str)
    → next_point (point key) (new_ring ms).points ≡ none
    → locate (new_ring ms) key ≡ []
unfolding locate
locate-none ms key h = rw (h, locate)

-- The end of a search has an owner.
owned :
    (ms : List Str) (p q : ℕ)
    → next_point q (new_ring ms).points ≡ some p
    → is_some (first_owner (kept_of ms) p) ≡ true
owned ms p q h = sym (contains-points ms p) ∙ next_point-contains q p (new_ring ms).points h

owned_at :
    (ms : List Str) (p q : ℕ)
    → next_point q (new_ring ms).points ≡ some p
    → (a : Str) × (first_owner (kept_of ms) p ≡ some a)
owned_at ms p q h = value (first_owner (kept_of ms) p) (owned ms p q h)
  where
    value : (o : Option Str) → is_some o ≡ true → (a : Str) × (o ≡ some a)
    value none e = cc
    value (some a) e = (a, refl)

module _ (ms : List Str) (m key : Str) where
  -- What the ring without m finds, from the end p of the search on the whole ring.
  moved_at :
      (p : ℕ) (a : Str)
      → next_point (point key) (new_ring ms).points ≡ some p
      → first_owner (kept_of ms) p ≡ some a
      → locate (new_ring ms) key ≢ m
      → locate (new_ring (without m ms)) key ≡ locate (new_ring ms) key
  unfolding stays
  moved_at p a hp ha other =
      let here : locate (new_ring ms) key ≡ a = locate_at ms key p hp ∙ ap or_empty ha in
      let ne : (a == m) ≡ false = not_same (λ e. other (here ∙ e)) in
      let still = first_owner-without m (kept_of ms) p a ha ne in
      let end =
        next_point-keep_if (stays m ms) (point key) p (new_ring ms).points hp (ap is_some still) in
      locate_at (without m ms) key p (rw (points-without m ms) end)
      ∙ ap (λ ks. or_empty (first_owner ks p)) (kept_of_without ms m)
      ∙ ap or_empty still
      ∙ sym here
    where
      not_same : a ≢ m → (a == m) ≡ false
      not_same n = elim (Bool-cases (a == m)) [ inl e ↦ absurd (n ((==_iff a m).0 e)) | inr e ↦ e ]

  -- When a member leaves, every key that it did not own stays where it was.
  pub locate-without :
      locate (new_ring ms) key ≢ m → locate (new_ring (without m ms)) key ≡ locate (new_ring ms) key
  locate-without other = elim (Option-cases (next_point (point key) (new_ring ms).points)) [
    | inl e ↦
        locate-none (without m ms) key (
          rw (points-without m ms)
            (next_point-keep_if-none (stays m ms) (point key) (new_ring ms).points e))
        ∙ sym (locate-none ms key e)
    | inr (p, e) ↦ let (a, ha) = owned_at ms p (point key) e in moved_at p a e ha other
  ]

claims_first : (n i : ℕ) (m : Str) → claims (suc n) i m (replica_point m i) ≡ true
unfolding claims
claims_first n i m = rw (==_refl (replica_point m i))

-- The first owner is one of the members.
first_owner-contains :
    (ms : List Str) (p : ℕ) (a : Str) → first_owner ms p ≡ some a → contains ms a ≡ true
unfolding first_owner contains
first_owner-contains [] p a h = cc
first_owner-contains (x ∷ xs) p a h = ground (arith, ==_refl x, first_owner-contains xs p a)

-- A member's first point has an owner.
first_owner_some :
    (ms : List Str) (a : Str)
    → contains ms a ≡ true
    → is_some (first_owner ms (replica_point a 0)) ≡ true
unfolding first_owner contains
first_owner_some [] a h = cc
first_owner_some (x ∷ xs) a h = elim (Bool-cases (x == a)) [
  | inl hit ↦
      let claimed : claims replicas 0 x (replica_point a 0) ≡ true =
        ap (λ y. claims replicas 0 y (replica_point a 0)) ((==_iff x a).0 hit)
        ∙ claims_first 159 0 a in
      rw claimed
  | inr miss ↦ ground (arith, first_owner_some xs a)
]

some_end : (p r : ℕ) (qs : List ℕ) → contains qs r ≡ true → next_point p qs ≢ none
unfolding next_point contains
some_end p r [] h e = cc
some_end p r (q ∷ qs) h e = ground arith

-- Over any members, a key goes to a named one of them as soon as one is named.
pub locate-contains :
    (ms : List Str) (key a : Str)
    → contains ms a ≡ true
    → a ≢ []
    → (contains ms (locate (new_ring ms) key) ≡ true) × (locate (new_ring ms) key ≢ [])
locate-contains ms key a ha named =
    elim (Option-cases (next_point (point key) (new_ring ms).points)) [
      | inl e ↦ absurd (some_end (point key) (replica_point a 0) (new_ring ms).points first e)
      | inr (p, e) ↦
          let (b, hb) = owned_at ms p (point key) e in
          found b (locate_at ms key p e ∙ ap or_empty hb)
            (sym (contains-kept_of ms b) ∙ first_owner-contains (kept_of ms) p b hb)
    ]
  where
    first : contains (new_ring ms).points (replica_point a 0) ≡ true
    first =
        contains-points ms (replica_point a 0)
        ∙ first_owner_some (kept_of ms) a (ground (arith, contains-kept_of ms a, (==_iff a []).0))

    found :
        (b : Str)
        → locate (new_ring ms) key ≡ b
        → contains ms b && not (b == []) ≡ true
        → (contains ms (locate (new_ring ms) key) ≡ true) × (locate (new_ring ms) key ≢ [])
    found b e h = (rw e (ground arith), λ z. ground (arith, (==_iff b []).1 (sym e ∙ z)))
