-- ===== src/Dict.antt =====
-- Go's maps as association lists. The order of the entries stands for an order of iteration, which
-- Go leaves open: the theorems of the other modules hold for every order.
use clusterplex.Prelude.{
  All, Bool-cases, inl, inr, subst, ◌+◌, ◌≡◌, refl, Bool, true, false, Option, none, some, List, [],
  ◌∷◌, arith, length, if◌then◌else◌, Eq, ◌==◌,
}

abbrev pub Dict {ℓ κ} : Type ℓ → Type κ → Type (ℓ ⊔ κ)
Dict K V = List (K × V)

abbrev pub is_some {ℓ} : {A : Type ℓ} → Option A → Bool
is_some none = false
is_some (some a) = true

module _ {ℓ κ} {K : Type ℓ} {V : Type κ} ⦃e : Eq K⦄ where
  -- m[k], with its ok.
  unfoldable pub lookup : K → Dict K V → Option V
  lookup k [] = none
  lookup k ((i, x) ∷ rest) = if i == k then some x else lookup k rest

  -- m[k] = v
  unfoldable pub insert : K → V → Dict K V → Dict K V
  insert k v [] = (k, v) ∷ []
  insert k v ((i, x) ∷ rest) = if i == k then (i, v) ∷ rest else (i, x) ∷ insert k v rest

  -- delete(m, k)
  unfoldable pub delete : K → Dict K V → Dict K V
  delete k [] = []
  delete k ((j, w) ∷ m) = if j == k then delete k m else (j, w) ∷ delete k m

  -- The ok of m[k].
  unfoldable pub has : K → Dict K V → Bool
  has k [] = false
  has k ((j, w) ∷ m) = if j == k then true else has k m

  -- A map holds a key once.
  abbrev pub IsMap : Dict K V → Type 0
  IsMap [] = Unit
  IsMap ((k, v) ∷ m) = (has k m ≡ false) × IsMap m

  pub lookup-insert :
      (spot key : K) (x : V) (m : Dict K V)
      → lookup key (insert spot x m) ≡ (if spot == key then some x else lookup key m)
  unfolding lookup insert
  lookup-insert spot key x [] = refl
  lookup-insert spot key x ((i, w) ∷ rest) =
      ground (
        arith,
        e.beq_iff spot key,
        e.beq_iff i spot,
        e.beq_iff i key,
        lookup-insert spot key x rest,
      )

  pub lookup-delete :
      (k j : K) (m : Dict K V) → lookup j (delete k m) ≡ (if k == j then none else lookup j m)
  unfolding lookup delete
  lookup-delete k j [] = ground arith
  lookup-delete k j ((i, w) ∷ m) =
      ground (arith, e.beq_iff k j, e.beq_iff i k, e.beq_iff i j, lookup-delete k j m)

  pub has-insert :
      (k j : K) (v : V) (m : Dict K V) → has j (insert k v m) ≡ (if k == j then true else has j m)
  unfolding has insert
  has-insert k j v [] = refl
  has-insert k j v ((i, w) ∷ m) =
      ground (arith, e.beq_iff k j, e.beq_iff i k, e.beq_iff i j, has-insert k j v m)

  pub has-delete :
      (k j : K) (m : Dict K V) → has j (delete k m) ≡ (if k == j then false else has j m)
  unfolding has delete
  has-delete k j [] = ground arith
  has-delete k j ((i, w) ∷ m) =
      ground (arith, e.beq_iff k j, e.beq_iff i k, e.beq_iff i j, has-delete k j m)

  pub insert-IsMap : (k : K) (v : V) (m : Dict K V) → IsMap m → IsMap (insert k v m)
  unfolding insert has
  insert-IsMap k v [] h = (refl, tt)
  insert-IsMap k v ((i, w) ∷ m) h =
      ground (arith, e.beq_iff k i, e.beq_iff i k, has-insert k i v m, insert-IsMap k v m h.1)

  pub delete-IsMap : (k : K) (m : Dict K V) → IsMap m → IsMap (delete k m)
  unfolding delete
  delete-IsMap k [] h = tt
  delete-IsMap k ((i, w) ∷ m) h = ground (arith, has-delete k i m, delete-IsMap k m h.1)

  -- Deleting an absent key changes nothing.
  pub delete-absent : (k : K) (m : Dict K V) → has k m ≡ false → delete k m ≡ m
  unfolding delete has
  delete-absent k [] h = refl
  delete-absent k ((i, w) ∷ m) h = ground (arith, delete-absent k m)

  pub length-insert :
      (k : K) (v : V) (m : Dict K V)
      → length (insert k v m) ≡ (if has k m then length m else length m + 1)
  unfolding insert has
  length-insert k v [] = omega arith
  length-insert k v ((i, w) ∷ m) = ground (arith, length-insert k v m)

  pub length-delete :
      (k : K) (m : Dict K V)
      → IsMap m
      → length m ≡ (if has k m then length (delete k m) + 1 else length (delete k m))
  unfolding delete has
  length-delete k [] h = refl
  length-delete k ((i, w) ∷ m) h =
      ground (arith, e.beq_iff i k, delete-absent k m, length-delete k m h.1)

  pub lookup-has : (k : K) (m : Dict K V) → has k m ≡ is_some (lookup k m)
  unfolding has lookup
  lookup-has k [] = refl
  lookup-has k ((i, w) ∷ m) = ground (arith, lookup-has k m)

some_inj {ℓ} : {A : Type ℓ} {a b : A} → some a ≡ some b → a ≡ b
some_inj e = cc

-- What holds of all values of a map holds of one that is looked up.
pub lookup-All {ℓ κ ι} :
    {K : Type ℓ} {V : Type κ} ⦃e : Eq K⦄ (P : V → Type ι) (k : K) (m : Dict K V) {v : V}
    → All (λ kv. P kv.1) m
    → lookup k m ≡ some v
    → P v
unfolding lookup
lookup-All P k [] h e = cc
lookup-All P k ((j, w) ∷ m) h e = elim (Bool-cases (j == k)) [
  | inl hit ↦ subst P (some_inj (rw hit at e)) h.0
  | inr miss ↦ lookup-All P k m h.1 (rw miss at e)
]
