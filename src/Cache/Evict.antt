-- ===== src/Cache/Evict.antt =====
-- The cache's count of the jobs on an entry, and Evict, of pkg/remux/cache/cache.go.
use clusterplex.Prelude.{
  ℕ, ◌+◌, ◌-◌, Bool, true, false, Option, none, some, List, [], ◌∷◌, if◌then◌else◌, leb, ltb, ℤ,
  pos, leb_ℤ, pos_part, Str, str_eq,
}
use clusterplex.Dict.{Dict, lookup, insert}
use clusterplex.Cache.{Result, done, failed}

-- entries[name].refs
abbrev pub refs_of : Option ℕ → ℕ
refs_of none = 0
refs_of (some n) = n

-- Open's refs++, on an entry that it makes where there is none.
unfoldable pub hold : Str → Dict Str ℕ → Dict Str ℕ
hold name refs = insert name (refs_of (lookup name refs) + 1) refs

abbrev one_less : Str → Dict Str ℕ → Option ℕ → Dict Str ℕ
one_less name refs none = refs
one_less name refs (some n) = if ltb 0 n then insert name (n - 1) refs else refs

-- func (e *Entry) release()
unfoldable pub release : Str → Dict Str ℕ → Dict Str ℕ
release name refs = one_less name refs (lookup name refs)

-- func (c *Cache) open(name string) bool
unfoldable pub is_open : Dict Str ℕ → Str → Bool
is_open refs name = ltb 0 (refs_of (lookup name refs))

-- An entry's directory, as Evict lists it; used is 0 where the index does not say.
pub record Listed : Type 0 where
  pub name : Str
  pub size : ℕ
  pub used : ℕ

unfoldable pub total_size : List Listed → ℕ
total_size [] = 0
total_size (e ∷ es) = e.size + total_size es

-- slices.SortFunc by used; entries of one time may come in any order.
unfoldable pub insert_used : Listed → List Listed → List Listed
insert_used x [] = x ∷ []
insert_used x (e ∷ es) =
    let later = insert_used x es in if leb x.used e.used then x ∷ e ∷ es else e ∷ later

unfoldable pub sort_used : List Listed → List Listed
sort_used [] = []
sort_used (e ∷ es) = insert_used e (sort_used es)

-- What Evict leaves and what it removes.
pub record Evicted : Type 0 where
  pub kept : List Listed
  pub removed : List Listed
  pub result : Result

-- One round of the loop: whether the rest fits, whether a job holds the entry, whether its removal
-- fails; the rest of the loop past the entry kept, and past it removed.
abbrev pub evict_round : Listed → List Listed → Evicted → Evicted → Bool → Bool → Bool → Evicted
evict_round e es passed smaller true held fails = record {
  kept = e ∷ es;
  removed = [];
  result = done;
}
evict_round e es passed smaller false true fails = record passed { kept = e ∷ passed.kept }
evict_round e es passed smaller false false true = record {
  kept = e ∷ es;
  removed = [];
  result = failed;
}
evict_round e es passed smaller false false false = record smaller { removed = e ∷ smaller.removed }

-- The loop, from a total on.
module _ (max : ℕ) (refs : Dict Str ℕ) (fails : Str → Bool) where
  unfoldable pub evict_from : ℕ → List Listed → Evicted
  evict_from total [] = record { kept = []; removed = []; result = done }
  evict_from total (e ∷ es) =
      let passed = evict_from total es in
      let smaller = evict_from (total - e.size) es in
      evict_round e es passed smaller (leb total max) (is_open refs e.name) (fails e.name)

-- func (c *Cache) Evict() error, where the directory is listed.
unfoldable pub evict : ℤ → Dict Str ℕ → (Str → Bool) → List Listed → Evicted
evict max refs fails all =
    if leb_ℤ max (pos 0)
    then record { kept = all; removed = []; result = done }
    else evict_from (pos_part max) refs fails (total_size all) (sort_used all)
