-- ===== src/Hashring.antt =====
-- pkg/hashring/hashring.go: which pod owns a key, by consistent hashing. Strings are lists of
-- bytes; `crc32` is package hash/crc32's ChecksumIEEE, bit by bit, and `itoa` strconv.Itoa. The
-- map `owner` and the slice `points` are the ring's fields. BinarySearch is read as its
-- specification: the first point that is not below the one sought.
mod Point
pub mod Set
pub mod Build
pub mod Stable
pub mod Tests
unfoldable pub use Point.{crc32, itoa, itoa_from}
use clusterplex.Prelude.{
  ℕ, zero, suc, ◌+◌, Bool, true, false, ◌||◌, Option, none, some, List, [], ◌∷◌, ◌++◌,
  if◌then◌else◌, ◌==◌, ltb, Str, str, str_eq, nat_eq,
}
use clusterplex.Dict.{Dict, lookup, insert, has}
use clusterplex.Sorted.{contains, sort}
use clusterplex.Sorted.Orders.{nat_order, str_order}

-- How many points on the ring each member occupies.
abbrev pub replicas : ℕ
replicas = 160

pub record Ring : Type 0 where
  pub members : List Str
  pub points : List ℕ
  pub owner : Dict ℕ Str

-- func point(s string) uint32
pub point : Str → ℕ
point s = crc32 s

-- The first loop of New, from the members kept so far.
unfoldable pub collect : List Str → List Str → List Str
collect kept [] = kept
collect kept (m ∷ ms) = collect (if m == [] || contains kept m then kept else kept ++ m ∷ []) ms

-- One round of New's inner loop: replica i of member m.
unfoldable pub place : Ring → Str → ℕ → Ring
place r m i =
    let p = point (m ++ str "#" ++ itoa i) in
    if has p r.owner
    then r
    else record r { owner = insert p m r.owner; points = r.points ++ p ∷ [] }

-- The inner loop, from replica i on with n rounds left.
unfoldable pub place_from : ℕ → ℕ → Ring → Str → Ring
place_from zero i r m = r
place_from (suc n) i r m = place_from n (i + 1) (place r m i) m

-- The outer loop.
unfoldable pub place_all : Ring → List Str → Ring
place_all r [] = r
place_all r (m ∷ ms) = place_all (place_from replicas 0 r m) ms

-- The members that New keeps, sorted.
unfoldable pub kept_of : List Str → List Str
kept_of ms = sort str_order (collect [] ms)

-- func New(members ...string) *Ring
unfoldable pub new_ring : List Str → Ring
new_ring ms =
    let kept = kept_of ms in
    let r = place_all (record { members = kept; points = []; owner = [] }) kept in
    record r { points = sort nat_order r.points }

-- slices.BinarySearch: the first point at or after p, if there is one.
unfoldable pub search_from : ℕ → List ℕ → Option ℕ
search_from p [] = none
search_from p (q ∷ qs) = if ltb q p then search_from p qs else some q

abbrev pub or_empty : Option Str → Str
or_empty none = []
or_empty (some m) = m

-- The point at or after p, wrapping around the ring.
unfoldable pub next_point : ℕ → List ℕ → Option ℕ
next_point p [] = none
next_point p (q ∷ qs) = elim (search_from p (q ∷ qs)) [ some r ↦ some r | none ↦ some q ]

-- func (r *Ring) Locate(key string) string
unfoldable pub locate : Ring → Str → Str
locate r key = elim (next_point (point key) r.points) [
  | none ↦ []
  | some p ↦ or_empty (lookup p r.owner)
]
