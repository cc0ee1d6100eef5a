-- ===== src/Lease.antt =====
-- Kubernetes Leases as the program uses them (pkg/lease/lease.go, pkg/plex/livetv/leases.go,
-- pkg/plex/route): the object, and the API server as an interface. Times are in microseconds, the
-- precision of a Lease's times; durations are whole seconds, as the object stores them.
pub mod Elector
pub mod Blocks
pub mod Route
pub mod System
pub mod Exclusion
pub mod Availability
pub mod Retry
pub mod Client
pub mod Count
pub mod Counting
pub mod CountTests
pub mod Lawful
pub mod Tests
use clusterplex.Prelude.{
  ℕ, ◌+◌, ◌*◌, ◌<◌, ◌≡◌, Bool, true, false, Option, none, some, List, [], ◌∷◌, if◌then◌else◌, ◌==◌,
  ltb, Str, is_empty, str_eq,
}
use clusterplex.Dict.{Dict}

abbrev pub second : ℕ
second = 1_000_000

-- What the program reads and writes of coordination.k8s.io/v1 Lease; version is its
-- resourceVersion.
pub record Lease : Type 0 where
  pub version : ℕ
  pub annotations : Dict Str Str
  pub labels : Dict Str Str
  pub holder : Option Str
  pub seconds : Option ℕ
  pub acquired : Option ℕ
  pub renewed : Option ℕ
  pub transitions : Option ℕ

-- The API server, for one Lease: `create` and `update` give none where it refuses. A create
-- succeeds only if there is no such object, and an update only if the object's resourceVersion is
-- still the one that the request carries; each write gives a later version.
pub record Server : Type 1 where
  pub State : Type 0
  pub get : State → Option Lease
  pub create : State → Lease → Option State
  pub update : State → Lease → Option State
  pub create_law :
      (s : State) (l : Lease) (s' : State)
      → create s l ≡ some s'
      → (get s ≡ none) × ((v : ℕ) × (get s' ≡ some (record l { version = v })))
  pub update_law :
      (s : State) (l : Lease) (s' : State)
      → update s l ≡ some s'
      → (x : Lease) × (get s ≡ some x)
        × (x.version ≡ l.version)
        × ((v : ℕ) × (l.version < v) × (get s' ≡ some (record l { version = v })))

-- What Get answers: a Lease, IsNotFound, or another error.
pub data Reply : Type 0 where
  found : Lease → Reply
  not_found : Reply
  failed : Reply

abbrev pub end_of : Option ℕ → Option ℕ → ℕ
end_of none s = 0
end_of (some r) none = 0
end_of (some r) (some s) = r + s * second

-- The end of a Lease's term; 0 where a field of it is missing.
abbrev pub lease_end : Lease → ℕ
lease_end l = end_of l.renewed l.seconds

abbrev pub or_empty_str : Option Str → Str
or_empty_str none = []
or_empty_str (some h) = h

-- *HolderIdentity, or "" where it is nil.
abbrev pub holder_of : Lease → Str
holder_of l = or_empty_str l.holder
