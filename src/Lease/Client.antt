-- ===== src/Lease/Client.antt =====
-- The calls that write Leases, what each writes, and when that is lawful.
use clusterplex.Prelude.{ℕ, ◌≤◌, ◌≡◌, true, Option, none, some, Str, str_eq, is_empty, ◌⊎◌, ℤ}
use clusterplex.Dict.{Dict}
use clusterplex.Lease.{Lease, found, not_found, lease_end, holder_of}
use clusterplex.Lease.Elector
use clusterplex.Lease.Elector.{
  Elector, acquire_plan, renew_plan, release_plan, held_by, free, ended,
}
use clusterplex.Lease.Blocks
use clusterplex.Lease.Blocks.{annotate_plan, acquire_found, lapsed}
use clusterplex.Lease.Route.{Codec, Target, publish_change, clear_change}

-- What a client may write over the Lease x that it read: a change that leaves the holder and the
-- term alone, its own identity over a Lease that is free, its own or at its end by now, or no
-- holder over its own.
pub data Lawful (p : Str) (now : ℕ) (x x' : Lease) : Type 0 where
  keeps : x'.holder ≡ x.holder → lease_end x' ≡ lease_end x → Lawful p now x x'
  takes :
      (is_empty (holder_of x) ≡ true) ⊎ ((holder_of x ≡ p) ⊎ (lease_end x ≤ now))
      → x'.holder ≡ some p
      → Lawful p now x x'
  frees : holder_of x ≡ p → x'.holder ≡ none → Lawful p now x x'

-- The calls that write Leases.
pub data Client : Type 0 where
  acquires renews releases : Elector → Client
  acquires_block : ℤ → Str → Dict Str Str → Client
  annotates_block : Str → Dict Str Str → Client
  publishes : Codec → Target → Client
  clears : Codec → Str → Client

unfoldable pub identity : Client → Str
identity (acquires e) = e.identity
identity (renews e) = e.identity
identity (releases e) = e.identity
identity (acquires_block d p labels) = p
identity (annotates_block p annotations) = p
identity (publishes c t) = t.pod
identity (clears c pod) = pod

abbrev pub updates : Elector.Plan → Option Lease
updates (Elector.Plan.stop o) = none
updates (Elector.Plan.create l o) = none
updates (Elector.Plan.update l o) = some l

abbrev pub block_updates : Blocks.Plan → Option Lease
block_updates (Blocks.Plan.stop o) = none
block_updates (Blocks.Plan.create l o) = none
block_updates (Blocks.Plan.update l o) = some l

abbrev pub annotated : Lease → Option (Dict Str Str) → Option Lease
annotated x none = none
annotated x (some m) = some (record x { annotations = m })

-- The Lease that a call sends in an update, at a reading of the clock, over the Lease x.
unfoldable pub writes : Client → ℕ → Lease → Option Lease
writes (acquires e) now x = updates (acquire_plan e now (found x))
writes (renews e) now x = updates (renew_plan e now (found x))
writes (releases e) now x = updates (release_plan e (found x))
writes (acquires_block d p labels) now x =
    block_updates (Blocks.acquire_plan d now p labels (found x))
writes (annotates_block p annotations) now x = block_updates (annotate_plan p annotations (found x))
writes (publishes c t) now x = annotated x (publish_change c t x.annotations)
writes (clears c pod) now x = annotated x (clear_change c pod x.annotations)

abbrev pub creates_lease : Elector.Plan → Option Lease
creates_lease (Elector.Plan.stop o) = none
creates_lease (Elector.Plan.create l o) = some l
creates_lease (Elector.Plan.update l o) = none

abbrev pub creates_block : Blocks.Plan → Option Lease
creates_block (Blocks.Plan.stop o) = none
creates_block (Blocks.Plan.create l o) = some l
creates_block (Blocks.Plan.update l o) = none

-- The Lease that a call creates, where there is none.
unfoldable pub creates : Client → ℕ → Option Lease
creates (acquires e) now = creates_lease (acquire_plan e now not_found)
creates (renews e) now = creates_lease (renew_plan e now not_found)
creates (releases e) now = creates_lease (release_plan e not_found)
creates (acquires_block d p labels) now =
    creates_block (Blocks.acquire_plan d now p labels not_found)
creates (annotates_block p annotations) now = creates_block (annotate_plan p annotations not_found)
creates (publishes c t) now = none
creates (clears c pod) now = none

abbrev pub Good : Str → ℕ → Lease → Lease → Type 0
Good p now x x' = Lawful p now x x' × (x'.version ≡ x.version)
