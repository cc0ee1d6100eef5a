-- ===== src/Lease/Elector.antt =====
-- pkg/lease/lease.go: the election of the pod that talks to plex.tv. Each call reads the Lease,
-- plans, and writes: the plan is a function of what Get answers, and the call's result one of
-- whether the write is accepted.
use clusterplex.Prelude.{
  ℕ, ◌+◌, ◌*◌, ◌/◌, Bool, true, not, ◌&&◌, ◌||◌, Option, none, some, [], if◌then◌else◌, ◌==◌, ltb,
  Str, is_empty, str_eq, nat_eq,
}
use clusterplex.Lease.{Lease, Server, Reply, found, not_found, failed, second, holder_of}

abbrev pub default_duration : ℕ
default_duration = 15 * second

pub record Elector : Type 0 where
  pub identity : Str
  pub duration : ℕ

-- func (e *Elector) seconds() int32
unfoldable pub seconds : Elector → ℕ
seconds e = (if e.duration == 0 then default_duration else e.duration) / second

-- func free(l *coordinationv1.Lease) bool
unfoldable pub free : Lease → Bool
free l = is_empty (holder_of l)

-- func heldBy(l *coordinationv1.Lease, identity string) bool
unfoldable pub held_by : Lease → Str → Bool
unfolding free
held_by l identity = not (free l) && holder_of l == identity

abbrev pub ended : Option ℕ → Option ℕ → ℕ → Bool
ended none s now = true
ended (some r) none now = true
ended (some r) (some s) now = ltb (r + s * second) now

-- func expired(l *coordinationv1.Lease, now time.Time) bool
unfoldable pub expired : Lease → ℕ → Bool
expired l now = ended l.renewed l.seconds now

pub data Outcome : Type 0 where
  ok held_by_another get_failed write_failed : Outcome

-- What a call does once it has read the Lease; refused is its result if the write is not accepted.
pub data Plan : Type 0 where
  stop : Outcome → Plan
  create : Lease → Outcome → Plan
  update : Lease → Outcome → Plan

abbrev pub new_lease : Elector → ℕ → Lease
new_lease e now = record {
  version = 0;
  annotations = [];
  labels = [];
  holder = some e.identity;
  seconds = some (seconds e);
  acquired = some now;
  renewed = some now;
  transitions = none;
}

-- func (e *Elector) Acquire
unfoldable pub acquire_plan : Elector → ℕ → Reply → Plan
acquire_plan e now not_found = create (new_lease e now) held_by_another
acquire_plan e now failed = stop get_failed
acquire_plan e now (found l) =
    if not (held_by l e.identity) && not (free l) && not (expired l now)
    then stop held_by_another
    else update
        (record l {
          acquired = if held_by l e.identity then l.acquired else some now;
          holder = some e.identity;
          seconds = some (seconds e);
          renewed = some now;
        })
        held_by_another

-- func (e *Elector) Renew
unfoldable pub renew_plan : Elector → ℕ → Reply → Plan
renew_plan e now not_found = stop get_failed
renew_plan e now failed = stop get_failed
renew_plan e now (found l) =
    if held_by l e.identity
    then update (record l { renewed = some now }) write_failed
    else stop held_by_another

-- func (e *Elector) Release
unfoldable pub release_plan : Elector → Reply → Plan
release_plan e not_found = stop ok
release_plan e failed = stop get_failed
release_plan e (found l) =
    if held_by l e.identity then update (record l { holder = none }) write_failed else stop ok

-- func (e *Elector) Holder: the holder, or "", and whether Get failed.
unfoldable pub holder : ℕ → Reply → Option Str
holder now not_found = some []
holder now failed = none
holder now (found l) = if free l || expired l now then some [] else some (holder_of l)

module _ (sv : Server) where
  -- The write of a plan, at the state in which it reaches the server.
  unfoldable pub perform : Plan → sv.State → sv.State × Outcome
  perform (stop o) s = (s, o)
  perform (create l refused) s = elim (sv.create s l) [ none ↦ (s, refused) | some s' ↦ (s', ok) ]
  perform (update l refused) s = elim (sv.update s l) [ none ↦ (s, refused) | some s' ↦ (s', ok) ]
