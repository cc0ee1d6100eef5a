-- ===== src/Lease/Route.antt =====
-- pkg/plex/route/tracker.go and publisher.go: the leader's availability as an annotation of the
-- Lease. encoding/json's rendering of a Target is the parameter `Codec`, with its round trip of ASCII texts.
-- RetryOnConflict repeats an attempt that meets a conflict, up to a number of attempts that
-- client-go sets; what others do to the Lease between an attempt's Get and its Update is a
-- parameter.
use clusterplex.Prelude.{
  ℕ, zero, suc, ◌+◌, ◌<◌, ◌≡◌, All, Bool, false, not, ◌||◌, Option, none, some, List, [], ◌∷◌, ◌++◌,
  map, if◌then◌else◌, ◌==◌, Str, str, is_empty, str_eq, nat_eq,
}
use clusterplex.Dict.{Dict, lookup, insert, delete}
use clusterplex.Lease.{Lease, Server, holder_of}
use clusterplex.Lease.Elector.{ended}

abbrev pub availability_annotation : Str
availability_annotation = str "clusterplex.io/pms-availability"

pub record Target : Type 0 where
  pub pod : Str
  pub address : Str
  pub manager : Str

-- encoding/json keeps a text of ASCII; it replaces what is not UTF-8.
pub record IsAscii (t : Target) : Type 0 where
  pub pod : All (λ c. c < 128) t.pod
  pub address : All (λ c. c < 128) t.address
  pub manager : All (λ c. c < 128) t.manager

-- MarshalAvailability and UnmarshalAvailability.
pub record Codec : Type 0 where
  pub marshal : Target → Str
  pub unmarshal : Str → Option Target
  pub round_trip : (t : Target) → IsAscii t → unmarshal (marshal t) ≡ some t
  pub marshal_full : (t : Target) → is_empty (marshal t) ≡ false

-- func expired(lease *coordinationv1.Lease) bool
unfoldable pub expired : Lease → ℕ → Bool
expired l now = ended l.renewed l.seconds now

abbrev pub checked : Lease → Option Target → Option Target
checked l none = none
checked l (some t) = if is_empty t.address || not (t.pod == holder_of l) then none else some t

-- func evaluate(lease *coordinationv1.Lease) (Target, bool)
unfoldable pub evaluate : Codec → ℕ → Lease → Option Target
evaluate c now l =
    if is_empty (holder_of l) || expired l now
    then none
    else elim (lookup availability_annotation l.annotations) [
      | none ↦ none
      | some raw ↦ if is_empty raw then none else checked l (c.unmarshal raw)
    ]

-- The mutable fields: the target, if there is one, and who waits for one.
pub record Tracker : Type 0 where
  pub target : Option Target
  pub waiters : List ℕ

-- func (t *Tracker) set: the tracker, and what is sent to the waiters.
unfoldable pub set : Option Target → Tracker → Tracker × List (ℕ × Target)
set none t = (record t { target = none }, [])
set (some g) t = (record { target = some g; waiters = [] }, map (λ w. (w, g)) t.waiters)

-- func (t *Tracker) Current
unfoldable pub current : Tracker → Option Target
current t = t.target

-- Wait, where Current gives no target: a place among the waiters, under a lock of its own.
unfoldable pub enlist : ℕ → Tracker → Tracker
enlist w t = record t { waiters = t.waiters ++ w ∷ [] }

-- func (t *Tracker) Refresh, where Get succeeds or finds nothing.
unfoldable pub refresh : Codec → ℕ → Option Lease → Tracker → Tracker × List (ℕ × Target)
refresh c now none t = set none t
refresh c now (some l) t = set (evaluate c now l) t

-- The change that Publish makes to the annotations, if it makes one.
unfoldable pub publish_change : Codec → Target → Dict Str Str → Option (Dict Str Str)
publish_change c t m = elim (lookup availability_annotation m) [
  | none ↦ some (insert availability_annotation (c.marshal t) m)
  | some raw ↦
      if raw == c.marshal t then none else some (insert availability_annotation (c.marshal t) m)
]

abbrev pub names_other : Str → Option Target → Bool
names_other pod none = false
names_other pod (some t) = not (t.pod == pod)

-- The change that Clear makes.
unfoldable pub clear_change : Codec → Str → Dict Str Str → Option (Dict Str Str)
clear_change c pod m = elim (lookup availability_annotation m) [
  | none ↦ none
  | some raw ↦
      if names_other pod (c.unmarshal raw) then none else some (delete availability_annotation m)
]

-- What update returns: nil, the last conflict, or another error of Get or of Update.
pub data Answer : Type 0 where
  nil conflict get_failed update_failed : Answer

-- Whether the attempt of a number meets no error of Get but IsNotFound, and none of Update but a
-- conflict.
pub record Faults : Type 0 where
  pub get_ok : ℕ → Bool
  pub update_ok : ℕ → Bool

module _ (sv : Server) (change : Dict Str Str → Option (Dict Str Str))
    (others : ℕ → sv.State → sv.State) (faults : Faults) where
  -- func (p *Publisher) update, with n attempts left and i made. The server refuses an Update of an
  -- object that is there with a conflict, and of one that is gone with another error.
  unfoldable pub update : ℕ → ℕ → sv.State → sv.State × Answer
  update zero i s = (s, conflict)
  update (suc n) i s =
      let meanwhile = others i s in
      let again = update n (i + 1) meanwhile in
      if not (faults.get_ok i) then (meanwhile, get_failed) else elim (sv.get s) [
        | none ↦ (meanwhile, nil)
        | some l ↦ elim (change l.annotations) [
          | none ↦ (meanwhile, nil)
          | some m ↦
              if not (faults.update_ok i)
              then (meanwhile, update_failed)
              else elim (sv.update meanwhile (record l { annotations = m })) [
                | some s' ↦ (s', nil)
                | none ↦ elim (sv.get meanwhile) [
                  | none ↦ (meanwhile, update_failed)
                  | some x ↦ again
                ]
              ]
        ]
      ]
