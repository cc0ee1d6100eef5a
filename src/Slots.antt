-- ===== src/Slots.antt =====
-- pkg/video/worker/slots.go: the conversions that a GPU pod runs. A held slot stores its job's id,
-- which stands for the job's cancel function too: acquire says whose cancel it calls. The closure
-- that Acquire returns is a ticket, with the state of its sync.Once; it is none where Acquire
-- answers a closure that does nothing, and false.
pub mod Bounds
pub mod Release
pub mod Tests
use clusterplex.Prelude.{
  ℕ, zero, suc, ◌+◌, ◌-◌, Bool, true, false, not, ◌&&◌, Option, none, some, List, [], ◌∷◌,
  if◌then◌else◌, ◌==◌, length, ltb, ℤ, sub_ℕ, Str, str_eq, nat_eq, is_empty,
}
use clusterplex.Dict.{Dict, lookup, insert, delete, has}
use clusterplex.Hashring.{itoa}

-- video.OutputKind: a stream for a viewer, or a whole file.
pub data OutputKind : Type 0 where
  hls dash file : OutputKind

pub record Slots : Type 0 where
  pub max : ℕ
  pub next : ℕ
  pub held : Dict Str ℕ

pub record Ticket : Type 0 where
  pub key : Str
  pub id : ℕ
  pub used : Bool

pub record Acquired : Type 0 where
  pub slots : Slots
  pub cancelled : Option ℕ
  pub ticket : Option Ticket

-- func NewSlots(max int) *Slots
pub new_slots : ℕ → Slots
new_slots max = record { max = max; next = 0; held = [] }

abbrev pub need : OutputKind → ℕ
need file = 2
need hls = 1
need dash = 1

-- The key of a new job: a job with no session never shares a slot.
unfoldable pub slot_key : Str → ℕ → Str
slot_key session id = if is_empty session then 0 ∷ itoa id else session

-- The slot that a job of session takes over.
pub taken_over : Slots → Str → Option ℕ
taken_over s session = if is_empty session then none else lookup session s.held

-- The end of Acquire: the job gets an id and its slot.
pub hold : Slots → Str → Option ℕ → Acquired
hold s session cancelled =
    let id = s.next + 1 in
    let key = slot_key session id in
    record {
      slots = record s { next = id; held = insert key id s.held };
      cancelled = cancelled;
      ticket = some (record { key = key; id = id; used = false });
    }

-- func (s *Slots) Acquire
pub acquire : Slots → Str → OutputKind → Acquired
acquire s session kind = elim (taken_over s session) [
  | some old ↦ hold s session (some old)
  | none ↦
      if ltb s.max (length s.held + need kind)
      then record { slots = s; cancelled = none; ticket = none }
      else hold s session none
]

-- Whether the slot is still this job's.
pub owns : Slots → Ticket → Bool
owns s t = elim (lookup t.key s.held) [ none ↦ false | some id ↦ id == t.id ]

-- The closure that Acquire returns.
pub release : Slots → Ticket → Slots × Ticket
release s t = (
  if not t.used && owns s t then record s { held = delete t.key s.held } else s,
  record t { used = true },
)

-- func (s *Slots) Free() int
pub free : Slots → ℤ
free s = sub_ℕ s.max (length s.held)
