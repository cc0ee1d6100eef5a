-- ===== src/Slots/Release.antt =====
-- What release does, and that a job whose slot was taken over cannot free it.
use clusterplex.Prelude.{
  ℕ, ◌+◌, ◌≤◌, ◌≡◌, refl, true, false, Option, none, some, List, [], ◌∷◌, arith, if◌then◌else◌,
  ◌==◌, ==_refl, length, Str, str_eq, nat_eq, is_empty,
}
use clusterplex.Dict.{
  lookup, lookup-insert, lookup-delete, length-insert, length-delete, lookup-has,
}
use clusterplex.Slots.{
  OutputKind, Slots, Ticket, new_slots, slot_key, taken_over, hold, acquire, owns, release,
}
use clusterplex.Slots.Bounds.{IsValid, Op, acquires, releases, step, run, acquire_cases}

-- No slot holds an id that is yet to be given.
abbrev pub IdsBelow : Slots → Type 0
IdsBelow s = (k : Str) (id : ℕ) → lookup k s.held ≡ some id → id ≤ s.next

hold-IdsBelow :
    (s : Slots) (session : Str) (c : Option ℕ) → IdsBelow s → IdsBelow (hold s session c).slots
unfolding hold
hold-IdsBelow s session c b k id h =
    ground (arith, lookup-insert (slot_key session (s.next + 1)) k (s.next + 1) s.held, b k id)

release-IdsBelow : (s : Slots) (t : Ticket) → IdsBelow s → IdsBelow (release s t).0
unfolding release
release-IdsBelow s t b k id h = ground (arith, lookup-delete t.key k s.held, b k id)

step-IdsBelow : (s : Slots) (o : Op) → IdsBelow s → IdsBelow (step s o)
unfolding step
step-IdsBelow s (acquires session kind) b =
    acquire_cases (λ a. IdsBelow a.slots) s session kind
      (λ old e. hold-IdsBelow s session (some old) b) (λ e full. b)
      (λ e room. hold-IdsBelow s session none b)
step-IdsBelow s (releases t) b = release-IdsBelow s t b

run-IdsBelow : (s : Slots) (os : List Op) → IdsBelow s → IdsBelow (run s os)
unfolding run
run-IdsBelow s [] b = b
run-IdsBelow s (o ∷ os) b = run-IdsBelow (step s o) os (step-IdsBelow s o b)

new_slots-IdsBelow : (max : ℕ) → IdsBelow (new_slots max)
unfolding new_slots lookup
new_slots-IdsBelow max k id h = cc

abbrev pub ticket_of : Str → ℕ → Ticket
ticket_of session id = record { key = session; id = id; used = false }

taken_over-lookup :
    (s : Slots) (session : Str) (old : ℕ)
    → taken_over s session ≡ some old
    → (is_empty session ≡ false) × (lookup session s.held ≡ some old)
unfolding taken_over
taken_over-lookup s session old h = (ground arith, ground arith)

-- What a takeover leaves, for a slot of id old.
hold_over :
    (s : Slots) (session : Str) (old : ℕ)
    → taken_over s session ≡ some old
    → old ≤ s.next
    → let a = hold s session (some old) in
      (a.cancelled ≡ some old)
      × (a.ticket ≡ some (ticket_of session (s.next + 1)))
      × (length a.slots.held ≡ length s.held)
      × (owns a.slots (ticket_of session (s.next + 1)) ≡ true)
      × ((release a.slots (ticket_of session old)).0 ≡ a.slots)
unfolding hold slot_key owns release
hold_over s session old h below =
    let (named, found) = taken_over-lookup s session old h in
    let now = lookup-insert session session (s.next + 1) s.held in
    let self = ==_refl session in
    (
      refl,
      ground arith,
      ground (arith, length-insert session (s.next + 1) s.held, lookup-has session s.held),
      ground (arith, now, self),
      ground (arith, now, self),
    )

acquire_over :
    (s : Slots) (session : Str) (kind : OutputKind) (old : ℕ)
    → taken_over s session ≡ some old
    → acquire s session kind ≡ hold s session (some old)
unfolding acquire
acquire_over s session kind old h = rw (h, acquire)

-- At any point of a history, a job of a session that holds a slot takes it over, whatever its kind
-- and however few slots are free: the old job is cancelled, the number held stays, the slot is the
-- new job's, and the old job's release, which may come later, leaves it alone.
pub acquire_takes_over :
    (max : ℕ) (os : List Op) (session : Str) (kind : OutputKind) (old : ℕ)
    → taken_over (run (new_slots max) os) session ≡ some old
    → let s = run (new_slots max) os in
      let a = acquire s session kind in
      (a.cancelled ≡ some old)
      × (a.ticket ≡ some (ticket_of session (s.next + 1)))
      × (length a.slots.held ≡ length s.held)
      × (owns a.slots (ticket_of session (s.next + 1)) ≡ true)
      × ((release a.slots (ticket_of session old)).0 ≡ a.slots)
acquire_takes_over max os session kind old h =
    let s = run (new_slots max) os in
    let found = (taken_over-lookup s session old h).1 in
    let below = run-IdsBelow (new_slots max) os (new_slots-IdsBelow max) session old found in
    rw (acquire_over s session kind old h) (hold_over s session old h below)

-- The first release of a job that has its slot frees that slot and no other; the release does
-- nothing when it is called again, whatever has become of the slots.
pub release_frees :
    (s u : Slots) (t : Ticket) (j : Str)
    → IsValid s
    → t.used ≡ false
    → owns s t ≡ true
    → (length s.held ≡ length (release s t).0.held + 1)
      × (lookup j (release s t).0.held ≡ (if t.key == j then none else lookup j s.held))
      × ((release u (release s t).1).0 ≡ u)
unfolding release owns
release_frees s u t j v fresh own = (
  ground (arith, v.keys, length-delete t.key s.held, lookup-has t.key s.held),
  ground (arith, lookup-delete t.key j s.held),
  refl,
)
