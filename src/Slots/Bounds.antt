-- ===== src/Slots/Bounds.antt =====
-- How many slots are held.
use clusterplex.Prelude.{
  ◌∙◌, ==_refl, ==_iff, ltb→lt, Bool-cases, ℕ, ◌+◌, ◌≤◌, ◌<◌, ◌≡◌, ◌≢◌, refl, true, false, Option,
  none, some, List, [], ◌∷◌, arith, length, ltb, Str, str_eq, nat_eq, Option-cases, inl, inr, ◌⊎◌,
}
use clusterplex.Dict.{
  lookup, lookup-insert, insert, has, IsMap, insert-IsMap, delete-IsMap, length-insert,
  length-delete, lookup-has,
}
use clusterplex.Slots.{
  OutputKind, hls, dash, file, Slots, Ticket, Acquired, new_slots, need, slot_key, taken_over, hold,
  acquire, release,
}

pub record IsValid (s : Slots) : Type 0 where
  pub keys : IsMap s.held
  pub within : length s.held ≤ s.max

pub data Op : Type 0 where
  acquires : Str → OutputKind → Op
  releases : Ticket → Op

-- What a call leaves of the slots.
unfoldable pub step : Slots → Op → Slots
step s (acquires session kind) = (acquire s session kind).slots
step s (releases t) = (release s t).0

unfoldable pub run : Slots → List Op → Slots
run s [] = s
run s (o ∷ os) = run (step s o) os

slot_key_taken :
    (s : Slots) (session : Str) (old id : ℕ)
    → taken_over s session ≡ some old
    → has (slot_key session id) s.held ≡ true
unfolding taken_over slot_key
slot_key_taken s session old id h = ground (arith, lookup-has session s.held)

-- The three ways through Acquire.
pub acquire_cases {ℓ} :
    (P : Acquired → Type ℓ) (s : Slots) (session : Str) (kind : OutputKind)
    → ((old : ℕ) → taken_over s session ≡ some old → P (hold s session (some old)))
    → (taken_over s session ≡ none
        → s.max < length s.held + need kind
        → P (record { slots = s; cancelled = none; ticket = none }))
    → (taken_over s session ≡ none → length s.held + need kind ≤ s.max → P (hold s session none))
    → P (acquire s session kind)
unfolding acquire
acquire_cases P s session kind takes refused fresh = elim (Option-cases (taken_over s session)) [
  | inr (old, e) ↦ rw (e, acquire) (takes old e)
  | inl e ↦ elim (Bool-cases (ltb s.max (length s.held + need kind))) [
    | inl full ↦ rw (e, acquire) (rw full (refused e (ltb→lt _ _ full)))
    | inr room ↦ rw (e, acquire) (rw room (fresh e (ground arith)))
  ]
]

held-hold :
    (s : Slots) (session : Str) (c : Option ℕ)
    → (hold s session c).slots.held ≡ insert (slot_key session (s.next + 1)) (s.next + 1) s.held
unfolding hold
held-hold s session c = refl

hold-IsValid :
    (s : Slots) (session : Str) (c : Option ℕ)
    → IsValid s
    → length (insert (slot_key session (s.next + 1)) (s.next + 1) s.held) ≤ s.max
    → IsValid (hold s session c).slots
unfolding hold
hold-IsValid s session c v fits = record {
  keys = insert-IsMap (slot_key session (s.next + 1)) (s.next + 1) s.held v.keys;
  within = fits;
}

1_le_need : (kind : OutputKind) → 1 ≤ need kind
1_le_need hls = omega arith
1_le_need dash = omega arith
1_le_need file = omega arith

acquire-IsValid :
    (s : Slots) (session : Str) (kind : OutputKind)
    → IsValid s
    → IsValid (acquire s session kind).slots
acquire-IsValid s session kind v =
    let grown = length-insert (slot_key session (s.next + 1)) (s.next + 1) s.held in
    acquire_cases (λ a. IsValid a.slots) s session kind
      (λ old e.
        hold-IsValid s session (some old) v
          (ground (arith, v.within, grown, slot_key_taken s session old (s.next + 1) e)))
      (λ e full. v)
      (λ e room. hold-IsValid s session none v (ground (arith, grown, 1_le_need kind)))

release-IsValid : (s : Slots) (t : Ticket) → IsValid s → IsValid (release s t).0
unfolding release
release-IsValid s t v = record {
  keys = ground (arith, v.keys, delete-IsMap t.key s.held);
  within = ground (arith, v.keys, v.within, length-delete t.key s.held);
}

step-IsValid : (s : Slots) (o : Op) → IsValid s → IsValid (step s o)
unfolding step
step-IsValid s (acquires session kind) v = acquire-IsValid s session kind v
step-IsValid s (releases t) v = release-IsValid s t v

pub run-IsValid : (s : Slots) (os : List Op) → IsValid s → IsValid (run s os)
unfolding run
run-IsValid s [] v = v
run-IsValid s (o ∷ os) v = run-IsValid (step s o) os (step-IsValid s o v)

pub new_slots-IsValid : (max : ℕ) → IsValid (new_slots max)
unfolding new_slots
new_slots-IsValid max = record { keys = tt; within = omega arith }

max-step : (s : Slots) (o : Op) → (step s o).max ≡ s.max
unfolding step
max-step s (acquires session kind) =
    acquire_cases (λ a. a.slots.max ≡ s.max) s session kind (unfold hold in λ old e. refl)
      (λ e full. refl) (unfold hold in λ e room. refl)
max-step s (releases t) = unfold release in ground arith

max-run : (s : Slots) (os : List Op) → (run s os).max ≡ s.max
unfolding run
max-run s [] = refl
max-run s (o ∷ os) = max-run (step s o) os ∙ max-step s o

-- After any calls, in any order, at most max slots are held.
pub run-le-max : (max : ℕ) (os : List Op) → length (run (new_slots max) os).held ≤ max
unfolding new_slots
run-le-max max os = omega (
  arith,
  (run-IsValid (new_slots max) os (new_slots-IsValid max)).within,
  max-run (new_slots max) os,
)

-- The room that a job asks for: a whole file leaves a slot free beside its own.
abbrev pub Fits : OutputKind → ℕ → ℕ → Type 0
Fits hls held max = held < max
Fits dash held max = held < max
Fits file held max = held + 1 < max

-- A slot is now recorded for the ticket's job under its key, beside those of s.
pub record Holds (s : Slots) (a : Acquired) : Type 0 where
  pub ticket : Ticket
  pub given : a.ticket ≡ some ticket
  pub unused : ticket.used ≡ false
  pub recorded : lookup ticket.key a.slots.held ≡ some ticket.id
  pub one_more : length a.slots.held ≤ length s.held + 1
  pub cancels_none : a.cancelled ≡ none
  pub beside : (key : Str) → key ≢ ticket.key → lookup key a.slots.held ≡ lookup key s.held

Fits-need :
    (kind : OutputKind) (held max : ℕ)
    → (Fits kind held max → held + need kind ≤ max) × (held + need kind ≤ max → Fits kind held max)
Fits-need hls held max = (λ f. omega arith, λ f. omega arith)
Fits-need dash held max = (λ f. omega arith, λ f. omega arith)
Fits-need file held max = (λ f. omega arith, λ f. omega arith)

hold-Holds : (s : Slots) (session : Str) → Holds s (hold s session none)
unfolding hold
hold-Holds s session =
    let key = slot_key session (s.next + 1) in
    record {
      ticket = record { key = key; id = s.next + 1; used = false };
      given = refl;
      unused = refl;
      recorded = ground (arith, lookup-insert key key (s.next + 1) s.held, ==_refl key);
      one_more = ground (arith, length-insert key (s.next + 1) s.held);
      cancels_none = refl;
      beside =
          λ k apart. ground (arith, lookup-insert key k (s.next + 1) s.held, ==_iff key k, apart);
    }

-- A job with no slot to take over gets one exactly if there is room for it, and cancels nobody: a
-- stream needs a free slot, and a whole file two. The slot is recorded under its key, with the job's
-- id, and every other key is as it was. Where there is no room nothing changes.
pub acquire_fresh :
    (s : Slots) (session : Str) (kind : OutputKind)
    → taken_over s session ≡ none
    → (Fits kind (length s.held) s.max × Holds s (acquire s session kind))
      ⊎ ((¬ Fits kind (length s.held) s.max)
          × (acquire s session kind ≡ record { slots = s; cancelled = none; ticket = none }))
acquire_fresh s session kind e =
    let (fits, room_of) = Fits-need kind (length s.held) s.max in
    acquire_cases
      (λ a.
        (Fits kind (length s.held) s.max × Holds s a)
        ⊎ ((¬ Fits kind (length s.held) s.max)
            × (a ≡ record { slots = s; cancelled = none; ticket = none })))
      s session kind (λ old e'. absurd (ground (arith, e, e')))
      (λ e' full. inr (λ f. let room = fits f in absurd (omega arith), refl))
      (λ e' room. inl (room_of room, hold-Holds s session))
