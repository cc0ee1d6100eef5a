-- ===== src/Dispatch/Remote.antt =====
-- The events of a run counted, and those of an attempt on a worker.
use clusterplex.Prelude.{
  ℕ, ◌+◌, ◌≡◌, refl, Bool, true, false, not, ◌||◌, Option, none, some, List, [], ◌∷◌, ◌++◌, arith,
  if◌then◌else◌, str_eq, ◌⊎◌, inl, inr, Bool-cases, Option-cases, is_empty,
}
use clusterplex.Dispatch.{
  Request, Worker, Message, remote, local, video, remux, projected, Event, asked, routed, called,
  delivered, refused, closed, Dispatcher, Relayed, Failure, pick, receive, call_worker, try_remote,
  call_picked, try_listed,
}
use clusterplex.Dispatch.Args.{rewrite_args}

unfoldable pub count : (Event → Bool) → List Event → ℕ
count p [] = 0
count p (e ∷ es) = let n = count p es in if p e then n + 1 else n

abbrev pub is_routed : Event → Bool
is_routed (asked m) = false
is_routed (routed m) = true
is_routed (called w args) = false
is_routed (delivered m) = false
is_routed refused = false
is_routed closed = false

-- A worker gets the job, or Plex's own binary runs it here.
abbrev pub is_plain : Event → Bool
is_plain (asked remux) = false
is_plain (asked video) = false
is_plain (asked projected) = false
is_plain (asked remote) = false
is_plain (asked local) = true
is_plain (routed m) = false
is_plain (called w args) = true
is_plain (delivered m) = false
is_plain refused = false
is_plain closed = false

abbrev pub is_local : Event → Bool
is_local (asked remux) = false
is_local (asked video) = false
is_local (asked projected) = false
is_local (asked remote) = false
is_local (asked local) = true
is_local (routed m) = false
is_local (called w args) = false
is_local (delivered m) = false
is_local refused = false
is_local closed = false

abbrev pub is_delivered : Event → Bool
is_delivered (asked m) = false
is_delivered (routed m) = false
is_delivered (called w args) = false
is_delivered (delivered m) = true
is_delivered refused = false
is_delivered closed = false

pub count-append :
    (p : Event → Bool) (xs ys : List Event) → count p (xs ++ ys) ≡ count p xs + count p ys
unfolding count
count-append p [] ys = omega arith
count-append p (a ∷ xs) ys = ground (arith, count-append p xs ys)

-- What a remote attempt gives: a job that it has done was routed once and not run here, and of one
-- that it leaves nothing was delivered or routed.
abbrev pub Tried : Relayed → Type 0
Tried r =
    (count is_local r.events ≡ 0)
    × (((r.outcome ≡ none) × (count is_routed r.events ≡ 0) × (count is_delivered r.events ≡ 0))
        ⊎ ((err : Option Failure) × (r.outcome ≡ some err) × (count is_routed r.events ≡ 1)))

-- A later message of a stream.
receive_later :
    (sink : ℕ → Bool) (eof : Bool) (i : ℕ) (ms : List Message)
    → let r = receive sink eof false i ms in
      (count is_local r.events ≡ 0)
      × (count is_routed r.events ≡ 0)
      × ((err : Option Failure) × (r.outcome ≡ some err))
unfolding receive count
receive_later sink true i [] = (refl, refl, (none, refl))
receive_later sink false i [] = (refl, refl, (some Failure.worker_failed, refl))
receive_later sink eof i (m ∷ ms) = elim (Bool-cases (sink i)) [
  | inl ok ↦ elim (Bool-cases m.is_finished) [
    | inl last ↦ rw (ok, last) (refl, refl, (none, refl))
    | inr more ↦ rw (ok, more) (receive_later sink eof (i + 1) ms)
  ]
  | inr bad ↦ rw bad (refl, refl, (some Failure.sink_failed, refl))
]

receive-Tried :
    (sink : ℕ → Bool) (eof : Bool) (ms : List Message) → Tried (receive sink eof true 0 ms)
unfolding receive count
receive-Tried sink eof [] = (refl, inl (refl, refl, refl))
receive-Tried sink eof (m ∷ ms) = elim (Bool-cases (sink 0)) [
  | inl ok ↦ elim (Bool-cases m.is_finished) [
    | inl last ↦ rw (ok, last) (refl, inr (none, refl, refl))
    | inr more ↦
        let (a, b, (err, c)) = receive_later sink eof 1 ms in
        rw (ok, more) (a, inr (err, c, rw b refl))
  ]
  | inr bad ↦ rw bad (refl, inr (some Failure.sink_failed, refl, refl))
]

call_worker-Tried : (d : Dispatcher) (req : Request) (w : Worker) → Tried (call_worker d req w)
unfolding call_worker count
call_worker-Tried d req w = elim (Bool-cases (d.dial w)) [
  | inl up ↦ elim (Bool-cases (d.accept w (rewrite_args req.args d.pms_addr))) [
    | inl ok ↦ rw (up, ok) (receive-Tried d.sink (d.stream w).eof (d.stream w).messages)
    | inr rejected ↦ rw (up, rejected) (refl, inl (refl, refl, refl))
  ]
  | inr down ↦ rw down (refl, inl (refl, refl, refl))
]

call_picked-Tried :
    (d : Dispatcher) (req : Request) (p : Option Worker × ℕ) → Tried (call_picked d req p).0
unfolding count
call_picked-Tried d req (none, next) = (refl, inl (refl, refl, refl))
call_picked-Tried d req (some w, next) = call_worker-Tried d req w

pub try_remote-Tried : (d : Dispatcher) (req : Request) (next : ℕ) → Tried (try_remote d req next).0
unfolding try_remote count call_worker
try_remote-Tried d req next = elim (Option-cases d.workers) [
  | inl a ↦ rw a (refl, inl (refl, refl, refl))
  | inr (ws, a) ↦ elim (Bool-cases (not d.has_dial || is_empty d.pms_addr)) [
    | inl off ↦ rw (a, off) (refl, inl (refl, refl, refl))
    | inr on ↦ rw (a, on) (listed ws)
  ]
]
  where
    listed : (ws : Option (List Worker)) → Tried (try_listed d req next ws).0
    listed none = (refl, inl (refl, refl, refl))
    listed (some []) = (refl, inl (refl, refl, refl))
    listed (some (w ∷ ws)) = call_picked-Tried d req (pick next (w ∷ ws))
