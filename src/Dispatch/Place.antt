-- ===== src/Dispatch/Place.antt =====
-- Where a job ends up.
use clusterplex.Prelude.{
  ℕ, ◌≡◌, refl, true, false, ◌&&◌, Option, none, some, ◌==◌, ==_refl, Str, str_eq, ◌⊎◌, inl, inr,
  Bool-cases, Option-cases,
}
use clusterplex.Dispatch.{
  Request, Mode, remux, projected, asked, Dispatcher, Run, Relayed, transcoder, scanner,
  remote_eligible, try_remote, execute_rest, execute_remux, execute, after_remote, after_route,
  by_route, Answer, local_run, convert,
}
use clusterplex.Dispatch.Args.{is_conversion}
use clusterplex.Dispatch.Remote.{
  count, count-append, is_routed, is_plain, is_local, is_delivered, Tried, try_remote-Tried,
}

-- What a run does with a job: it is routed once, runs here at most once, and not where a worker's
-- output was delivered.
abbrev pub Placed : Run → Type 0
Placed r =
    (count is_routed r.events ≡ 1)
    × ((count is_local r.events ≡ 0)
        ⊎ ((count is_local r.events ≡ 1) × (count is_delivered r.events ≡ 0)))

after_remote-Placed :
    (d : Dispatcher) (req : Request) (a : Relayed × ℕ) → Tried a.0 → Placed (after_remote d req a)
unfolding count
after_remote-Placed d req (r, next) (here, inl (open_, a, b)) = rw open_ (
  rw (count-append is_routed r.events _, a) refl,
  inr (
    rw (count-append is_local r.events _, here) refl,
    rw (count-append is_delivered r.events _, b) refl,
  ),
)
after_remote-Placed d req (r, next) (here, inr (err, done, a)) = rw done (a, inl here)

local_run-Placed : (d : Dispatcher) (req : Request) (next : ℕ) → Placed (local_run d req next)
unfolding count
local_run-Placed d req next = (refl, inr (refl, refl))

convert-Placed : (d : Dispatcher) (req : Request) (next : ℕ) → Placed (convert d req next)
unfolding count
convert-Placed d req next = elim (Option-cases d.video_route) [
  | inl a ↦ rw a (refl, inl refl)
  | inr (run, a) ↦ rw a (refl, inl refl)
]

execute_rest-Placed : (d : Dispatcher) (req : Request) (next : ℕ) → Placed (execute_rest d req next)
unfolding execute_rest
execute_rest-Placed d req next =
    elim (Bool-cases (req.target == transcoder && is_conversion req.args)) [
      | inl yes_video ↦ rw yes_video (convert-Placed d req next)
      | inr plain ↦ elim (Bool-cases (remote_eligible req)) [
        | inl may ↦
            rw (plain, may)
              (after_remote-Placed d req (try_remote d req next) (try_remote-Tried d req next))
        | inr must ↦ rw (plain, must) (local_run-Placed d req next)
      ]
    ]

after_route-Placed :
    (m : Mode) (a : Answer) (next : ℕ) (r : Run)
    → (is_local (asked m) ≡ false)
    → Placed r
    → Placed (after_route m a next r)
unfolding count
after_route-Placed m a next r other v = elim (Bool-cases a.is_done) [
  | inl done ↦ rw (done, other) (refl, inl refl)
  | inr open_ ↦ rw (open_, other) v
]

by_route-Placed :
    (o : Option (Request → Answer)) (m : Mode) (target : Str) (req : Request) (next : ℕ) (r : Run)
    → is_local (asked m) ≡ false
    → Placed r
    → Placed (by_route o m target req next r)
by_route-Placed none m target req next r other v = v
by_route-Placed (some route) m target req next r other v =
    elim (Bool-cases (req.target == target)) [
      | inl e ↦ rw e (after_route-Placed m (route req) next r other v)
      | inr e ↦ rw e v
    ]

-- Whatever the routes and the workers answer, a job is routed exactly once. It runs on Plex's own
-- binary here at most once, and not if a worker's output was delivered.
pub execute_places : (d : Dispatcher) (req : Request) (next : ℕ) → Placed (execute d req next)
unfolding execute execute_remux
execute_places d req next =
    by_route-Placed d.scan projected scanner req next (execute_remux d req next) refl (
      by_route-Placed d.remux_route remux transcoder req next (execute_rest d req next) refl
        (execute_rest-Placed d req next))

convert_stays :
    (d : Dispatcher) (req : Request) (next : ℕ) → count is_plain (convert d req next).events ≡ 0
unfolding count
convert_stays d req next = elim (Option-cases d.video_route) [
  | inl a ↦ rw a refl
  | inr (run, a) ↦ rw a refl
]

after_route_stays :
    (m : Mode) (a : Answer) (next : ℕ) (r : Run)
    → is_plain (asked m) ≡ false
    → count is_plain r.events ≡ 0
    → count is_plain (after_route m a next r).events ≡ 0
unfolding count
after_route_stays m a next r other v = elim (Bool-cases a.is_done) [
  | inl done ↦ rw (done, other) refl
  | inr open_ ↦ rw (open_, other) v
]

by_route_stays :
    (o : Option (Request → Answer)) (m : Mode) (target : Str) (req : Request) (next : ℕ) (r : Run)
    → is_plain (asked m) ≡ false
    → count is_plain r.events ≡ 0
    → count is_plain (by_route o m target req next r).events ≡ 0
by_route_stays none m target req next r other v = v
by_route_stays (some route) m target req next r other v = elim (Bool-cases (req.target == target)) [
  | inl e ↦ rw e (after_route_stays m (route req) next r other v)
  | inr e ↦ rw e v
]

-- A conversion of video reaches no worker and does not run on Plex's own transcoder, whether or not
-- there is a pool, and whatever the routes answer.
pub conversion_stays :
    (d : Dispatcher) (req : Request) (next : ℕ)
    → req.target ≡ transcoder
    → is_conversion req.args ≡ true
    → count is_plain (execute d req next).events ≡ 0
unfolding execute execute_remux execute_rest
conversion_stays d req next target video_job =
    by_route_stays d.scan projected scanner req next (execute_remux d req next) refl
      (by_route_stays d.remux_route remux transcoder req next (execute_rest d req next) refl rest)
  where
    same : (req.target == transcoder) ≡ true
    same = rw target (==_refl transcoder)

    rest : count is_plain (execute_rest d req next).events ≡ 0
    rest = rw (same, video_job) (convert_stays d req next)
