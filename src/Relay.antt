-- ===== src/Relay.antt =====
-- pkg/video/relay/progress.go and placements.go: the progress reports that a relayed conversion
-- sends to Plex, and where the running conversions run. A report's channel is a number, given in
-- order; Plex's answers are arguments, with whether they throttle.
pub mod Reports
pub mod Placed
pub mod Sloth
pub mod Query
pub mod Tests
use clusterplex.Prelude.{
  ℕ, zero, suc, ◌+◌, Bool, true, false, not, ◌&&◌, ◌||◌, Option, none, some, List, [], ◌∷◌, ◌++◌,
  if◌then◌else◌, Str, str, is_empty, has_prefix, str_eq,
}
use clusterplex.Dict.{Dict, lookup, insert, delete, is_some}

pub record Report : Type 0 where
  pub path : Str
  pub query : Str
  pub id : ℕ

-- in_flight is the report that run has taken, where busy is true; next is the next channel.
pub record Reporter : Type 0 where
  pub q : List Report
  pub in_flight : Option Report
  pub throttle : Str
  pub throttled : Bool
  pub failed : Bool
  pub next : ℕ

-- func newReporter
unfoldable pub new_reporter : Reporter
new_reporter = record {
  q = [];
  in_flight = none;
  throttle = [];
  throttled = false;
  failed = false;
  next = 0;
}

-- func periodic(path, query string) bool
unfoldable pub periodic : Str → Str → Bool
periodic path query = is_empty path && has_prefix query (str "progress=")

-- p.q[n-1]
unfoldable pub last : List Report → Option Report
last [] = none
last (r ∷ []) = some r
last (r ∷ s ∷ rs) = last (s ∷ rs)

-- p.q[n-1].query = query
unfoldable pub set_last : Str → List Report → List Report
set_last query [] = []
set_last query (r ∷ []) = record r { query = query } ∷ []
set_last query (r ∷ s ∷ rs) = r ∷ set_last query (s ∷ rs)

-- What send answers: the channel, and whether the reporter was idle.
pub record Sent : Type 0 where
  pub reporter : Reporter
  pub done : ℕ
  pub idle : Bool

abbrev pub append_report : Reporter → Str → Str → Sent
append_report p path query = record {
  reporter = record p {
    q = p.q ++ record { path = path; query = query; id = p.next } ∷ [];
    next = p.next + 1;
  };
  done = p.next;
  idle = not (is_some p.in_flight) && is_empty p.q;
}

-- func (p *reporter) send
unfoldable pub send : Reporter → Str → Str → Sent
send p path query = elim (last p.q) [
  | none ↦ append_report p path query
  | some r ↦
      if periodic path query && periodic r.path r.query
      then record { reporter = record p { q = set_last query p.q }; done = r.id; idle = false }
      else append_report p path query
]

-- run, up to the request: it takes the first report, if it has none.
unfoldable pub take_report : Reporter → Reporter × Option Report
take_report p = elim p.in_flight [
  | some r ↦ (p, none)
  | none ↦ elim p.q [ [] ↦ (p, none) | r ∷ rs ↦ (record p { q = rs; in_flight = some r }, some r) ]
]

-- Plex's answer to a request; is_over is that the reporter's context has ended.
pub record Answer : Type 0 where
  pub is_error : Bool
  pub is_over : Bool
  pub can_throttle : Bool

-- run, from the answer on: what is closed.
unfoldable pub answered : Reporter → Answer → Reporter × Option ℕ
answered p a = elim p.in_flight [
  | none ↦ (p, none)
  | some r ↦
      let throttles = not a.is_error && is_empty r.path && a.can_throttle in
      (
        record p {
          in_flight = none;
          failed = p.failed || (a.is_error && not a.is_over);
          throttle = if throttles then r.query else p.throttle;
          throttled = throttles || p.throttled;
        },
        some r.id,
      )
]

-- func (p *reporter) held
unfoldable pub held : Reporter → Reporter × Option Str
held p = if p.throttled then (record p { throttled = false }, some p.throttle) else (p, none)

pub record Placement : Type 0 where
  pub worker : Str
  pub node : Str
  pub encoder : Str
  pub decoder : Str

-- *Placements; none is nil.
abbrev pub Placements : Type 0
Placements = Option (Dict Str Placement)

-- func (p *Placements) Get
unfoldable pub get : Placements → Str → Option Placement
get none session = none
get (some m) session = lookup session m

-- func (p *Placements) set
unfoldable pub set : Placements → Str → Placement → Placements
set none session pl = none
set (some m) session pl = some (insert session pl m)

abbrev pub report_device :
    Dict Str Placement → Str → Str → Str → Option Placement → Dict Str Placement
report_device m session encoder decoder none = m
report_device m session encoder decoder (some pl) =
    insert session (record pl { encoder = encoder; decoder = decoder }) m

-- func (p *Placements) started
unfoldable pub started : Placements → Str → Str → Str → Placements
started none session encoder decoder = none
started (some m) session encoder decoder =
    some (report_device m session encoder decoder (lookup session m))

-- func (p *Placements) remove
unfoldable pub remove : Placements → Str → Placements
remove none session = none
remove (some m) session = some (delete session m)
