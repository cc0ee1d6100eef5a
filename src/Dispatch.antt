-- ===== src/Dispatch.antt =====
-- pkg/remoteexec/dispatcher.go: where a job that the shim intercepts runs. The routes, the list of
-- workers, the dialling, a worker's stream and the client's sink are fields of `Dispatcher`; a run
-- gives the events in the order in which they happen, and the error or none.
pub mod Args
pub mod Remote
pub mod Place
pub mod Fair
pub mod Tests
use clusterplex.Prelude.{
  ℕ, zero, suc, ◌+◌, ◌%◌, ◌^◌, Bool, true, false, not, ◌&&◌, ◌||◌, Option, none, some, List, [],
  ◌∷◌, ◌++◌, if◌then◌else◌, ◌==◌, Str, str, str_eq, is_empty, length,
}
use clusterplex.Dict.{Dict, lookup}
use clusterplex.Dispatch.Args.{is_conversion, rewrite_args}

abbrev pub transcoder : Str
transcoder = str "Plex Transcoder"

abbrev pub scanner : Str
scanner = str "Plex Media Scanner"

pub record Request : Type 0 where
  pub target : Str
  pub args : List Str
  pub env : Dict Str Str

pub record Worker : Type 0 where
  pub name : Str
  pub addr : Str

-- A TranscodeLog; text is what it carries.
pub record Message : Type 0 where
  pub text : Str
  pub is_finished : Bool

-- What Recv gives until its error, and whether that is io.EOF.
pub record Stream : Type 0 where
  pub messages : List Message
  pub eof : Bool

pub data Mode : Type 0 where
  projected remux video remote local : Mode

pub data Failure : Type 0 where
  no_pool worker_failed sink_failed : Failure
  route_failed : ℕ → Failure

-- asked: a route, or the local executor, gets the job. called: a worker gets the request.
-- routed: OnRoute. refused: OnRefused. delivered: the sink takes a worker's message. closed: Finish.
pub data Event : Type 0 where
  asked routed : Mode → Event
  called : Worker → List Str → Event
  delivered : Message → Event
  refused closed : Event

pub record Answer : Type 0 where
  pub is_done : Bool
  pub err : Option Failure

-- workers: none is a nil lister, some none a list that fails. dial and accept: whether Dial and
-- ExecuteRemote succeed. sink: whether it takes the i-th message.
pub record Dispatcher : Type 0 where
  pub scan : Option (Request → Answer)
  pub remux_route : Option (Request → Answer)
  pub video_route : Option (Request → Option Failure)
  pub run_local : Request → Option Failure
  pub workers : Option (Option (List Worker))
  pub has_dial : Bool
  pub pms_addr : Str
  pub dial : Worker → Bool
  pub accept : Worker → List Str → Bool
  pub stream : Worker → Stream
  pub sink : ℕ → Bool

pub record Run : Type 0 where
  pub events : List Event
  pub err : Option Failure
  pub next : ℕ

abbrev pub prepend : List Event → Run → Run
prepend es r = record r { events = es ++ r.events }

abbrev pub env_of : Option Str → Str
env_of none = []
env_of (some v) = v

-- func RemoteEligible(req *pb.ExecRequest) bool
unfoldable pub remote_eligible : Request → Bool
remote_eligible req =
    req.target == transcoder && is_empty (env_of (lookup (str "EAE_ROOT") req.env))

abbrev pub nth : ℕ → List Worker → Option Worker
nth n [] = none
nth zero (w ∷ ws) = some w
nth (suc n) (w ∷ ws) = nth n ws

-- func (d *Dispatcher) pick, over the counter that next holds: the worker and the new counter.
unfoldable pub pick : ℕ → List Worker → Option Worker × ℕ
pick next ws = (nth (next % length ws) ws, (next + 1) % 2 ^ 64)

-- The events of the loop over a stream; none is done=false.
pub record Relayed : Type 0 where
  pub events : List Event
  pub outcome : Option (Option Failure)

abbrev pub relayed_after : List Event → Relayed → Relayed
relayed_after es r = record r { events = es ++ r.events }

abbrev pub first_events : Bool → List Event
first_events true = routed remote ∷ []
first_events false = []

abbrev pub stream_end : Bool → Bool → Option (Option Failure)
stream_end true eof = none
stream_end false true = some none
stream_end false false = some (some worker_failed)

-- The loop of tryRemote: first as there, i the number of messages that the sink was sent.
unfoldable pub receive : (ℕ → Bool) → Bool → Bool → ℕ → List Message → Relayed
receive sink eof first i [] = record { events = []; outcome = stream_end first eof }
receive sink eof first i (m ∷ ms) =
    let rest = receive sink eof false (i + 1) ms in
    if not (sink i)
    then record { events = first_events first; outcome = some (some sink_failed) }
    else if m.is_finished
    then record { events = first_events first ++ delivered m ∷ []; outcome = some none }
    else relayed_after (first_events first ++ delivered m ∷ []) rest

abbrev pub none_done : ℕ → Relayed × ℕ
none_done next = (record { events = []; outcome = none }, next)

-- tryRemote from the pick on.
unfoldable pub call_worker : Dispatcher → Request → Worker → Relayed
call_worker d req w =
    let args = rewrite_args req.args d.pms_addr in
    if not (d.dial w)
    then record { events = []; outcome = none }
    else relayed_after (called w args ∷ []) (
        if d.accept w args
        then receive d.sink (d.stream w).eof true 0 (d.stream w).messages
        else record { events = []; outcome = none })

abbrev pub call_picked : Dispatcher → Request → Option Worker × ℕ → Relayed × ℕ
call_picked d req (none, next) = none_done next
call_picked d req (some w, next) = (call_worker d req w, next)

abbrev pub try_listed : Dispatcher → Request → ℕ → Option (List Worker) → Relayed × ℕ
try_listed d req next none = none_done next
try_listed d req next (some []) = none_done next
try_listed d req next (some (w ∷ ws)) = call_picked d req (pick next (w ∷ ws))

-- func (d *Dispatcher) tryRemote
unfoldable pub try_remote : Dispatcher → Request → ℕ → Relayed × ℕ
try_remote d req next = elim d.workers [
  | none ↦ none_done next
  | some ws ↦
      if not d.has_dial || is_empty d.pms_addr then none_done next else try_listed d req next ws
]

abbrev pub local_run : Dispatcher → Request → ℕ → Run
local_run d req next = record {
  events = routed local ∷ asked local ∷ [];
  err = d.run_local req;
  next = next;
}

abbrev pub after_remote : Dispatcher → Request → Relayed × ℕ → Run
after_remote d req (r, next) = elim r.outcome [
  | none ↦ prepend r.events (local_run d req next)
  | some err ↦ record { events = r.events; err = err; next = next }
]

abbrev pub convert : Dispatcher → Request → ℕ → Run
convert d req next = elim d.video_route [
  | none ↦ record { events = routed video ∷ refused ∷ closed ∷ []; err = some no_pool; next = next }
  | some run ↦ record { events = routed video ∷ asked video ∷ []; err = run req; next = next }
]

-- Execute after the scan and the remux routes.
unfoldable pub execute_rest : Dispatcher → Request → ℕ → Run
execute_rest d req next =
    if req.target == transcoder && is_conversion req.args
    then convert d req next
    else if remote_eligible req
    then after_remote d req (try_remote d req next)
    else local_run d req next

abbrev pub after_route : Mode → Answer → ℕ → Run → Run
after_route m a next rest =
    if a.is_done
    then record { events = asked m ∷ routed m ∷ []; err = a.err; next = next }
    else prepend (asked m ∷ []) rest

-- A route that may be nil, for the jobs of one binary; rest is what follows where it leaves the job.
abbrev pub by_route : Option (Request → Answer) → Mode → Str → Request → ℕ → Run → Run
by_route none m target req next rest = rest
by_route (some route) m target req next rest =
    if req.target == target then after_route m (route req) next rest else rest

-- Execute after the scan route.
unfoldable pub execute_remux : Dispatcher → Request → ℕ → Run
execute_remux d req next =
    by_route d.remux_route remux transcoder req next (execute_rest d req next)

-- func (d *Dispatcher) Execute
unfoldable pub execute : Dispatcher → Request → ℕ → Run
execute d req next = by_route d.scan projected scanner req next (execute_remux d req next)
