-- ===== src/Video/Accepted.antt =====
-- What is known of a job that Parse accepts.
use clusterplex.Prelude.{
  true, false, not, ◌||◌, Option, some, List, ◌≡◌, sym, ap, Str, str, str_eq, is_empty, length, leb,
  has_prefix, arith,
}
use clusterplex.Slots.{OutputKind}
use clusterplex.Video.Job.{
  ok, no_output, no_input, live_without_input, no_progress, Job, BurnIn, Segmenting,
}
use clusterplex.Video.Scan.{Env, Scanned, nothing_read, scan, session_of}
use clusterplex.Video.Burn.{text_burn}
use clusterplex.Video.Outputs.{opt}
use clusterplex.Video.Streams.{outputs, OutputsRead}
use clusterplex.Video.Muxer.{muxer}
use clusterplex.Video.Parse.{parse, parse_body, finish, without_null, last_arg, without_last_arg}
use clusterplex.Video.Recorded.{bind_ok, ok_inj, unless_ok}

-- The parts of the job, and where each comes from.
pub record Made (env : Env) (token target null_map : Str) (s : Scanned) (j : Job) : Type 0 where
  pub reads : OutputsRead
  pub has_inputs : is_empty s.inputs ≡ false
  pub not_live : s.live ≡ false
  pub names_session :
      is_empty (opt (str "-progressurl") s.opts)
        || is_empty (session_of env.urls (opt (str "-progressurl") s.opts))
      ≡ false
  pub outputs_read : outputs env.floats s.maps s.chains s.per_out ≡ ok reads
  pub burn_read :
      (b : Option BurnIn) × (text_burn s.inputs reads.burn
          (opt (str "-map_inlineass") s.opts)
          null_map
        ≡ ok b)
      × (j.burn ≡ b)
  pub muxed :
      (m : OutputKind × Segmenting) × (muxer env.floats s.opts
          (opt (str "-segment_list") s.opts)
          target
        ≡ ok m)
      × (j.output ≡ some m.0)
      × (j.segments ≡ some m.1)
  pub job_inputs : j.inputs ≡ s.inputs
  pub job_video : j.video ≡ reads.video
  pub job_audio : j.audio ≡ reads.audio
  pub job_session : j.session ≡ session_of env.urls (opt (str "-progressurl") s.opts)

pub finish-Made :
    (env : Env) (token target null_map : Str) (s : Scanned) (j : Job)
    → finish env token target null_map s ≡ ok j
    → Made env token target null_map s j
unfolding finish
finish-Made env token target null_map s j e =
    let (inputs, e1) = unless_ok (is_empty s.inputs) _ no_input e in
    let (live, e2) = unless_ok s.live _ live_without_input e1 in
    let (progress, e3) = unless_ok _ _ no_progress e2 in
    let (o, read, e4) = bind_ok (outputs env.floats s.maps s.chains s.per_out) _ j e3 in
    let (b, burn, e5) =
      bind_ok (text_burn s.inputs o.burn (opt (str "-map_inlineass") s.opts) null_map) _ j e4 in
    let (m, mux, e6) =
      bind_ok (muxer env.floats s.opts (opt (str "-segment_list") s.opts) target) _ j e5 in
    let same = ok_inj e6 in
    record {
      reads = o;
      has_inputs = inputs;
      not_live = live;
      names_session = progress;
      outputs_read = read;
      burn_read = (b, burn, ap (λ x. x.burn) (sym same));
      muxed = (m, mux, ap (λ x. x.output) (sym same), ap (λ x. x.segments) (sym same));
      job_inputs = ap (λ x. x.inputs) (sym same);
      job_video = ap (λ x. x.video) (sym same);
      job_audio = ap (λ x. x.audio) (sym same);
      job_session = ap (λ x. x.session) (sym same);
    }

-- The options of an accepted job, what they are read as, and its parts.
pub record Parsed (env : Env) (token : Str) (args : List Str) (j : Job) : Type 0 where
  pub scanned : Scanned
  pub scan_ok : scan env (without_last_arg (without_null args).0) nothing_read ≡ ok scanned
  pub made : Made env token (last_arg (without_null args).0) (without_null args).1 scanned j
  pub ends : has_prefix (last_arg args) (str "-") ≡ false
  pub enough : leb 2 (length args) ≡ true

pub parse-Parsed :
    (env : Env) (token : Str) (args : List Str) (j : Job)
    → parse env token args ≡ ok j
    → Parsed env token args j
unfolding parse parse_body
parse-Parsed env token args j e =
    let (tests, body) =
      unless_ok (not (leb 2 (length args)) || has_prefix (last_arg args) (str "-")) _ no_output e in
    let (s, read, fin) =
      bind_ok (scan env (without_last_arg (without_null args).0) nothing_read) _ j body in
    record {
      scanned = s;
      scan_ok = read;
      made = finish-Made env token (last_arg (without_null args).0) (without_null args).1 s j fin;
      ends = ground (arith, tests);
      enough = ground (arith, tests);
    }
