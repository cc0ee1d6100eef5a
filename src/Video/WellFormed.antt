-- ===== src/Video/WellFormed.antt =====
-- A job that Parse accepts, as the pipelines rely on it.
use clusterplex.Prelude.{
  int_eq, true, false, Option, none, some, List, [], ◌≡◌, ◌≢◌, refl, sym, ◌∙◌, Str, str, str_eq,
  is_empty, subst, arith, nat_eq,
}
use clusterplex.Dict.{is_some}
use clusterplex.Video.Job.{ok, VideoOut, Job, Segmenting}
use clusterplex.Video.Scan.{Env, session_of}
use clusterplex.Video.Outputs.{opt}
use clusterplex.Video.Parse.{parse}
use clusterplex.Video.Playable.{IsPlayable}
use clusterplex.Video.Accepted.{parse-Parsed}
use clusterplex.Video.Ready.{HasBitRate, IfAny, outputs-AreReady}
use clusterplex.Video.Cut.{IsCut, muxer-IsCut}
use clusterplex.Video.Tied.{IsTied, text_burn-IsTied}

-- An accepted job: what it reads, and how its outputs are made and cut.
pub record IsWellFormed (j : Job) : Type 0 where
  pub has_inputs : j.inputs ≢ []
  pub has_session : j.session ≢ []
  pub has_video : (v : VideoOut) × (j.video ≡ some v) × IsPlayable v
  pub has_audio : IfAny HasBitRate j.audio
  pub has_segments : (s : Segmenting) × (j.segments ≡ some s) × IsCut s
  pub burns_input : IfAny (IsTied j.inputs) j.burn

not_empty : {A : Type 0} (xs : List A) → is_empty xs ≡ false → xs ≢ []
not_empty xs e f = ground (arith, e, f)

from_video :
    (o : Option VideoOut)
    → IfAny IsPlayable o
    → is_some o ≡ true
    → (v : VideoOut) × (o ≡ some v) × IsPlayable v
from_video none p e = absurd (ground (arith, e))
from_video (some v) p e = (v, refl, p)

-- A job that Parse accepts has an input and a session; one video output with a positive width and
-- height, nv12 or yuv420p as its format, a frame rate whose denominator is not 0 (its numerator may
-- be), and a positive keyframe interval, maximal rate and buffer size; if it has an audio output, one
-- that is copied or has a bit rate that is not 0 (it is negative where bitRate's product overflows);
-- segments with a duration and numbers that are not negative; and a text burn-in, if it has one,
-- from an input it has.
pub parse-IsWellFormed :
    (env : Env) (token : Str) (args : List Str) (j : Job)
    → parse env token args ≡ ok j
    → IsWellFormed j
parse-IsWellFormed env token args j e =
    let p = parse-Parsed env token args j e in
    let made = p.made in
    let s = p.scanned in
    let (ready, has_one) =
      outputs-AreReady env.floats s.maps s.chains s.per_out made.reads made.outputs_read in
    let (m, mux, _, segments) = made.muxed in
    let (v, video, plays) = from_video made.reads.video ready.0 has_one in
    let (b, burn, burns) = made.burn_read in
    let tied_to =
      text_burn-IsTied s.inputs made.reads.burn b (opt (str "-map_inlineass") s.opts) _ burn in
    let progress = opt (str "-progressurl") s.opts in
    record {
      has_inputs = λ x. not_empty s.inputs made.has_inputs (sym made.job_inputs ∙ x);
      has_session = λ x.
          not_empty (session_of env.urls progress) (ground (arith, made.names_session))
            (sym made.job_session ∙ x);
      has_video = (v, made.job_video ∙ video, plays);
      has_audio = subst (IfAny HasBitRate) (sym made.job_audio) ready.1;
      has_segments =
          (m.1, segments, muxer-IsCut env.floats s.opts (opt (str "-segment_list") s.opts) _ m mux);
      burns_input =
          subst (λ is. IfAny (IsTied is) j.burn) (sym made.job_inputs)
            (subst (IfAny (IsTied s.inputs)) (sym burns) tied_to);
    }
