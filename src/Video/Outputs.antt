-- ===== src/Video/Outputs.antt =====
-- The video output of a job in pkg/video/parse.go: videoOut and pixFmt. Go's order over
-- a map's entries is open; here it is the order of a list, on which only the choice among several
-- refusals depends.
use clusterplex.Prelude.{
  int_eq, ℕ, Bool, true, false, not, ◌&&◌, ◌||◌, Option, none, some, List, [], if◌then◌else◌, ◌==◌,
  nat_eq, ℤ, pos, ltb_ℤ, Str, str, str_eq, is_empty,
}
use clusterplex.Dict.{Dict, lookup, is_some}
use clusterplex.Sorted.{contains}
use clusterplex.Video.Strings.{
  cut_prefix, has_suffix, split_at, atoi, digits, cut_before, cut_after,
}
use clusterplex.Video.Job.{
  Result, ok, refused, ◌>>=◌, fold_ok, Refusal, bad_scale, bad_scale_option, second_burn,
  bad_format_option, bad_pix_fmt, bad_filter, no_scale_format, bad_video_option, bad_value, no_rate,
  BurnIn, VideoOut,
}
use clusterplex.Video.Filter.{Kv, Filter, Overlay}
use clusterplex.Video.Scan.{Floats}
use clusterplex.Video.Numbers.{bit_rate, frame_rate, to_duration, without_last}
use clusterplex.Video.Burn.{inline_style, image_burn}

pub record Output : Type 0 where
  pub src : ℕ
  pub filters : List Filter
  pub overlay : Option Overlay
  pub opts : Dict Str Str

-- opts[k], empty where it is not there.
abbrev pub text_at : Option Str → Str
text_at none = []
text_at (some v) = v

unfoldable pub opt : Str → Dict Str Str → Str
opt k m = text_at (lookup k m)

abbrev pub is_positive : Option ℤ → Option ℤ
is_positive none = none
is_positive (some n) = if ltb_ℤ (pos 0) n then some n else none

abbrev size_read : Refusal → Option ℤ → (ℤ → VideoOut) → Result VideoOut
size_read e none f = refused e
size_read e (some n) f = ok (f n)

unfoldable pub scale_arg : VideoOut → Kv → Result VideoOut
scale_arg v a =
    if a.k == str "w"
    then size_read bad_scale (is_positive (atoi a.v)) (λ n. record v { width = n })
    else if a.k == str "h"
    then size_read bad_scale (is_positive (atoi a.v)) (λ n. record v { height = n })
    else if a.k == str "force_divisible_by"
    then ok v
    else refused bad_scale_option

unfoldable pub format_arg : Str → Kv → Result Str
format_arg fmts a = if a.k == str "pix_fmts" then ok a.v else refused bad_format_option

-- func pixFmt(list string) (string, error)
unfoldable pub pix_fmt_of : Str → Result Str
pix_fmt_of fmts =
    if contains (split_at 124 fmts) (str "nv12")
    then ok (str "nv12")
    else if contains (split_at 124 fmts) (str "yuv420p")
    then ok (str "yuv420p")
    else refused bad_pix_fmt

-- The variables of videoOut's loop over the filters: v and j.Burn.
pub record VideoRead : Type 0 where
  pub video : VideoOut
  pub burn : Option BurnIn

abbrev pub text_burned : VideoRead → Option BurnIn → Str → Result VideoRead
text_burned s none style =
    ok (record s { burn = some (record { input = 0; stream = 0; image = false; style = style }) })
text_burned s (some b) style = refused second_burn

abbrev whole : Option Str → Bool
whole none = true
whole (some s) = is_some (digits s)

abbrev decimal : Str → Option Str
decimal s = if is_some (digits (cut_before 46 s)) && whole (cut_after 46 s) then some s else none

-- keyframeExpr: the number in expr:gte(t,n_forced*...).
unfoldable pub keyframe_number : Str → Option Str
keyframe_number s = elim (cut_prefix s (str "expr:gte(t,n_forced*")) [
  | none ↦ none
  | some t ↦ if has_suffix t (str ")") then decimal (without_last t) else none
]

abbrev set_read : {A : Type 0} → Option A → (A → VideoOut) → Result VideoOut
set_read none f = refused bad_value
set_read (some x) f = ok (f x)

abbrev pub no_video_yet : ℕ → VideoOut
no_video_yet src = record {
  stream = src;
  width = pos 0;
  height = pos 0;
  pix_fmt = [];
  crf = pos 0;
  max_rate = pos 0;
  buf_size = pos 0;
  frame_rate = record { num = 0; den = 0 };
  keyframe_every = pos 0;
}

abbrev pub overlaid : ℕ → Option Overlay → VideoRead → Result VideoRead
overlaid src none s = ok s
overlaid src (some o) s = do b ← image_burn s.burn src s.video o; ok (record s { burn = some b })

-- The tests after the filters and after the options.
unfoldable pub scaled_and_formatted : VideoOut → Bool
scaled_and_formatted v = not (v.width == pos 0 || v.height == pos 0 || is_empty v.pix_fmt)

unfoldable pub rated : VideoOut → Bool
rated v =
    not (v.frame_rate.den == 0)
    && ltb_ℤ (pos 0) v.keyframe_every
    && ltb_ℤ (pos 0) v.max_rate
    && ltb_ℤ (pos 0) v.buf_size

module _ (fl : Floats) where
  unfoldable pub video_filter : VideoRead → Filter → Result VideoRead
  video_filter s f =
      if f.name == str "scale"
      then fold_ok scale_arg s.video f.args >>= (λ v. ok (record s { video = v }))
      else if f.name == str "inlineass"
      then inline_style fl f.args >>= (λ style. text_burned s s.burn style)
      else if f.name == str "format"
      then fold_ok format_arg [] f.args >>= (λ fmts.
        pix_fmt_of fmts >>= (λ pf. ok (record s { video = record (s.video) { pix_fmt = pf } })))
      else refused bad_filter

  abbrev read_anyway : Str → Option fl.Float → fl.Float
  read_anyway s none = fl.beside_error s
  read_anyway s (some x) = x

  abbrev every : VideoOut → Option Str → Result VideoOut
  every v none = refused bad_value
  every v (some s) =
      ok (record v { keyframe_every = to_duration fl (read_anyway s (fl.parse_float s)) })

  -- The loop over the options of a video output.
  unfoldable pub video_option : VideoOut → Str × Str → Result VideoOut
  video_option v (k, val) =
      if k == str "-codec" || k == str "-preset" || k == str "-x264opts"
      then ok v
      else if k == str "-crf"
      then set_read (atoi val) (λ n. record v { crf = n })
      else if k == str "-maxrate"
      then set_read (bit_rate val) (λ n. record v { max_rate = n })
      else if k == str "-bufsize"
      then set_read (bit_rate val) (λ n. record v { buf_size = n })
      else if k == str "-r"
      then set_read (frame_rate fl val) (λ r. record v { frame_rate = r })
      else if k == str "-force_key_frames"
      then every v (keyframe_number val)
      else refused bad_video_option

  -- func (j *Job) videoOut(o output) error: from j.Burn, the video and the burn-in.
  unfoldable pub video_out : Option BurnIn → Output → Result VideoRead
  video_out burn o = do
    s ← fold_ok video_filter (record { video = no_video_yet o.src; burn = burn }) o.filters
    t ← if scaled_and_formatted s.video then overlaid o.src o.overlay s else refused no_scale_format
    v ← fold_ok video_option t.video o.opts
    if rated v then ok (record t { video = v }) else refused no_rate
