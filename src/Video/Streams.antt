-- ===== src/Video/Streams.antt =====
-- The audio output of a job and its outputs together, in pkg/video/parse.go: audioOut and outputs.
use clusterplex.Prelude.{
  int_eq, ℕ, ◌+◌, Bool, true, not, ◌&&◌, ◌||◌, Option, none, some, List, [], ◌∷◌, if◌then◌else◌,
  ◌==◌, nat_eq, length, ℤ, pos, ltb_ℤ, leb_ℤ, Str, str, str_eq, is_empty,
}
use clusterplex.Dict.{Dict, lookup, is_some}
use clusterplex.Video.Strings.{atoi}
use clusterplex.Video.Job.{
  Result, ok, refused, ◌>>=◌, fold_ok, stray_output, no_codec, second_video, second_audio,
  bad_codec, no_video, bad_value, bad_audio_filter, bad_layout, bad_osr, bad_resample_option,
  bad_copypriorss, bad_audio_option, no_bit_rate, BurnIn, VideoOut, AudioOut,
}
use clusterplex.Video.Filter.{Kv, Filter, Chain, resolve}
use clusterplex.Video.Scan.{Floats, per_out_of}
use clusterplex.Video.Numbers.{bit_rate}
use clusterplex.Video.Outputs.{Output, opt, is_positive, video_out}

unfoldable pub resample_arg : AudioOut → Kv → Result AudioOut
resample_arg a kv =
    if kv.k == str "async" || kv.k == str "rematrix_maxval"
    then ok a
    else if kv.k == str "ochl"
    then (if kv.v == str "stereo"
        then ok (record a { channels = 2 })
        else if kv.v == str "mono"
        then ok (record a { channels = 1 })
        else refused bad_layout)
    else if kv.k == str "osr"
    then (elim (is_positive (atoi kv.v)) [
      | none ↦ refused bad_osr
      | some n ↦ ok (record a { sample_rate = n })
    ])
    else refused bad_resample_option

unfoldable pub audio_filter : AudioOut → Filter → Result AudioOut
audio_filter a f =
    if a.copy || not (f.name == str "aresample")
    then refused bad_audio_filter
    else fold_ok resample_arg a f.args

unfoldable pub audio_option : AudioOut → Str × Str → Result AudioOut
audio_option a (k, val) =
    if k == str "-codec" || k == str "language"
    then ok a
    else if k == str "-copypriorss"
    then (if val == str "0" then ok a else refused bad_copypriorss)
    else if k == str "-b"
    then (elim (bit_rate val) [
      | none ↦ refused bad_value
      | some n ↦ ok (record a { bit_rate = n })
    ])
    else refused bad_audio_option

-- func audioOut(o output) (AudioOut, error)
unfoldable pub audio_out : Output → Result AudioOut
audio_out o = do
  let start : AudioOut = record {
    stream = o.src;
    copy = opt (str "-codec") o.opts == str "copy";
    channels = 0;
    sample_rate = pos 0;
    bit_rate = pos 0;
    language = opt (str "language") o.opts;
  }
  a ← fold_ok audio_filter start o.filters
  b ← fold_ok audio_option a o.opts
  if not b.copy && b.bit_rate == pos 0 then refused no_bit_rate else ok b

-- outs: each -map, resolved, with its options.
unfoldable pub outs_from : List Chain → Dict ℤ (Dict Str Str) → ℕ → List Str → Result (List Output)
outs_from chains per_out i [] = ok []
outs_from chains per_out i (m ∷ maps) = do
  s ← resolve chains m
  os ← outs_from chains per_out (i + 1) maps
  let opts = per_out_of (lookup (pos i) per_out)
  ok (record { src = s.src; filters = s.filters; overlay = s.over; opts = opts } ∷ os)

-- An index of perOut is that of an output.
unfoldable pub all_below : ℕ → Dict ℤ (Dict Str Str) → Bool
all_below n [] = true
all_below n ((i, d) ∷ rest) = leb_ℤ (pos 0) i && ltb_ℤ i (pos n) && all_below n rest

-- What the loop over the outputs has read; video is none while the code's variable is -1.
pub record OutputsRead : Type 0 where
  pub video : Option VideoOut
  pub audio : Option AudioOut
  pub burn : Option BurnIn

module _ (fl : Floats) where
  abbrev pub as_video : OutputsRead → Output → Result OutputsRead
  as_video s o = do r ← video_out fl s.burn o; ok (record s { video = some r.video; burn = r.burn })

  abbrev pub as_audio : OutputsRead → Output → Result OutputsRead
  as_audio s o = do a ← audio_out o; ok (record s { audio = some a })

  unfoldable pub read_output : OutputsRead → Output → Result OutputsRead
  read_output s o =
      let codec = opt (str "-codec") o.opts in
      if is_empty codec
      then refused no_codec
      else if codec == str "libx264"
      then (if is_some s.video then refused second_video else as_video s o)
      else if codec == str "aac" || codec == str "copy"
      then (if is_some s.audio then refused second_audio else as_audio s o)
      else refused bad_codec

  abbrev pub with_video : OutputsRead → Result OutputsRead
  with_video s = if is_some s.video then ok s else refused no_video

  -- func (j *Job) outputs
  unfoldable pub outputs : List Str → List Chain → Dict ℤ (Dict Str Str) → Result OutputsRead
  outputs maps chains per_out = do
    outs ← outs_from chains per_out 0 maps
    s ←
        if all_below (length maps) per_out
        then fold_ok read_output (record { video = none; audio = none; burn = none }) outs
        else refused stray_output
    with_video s
