-- ===== src/Video/Muxer.antt =====
-- muxer of pkg/video/parse.go: how the output is cut and listed.
use clusterplex.Prelude.{
  Bool, true, false, not, ◌&&◌, ◌||◌, Option, none, some, List, [], ◌∷◌, if◌then◌else◌, ◌==◌, ℤ,
  pos, ltb_ℤ, Str, str, str_eq, is_empty,
}
use clusterplex.Dict.{Dict, lookup, has}
use clusterplex.Slots.{OutputKind, hls, dash}
use clusterplex.Video.Strings.{atoi}
use clusterplex.Video.Job.{
  Result, ok, refused, ◌>>=◌, other_muxer, bad_target, dash_without, bad_duration, bad_number,
  bad_segment_format, no_segment_list, bad_muxer, Segmenting,
}
use clusterplex.Video.Options.{segment_options, dash_options, media_name}
use clusterplex.Video.Scan.{Floats}
use clusterplex.Video.Numbers.{seconds}
use clusterplex.Video.Outputs.{opt}

-- One of some options is set.
unfoldable pub any_set : List Str → Dict Str Str → Bool
any_set [] opts = false
any_set (o ∷ os) opts = has o opts || any_set os opts

unfoldable pub all_given : List Str → Dict Str Str → Bool
all_given [] opts = true
all_given (o ∷ os) opts = not (is_empty (opt o opts)) && all_given os opts

abbrev pub named_by_dash : List Str
named_by_dash = str "-init_seg_name" ∷ str "-media_seg_name" ∷ str "-manifest_name" ∷ []

abbrev pub at_least : ℤ → Option ℤ → Result ℤ
at_least low none = refused bad_number
at_least low (some n) = if ltb_ℤ n low then refused bad_number else ok n

-- A number that may be left out: its default, or at least low.
unfoldable pub number_or : ℤ → ℤ → Option Str → Result ℤ
number_or def low none = ok def
number_or def low (some v) = at_least low (atoi v)

abbrev pub positive_duration : Option ℤ → Result ℤ
positive_duration none = refused bad_duration
positive_duration (some d) = if ltb_ℤ (pos 0) d then ok d else refused bad_duration

module _ (fl : Floats) where
  abbrev pub duration_or_zero : Option Str → Result ℤ
  duration_or_zero none = ok (pos 0)
  duration_or_zero (some v) = at_least (pos 0) (seconds fl v)

  unfoldable pub dash_muxer : Dict Str Str → Str → Result Segmenting
  dash_muxer opts target =
      if not (target == str "dash")
      then refused bad_target
      else if not (all_given named_by_dash opts)
      then refused dash_without
      else do
        d ← positive_duration (seconds fl (opt (str "-seg_duration") opts))
        n ← number_or (pos 1) (pos 1) (lookup (str "-skip_to_segment") opts)
        size ← number_or (pos 0) (pos 0) (lookup (str "-window_size") opts)
        ok (record {
          duration = d;
          start_number = n;
          pattern = media_name;
          list_size = size;
          time_delta = pos 0;
        })

  unfoldable pub segment_muxer : Dict Str Str → Str → Str → Result Segmenting
  segment_muxer opts list_url target =
      if not (opt (str "-segment_format") opts == str "mpegts")
      then refused bad_segment_format
      else if not (target == str "media-%05d.ts")
      then refused bad_target
      else do
        d ← positive_duration (seconds fl (opt (str "-segment_time") opts))
        delta ← duration_or_zero (lookup (str "-segment_time_delta") opts)
        n ← number_or (pos 0) (pos 0) (lookup (str "-segment_start_number") opts)
        size ← number_or (pos 0) (pos 0) (lookup (str "-segment_list_size") opts)
        if is_empty list_url
            then refused no_segment_list
            else ok (record {
              duration = d;
              start_number = n;
              pattern = target;
              list_size = size;
              time_delta = delta;
            })

  -- func (j *Job) muxer(opts map[string]string, target string) error: the output and how it is cut.
  unfoldable pub muxer : Dict Str Str → Str → Str → Result (OutputKind × Segmenting)
  muxer opts list_url target =
      let f = opt (str "-f") opts in
      let other = if f == str "dash" then segment_options else dash_options in
      if any_set other opts
      then refused other_muxer
      else if f == str "dash"
      then dash_muxer opts target >>= (λ s. ok (dash, s))
      else if f == str "ssegment"
      then segment_muxer opts list_url target >>= (λ s. ok (hls, s))
      else refused bad_muxer
