-- ===== src/Video/Cut.antt =====
-- How the output of an accepted job is cut.
use clusterplex.Prelude.{
  int_eq, true, not, Option, none, some, ◌==◌, ◌≡◌, refl, inl, inr, ℤ, pos, ltb_ℤ, leb_ℤ, Str, str,
  str_eq, is_empty, subst, arith, nat_eq,
}
use clusterplex.Dict.{Dict, lookup}
use clusterplex.Slots.{OutputKind}
use clusterplex.Video.Strings.{atoi}
use clusterplex.Video.Job.{
  ok, bad_target, dash_without, bad_segment_format, no_segment_list, Segmenting,
}
use clusterplex.Video.Scan.{Floats}
use clusterplex.Video.Numbers.{seconds}
use clusterplex.Video.Outputs.{opt}
use clusterplex.Video.Muxer.{
  muxer, dash_muxer, segment_muxer, all_given, number_or, at_least, positive_duration,
  duration_or_zero, named_by_dash,
}
use clusterplex.Video.Recorded.{bind_ok, ok_inj, unless_ok}
use clusterplex.Video.Muxed.{muxer-format}

-- How an output is cut: a duration, and numbers that are not negative.
pub record IsCut (s : Segmenting) : Type 0 where
  pub lasts : ltb_ℤ (pos 0) s.duration ≡ true
  pub numbered : leb_ℤ (pos 0) s.start_number ≡ true
  pub listed : leb_ℤ (pos 0) s.list_size ≡ true
  pub delayed : leb_ℤ (pos 0) s.time_delta ≡ true

at_least-leb : (low n : ℤ) (o : Option ℤ) → at_least low o ≡ ok n → leb_ℤ low n ≡ true
at_least-leb low n o e = ground (arith, e)

positive_duration-ltb : (o : Option ℤ) (n : ℤ) → positive_duration o ≡ ok n → ltb_ℤ (pos 0) n ≡ true
positive_duration-ltb o n e = ground (arith, e)

number_or-leb :
    (def low n : ℤ) (o : Option Str)
    → leb_ℤ low def ≡ true
    → number_or def low o ≡ ok n
    → leb_ℤ low n ≡ true
unfolding number_or
number_or-leb def low n none h e = ground (arith, h, e)
number_or-leb def low n (some v) h e = at_least-leb low n (atoi v) e

module _ (fl : Floats) where
  duration_or_zero-leb :
      (o : Option Str) (n : ℤ) → duration_or_zero fl o ≡ ok n → leb_ℤ (pos 0) n ≡ true
  duration_or_zero-leb none n e = ground (arith, e)
  duration_or_zero-leb (some v) n e = at_least-leb (pos 0) n (seconds fl v) e

  dash_muxer-IsCut :
      (opts : Dict Str Str) (target : Str) (s : Segmenting)
      → dash_muxer fl opts target ≡ ok s
      → IsCut s
  unfolding dash_muxer
  dash_muxer-IsCut opts target s e =
      let (_, e1) = unless_ok (not (target == str "dash")) _ bad_target e in
      let (_, e2) = unless_ok (not (all_given named_by_dash opts)) _ dash_without e1 in
      let (d, lasts, e3) =
        bind_ok (positive_duration (seconds fl (opt (str "-seg_duration") opts))) _ s e2 in
      let (n, first, e4) =
        bind_ok (number_or (pos 1) (pos 1) (lookup (str "-skip_to_segment") opts)) _ s e3 in
      let (size, list, e5) =
        bind_ok (number_or (pos 0) (pos 0) (lookup (str "-window_size") opts)) _ s e4 in
      let from_one =
        number_or-leb (pos 1) (pos 1) n (lookup (str "-skip_to_segment") opts) refl first in
      subst IsCut (ok_inj e5) (record {
        lasts = positive_duration-ltb (seconds fl (opt (str "-seg_duration") opts)) d lasts;
        numbered = ground (arith, from_one);
        listed = number_or-leb (pos 0) (pos 0) size (lookup (str "-window_size") opts) refl list;
        delayed = refl;
      })

  segment_muxer-IsCut :
      (opts : Dict Str Str) (url target : Str) (s : Segmenting)
      → segment_muxer fl opts url target ≡ ok s
      → IsCut s
  unfolding segment_muxer
  segment_muxer-IsCut opts url target s e =
      let format = opt (str "-segment_format") opts in
      let (_, e1) = unless_ok (not (format == str "mpegts")) _ bad_segment_format e in
      let (_, e2) = unless_ok (not (target == str "media-%05d.ts")) _ bad_target e1 in
      let (d, lasts, e3) =
        bind_ok (positive_duration (seconds fl (opt (str "-segment_time") opts))) _ s e2 in
      let (delta, delay, e4) =
        bind_ok (duration_or_zero fl (lookup (str "-segment_time_delta") opts)) _ s e3 in
      let (n, first, e5) =
        bind_ok (number_or (pos 0) (pos 0) (lookup (str "-segment_start_number") opts)) _ s e4 in
      let (size, list, e6) =
        bind_ok (number_or (pos 0) (pos 0) (lookup (str "-segment_list_size") opts)) _ s e5 in
      let (_, last) = unless_ok (is_empty url) _ no_segment_list e6 in
      subst IsCut (ok_inj last) (record {
        lasts = positive_duration-ltb (seconds fl (opt (str "-segment_time") opts)) d lasts;
        numbered =
            number_or-leb (pos 0) (pos 0) n (lookup (str "-segment_start_number") opts) refl first;
        listed =
            number_or-leb (pos 0) (pos 0) size (lookup (str "-segment_list_size") opts) refl list;
        delayed = duration_or_zero-leb (lookup (str "-segment_time_delta") opts) delta delay;
      })

  pub muxer-IsCut :
      (opts : Dict Str Str) (url target : Str) (m : OutputKind × Segmenting)
      → muxer fl opts url target ≡ ok m
      → IsCut m.1
  muxer-IsCut opts url target m e = elim (muxer-format fl opts target url m e) [
    | inl by_dash ↦ dash_muxer-IsCut opts target m.1 by_dash
    | inr by_segments ↦ segment_muxer-IsCut opts url target m.1 by_segments
  ]
