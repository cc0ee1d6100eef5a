-- ===== src/Video/Muxed.antt =====
-- Which muxer accepted an output.
use clusterplex.Prelude.{
  Bool, true, false, ◌==◌, ◌≡◌, ap, ◌∙◌, ◌⊎◌, inl, inr, Str, str, str_eq, arith,
}
use clusterplex.Dict.{Dict}
use clusterplex.Slots.{OutputKind, hls, dash}
use clusterplex.Video.Job.{Result, ok, refused, ◌>>=◌, bad_muxer, Segmenting}
use clusterplex.Video.Scan.{Floats}
use clusterplex.Video.Outputs.{opt}
use clusterplex.Video.Muxer.{muxer, dash_muxer, segment_muxer}
use clusterplex.Video.Recorded.{bind_ok, ok_inj, not_ok}

module _ (fl : Floats) (opts : Dict Str Str) (target url : Str) where
  abbrev by_format : Bool → Bool → Result (OutputKind × Segmenting)
  by_format true c = dash_muxer fl opts target >>= (λ s. ok (dash, s))
  by_format false true = segment_muxer fl opts url target >>= (λ s. ok (hls, s))
  by_format false false = refused bad_muxer

  by_format-ok :
      (m : OutputKind × Segmenting) (b c : Bool)
      → by_format b c ≡ ok m
      → (dash_muxer fl opts target ≡ ok m.1) ⊎ (segment_muxer fl opts url target ≡ ok m.1)
  by_format-ok m true c e =
      let (s, f, g) = bind_ok (dash_muxer fl opts target) _ m e in
      inl (f ∙ ap (λ x. ok x.1) (ok_inj g))
  by_format-ok m false true e =
      let (s, f, g) = bind_ok (segment_muxer fl opts url target) _ m e in
      inr (f ∙ ap (λ x. ok x.1) (ok_inj g))
  by_format-ok m false false e = not_ok _ e

  pub muxer-format :
      (m : OutputKind × Segmenting)
      → muxer fl opts url target ≡ ok m
      → (dash_muxer fl opts target ≡ ok m.1) ⊎ (segment_muxer fl opts url target ≡ ok m.1)
  unfolding muxer
  muxer-format m e =
      let format = opt (str "-f") opts in
      let formatted : by_format (format == str "dash") (format == str "ssegment") ≡ ok m =
        ground (arith, e) in
      by_format-ok m (format == str "dash") (format == str "ssegment") formatted
