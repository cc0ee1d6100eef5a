-- ===== src/Video/Encoded.antt =====
-- The video output of a job, and the option that asked for it.
use clusterplex.Prelude.{
  int_eq, ℕ, ◌+◌, true, none, some, List, [], ◌∷◌, if◌then◌else◌, ==_iff, ◌≡◌, refl, sym, ap, ◌∙◌,
  ◌⊎◌, inl, inr, Option-cases, ℤ, pos, Str, str, str_eq, length, All, subst, arith,
}
use clusterplex.Dict.{Dict, lookup, is_some}
use clusterplex.Video.Job.{ok, refused, fold_ok, stray_output, no_video}
use clusterplex.Video.Filter.{Chain, resolve}
use clusterplex.Video.Scan.{Floats, per_out_of}
use clusterplex.Video.Outputs.{Output, opt, text_at}
use clusterplex.Video.Streams.{OutputsRead, read_output, outs_from, outputs, with_video, all_below}
use clusterplex.Video.Recorded.{bind_ok, ok_inj, codec_at, if_ok}

-- An output with the options of some index.
abbrev FromIndex : Dict ℤ (Dict Str Str) → Output → Type 0
FromIndex per_out o = (i : ℤ) × (o.opts ≡ per_out_of (lookup i per_out))

outs_from-FromIndex :
    (chains : List Chain) (per_out : Dict ℤ (Dict Str Str)) (i : ℕ) (maps : List Str)
    (outs : List Output)
    → outs_from chains per_out i maps ≡ ok outs
    → All (FromIndex per_out) outs
unfolding outs_from
outs_from-FromIndex chains per_out i [] outs e = subst (All (FromIndex per_out)) (ok_inj e) tt
outs_from-FromIndex chains per_out i (m ∷ maps) outs e =
    let (s, _, f) = bind_ok (resolve chains m) _ outs e in
    let (os, later, g) = bind_ok (outs_from chains per_out (i + 1) maps) _ outs f in
    let others = outs_from-FromIndex chains per_out (i + 1) maps os later in
    subst (All (FromIndex per_out)) (ok_inj g) ((pos i, refl), others)

opt-lookup :
    (k : Str) (m : Dict Str Str) → opt k m ≡ str "libx264" → lookup k m ≡ some (str "libx264")
unfolding opt
opt-lookup k m e = elim (Option-cases (lookup k m)) [
  | inl gone ↦ absurd (ground (arith, sym (ap text_at gone) ∙ e))
  | inr (v, found) ↦ found ∙ ap (λ x. some x) (sym (ap text_at found) ∙ e)
]

index_codec :
    (p : Dict ℤ (Dict Str Str)) (o : Output) (i : ℤ)
    → o.opts ≡ per_out_of (lookup i p)
    → lookup (str "-codec") o.opts ≡ some (str "libx264")
    → codec_at i p ≡ some (str "libx264")
unfolding codec_at
index_codec p o i from found = ap (lookup (str "-codec")) (sym from) ∙ found

module _ (fl : Floats) where
  read_output-video :
      (s t : OutputsRead) (o : Output)
      → read_output fl s o ≡ ok t
      → is_some t.video ≡ true
      → (is_some s.video ≡ true) ⊎ (opt (str "-codec") o.opts ≡ str "libx264")
  unfolding read_output
  read_output-video s t o e v =
      ground (arith, e, v, ==_iff (opt (str "-codec") o.opts) (str "libx264"))

  fold-video :
      (per_out : Dict ℤ (Dict Str Str)) (outs : List Output) (s t : OutputsRead)
      → All (FromIndex per_out) outs
      → fold_ok (read_output fl) s outs ≡ ok t
      → is_some t.video ≡ true
      → (is_some s.video ≡ true) ⊎ (i : ℤ) × (codec_at i per_out ≡ some (str "libx264"))
  unfolding fold_ok
  fold-video per_out [] s t a e v = inl (ap (λ x. is_some x.video) (ok_inj e) ∙ v)
  fold-video per_out (o ∷ outs) s t a e v =
      let (m, r, f) = bind_ok (read_output fl s o) _ t e in
      elim (fold-video per_out outs m t a.1 f v) [
        | inr found ↦ inr found
        | inl before ↦ elim (read_output-video s m o r before) [
          | inl earlier ↦ inl earlier
          | inr asked ↦
              let (i, from) = a.0 in
              inr (i, index_codec per_out o i from (opt-lookup (str "-codec") o.opts asked))
        ]
      ]

  pub outputs-codec :
      (maps : List Str) (chains : List Chain) (per_out : Dict ℤ (Dict Str Str)) (o : OutputsRead)
      → outputs fl maps chains per_out ≡ ok o
      → (i : ℤ) × (codec_at i per_out ≡ some (str "libx264"))
  unfolding outputs
  outputs-codec maps chains per_out o e =
      let (os, resolved, f) = bind_ok (outs_from chains per_out 0 maps) _ o e in
      let gather =
        fold_ok (read_output fl) (record { video = none; audio = none; burn = none }) os in
      let below = all_below (length maps) per_out in
      let (s, read, g) =
        bind_ok (if below then gather else refused stray_output) (with_video fl) o f in
      let (_, all_read) = if_ok below gather stray_output read in
      let has_video = if_ok (is_some s.video) (ok s) no_video g in
      elim (fold-video per_out os _ s (outs_from-FromIndex chains per_out 0 maps os resolved)
        all_read has_video.0) [ inl before ↦ absurd (ground (arith, before)) | inr found ↦ found ]
