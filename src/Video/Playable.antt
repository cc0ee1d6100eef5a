-- ===== src/Video/Playable.antt =====
-- The outputs that a job is accepted with: what the encoder and the muxer are given.
use clusterplex.Prelude.{
  int_beq, int_eq, ℕ, true, false, Option, none, some, List, [], ◌∷◌, if◌then◌else◌, ◌==◌, ◌≡◌, ◌≢◌,
  refl, sym, ap, ◌∙◌, ◌⊎◌, inl, inr, ℤ, pos, negsuc, ltb_ℤ, leb_ℤ, Str, str, str_eq, subst, arith,
  nat_eq,
}
use clusterplex.Video.Job.{
  Result, ok, refused, ◌>>=◌, fold_ok, no_scale_format, no_rate, BurnIn, VideoOut,
}
use clusterplex.Video.Filter.{Kv, Filter, Overlay}
use clusterplex.Video.Scan.{Floats}
use clusterplex.Video.Burn.{inline_style, image_burn}
use clusterplex.Video.Outputs.{
  Output, VideoRead, is_positive, scale_arg, format_arg, pix_fmt_of, video_filter, video_option,
  scaled_and_formatted, rated, video_out, overlaid, no_video_yet, text_burned,
}
use clusterplex.Video.Recorded.{bind_ok, ok_inj, not_ok, if_ok}

-- A loop whose body keeps a property.
pub fold_ok-keeps :
    {S A : Type 0} (P : S → Type 0) (f : S → A → Result S)
    → ((s t : S) (x : A) → f s x ≡ ok t → P s → P t)
    → (s t : S) (xs : List A) → fold_ok f s xs ≡ ok t
    → P s
    → P t
unfolding fold_ok
fold_ok-keeps P f k s t [] e p = subst P (ok_inj e) p
fold_ok-keeps P f k s t (x ∷ xs) e p =
    let (m, r, g) = bind_ok (f s x) _ t e in fold_ok-keeps P f k m t xs g (k s m x r p)

-- What a size and a pixel format are while the filters are read.
abbrev IsSized : VideoOut → Type 0
IsSized v =
    (leb_ℤ (pos 0) v.width ≡ true)
    × (leb_ℤ (pos 0) v.height ≡ true)
    × ((v.pix_fmt ≡ []) ⊎ (v.pix_fmt ≡ str "nv12") ⊎ (v.pix_fmt ≡ str "yuv420p"))

is_positive-ltb : (o : Option ℤ) (n : ℤ) → is_positive o ≡ some n → ltb_ℤ (pos 0) n ≡ true
is_positive-ltb o n e = ground (arith, e)

scale_arg-IsSized : (v t : VideoOut) (a : Kv) → scale_arg v a ≡ ok t → IsSized v → IsSized t
unfolding scale_arg
scale_arg-IsSized v t a e p = ground (arith, e, p)

pix_fmt_of-named :
    (fmts pf : Str) → pix_fmt_of fmts ≡ ok pf → (pf ≡ str "nv12") ⊎ (pf ≡ str "yuv420p")
unfolding pix_fmt_of
pix_fmt_of-named fmts pf e = ground (arith, e)

-- A video output as the encoder takes it.
pub record IsPlayable (v : VideoOut) : Type 0 where
  pub wide : ltb_ℤ (pos 0) v.width ≡ true
  pub high : ltb_ℤ (pos 0) v.height ≡ true
  pub formatted : (v.pix_fmt ≡ str "nv12") ⊎ (v.pix_fmt ≡ str "yuv420p")
  pub rate_read : v.frame_rate.den ≢ 0
  pub has_keyframes : ltb_ℤ (pos 0) v.keyframe_every ≡ true
  pub has_max_rate : ltb_ℤ (pos 0) v.max_rate ≡ true
  pub has_buf_size : ltb_ℤ (pos 0) v.buf_size ≡ true

-- What the options of an output leave as the filters made it.
abbrev SameShape : VideoOut → VideoOut → Type 0
SameShape v w = (w.width ≡ v.width) × (w.height ≡ v.height) × (w.pix_fmt ≡ v.pix_fmt)

text_burned-video :
    (s : VideoRead) (b : Option BurnIn) (t : VideoRead) (style : Str)
    → text_burned s b style ≡ ok t
    → t.video ≡ s.video
text_burned-video s none t style e = ap (λ x. x.video) (sym (ok_inj e))
text_burned-video s (some b) t style e = not_ok _ e

scaled-IsSized :
    (s t : VideoRead) (args : List Kv)
    → (fold_ok scale_arg s.video args >>= (λ v. ok (record s { video = v }))) ≡ ok t
    → IsSized s.video
    → IsSized t.video
scaled-IsSized s t args e p =
    let (v, read, f) = bind_ok (fold_ok scale_arg s.video args) _ t e in
    let sized = fold_ok-keeps IsSized scale_arg scale_arg-IsSized s.video v args read p in
    subst IsSized (ap (λ x. x.video) (ok_inj f)) sized

burned-IsSized :
    (s t : VideoRead) (style : Result Str)
    → (style >>= (λ st. text_burned s s.burn st)) ≡ ok t
    → IsSized s.video
    → IsSized t.video
burned-IsSized s t style e p =
    let (st, _, f) = bind_ok style _ t e in ground (arith, text_burned-video s s.burn t st f, p)

formatted-IsSized :
    (s t : VideoRead) (args : List Kv)
    → (fold_ok format_arg [] args >>= (λ fmts.
        pix_fmt_of fmts >>= (λ pf. ok (record s { video = record (s.video) { pix_fmt = pf } }))))
      ≡ ok t
    → IsSized s.video
    → IsSized t.video
formatted-IsSized s t args e p =
    let (fmts, _, f) = bind_ok (fold_ok format_arg [] args) _ t e in
    let (pf, named, g) = bind_ok (pix_fmt_of fmts) _ t f in
    let is_named = pix_fmt_of-named fmts pf named in
    subst IsSized (ap (λ x. x.video) (ok_inj g)) (p.0, p.1, inr is_named)

module _ (fl : Floats) where
  video_filter-IsSized :
      (s t : VideoRead) (f : Filter)
      → video_filter fl s f ≡ ok t
      → IsSized s.video
      → IsSized t.video
  unfolding video_filter
  video_filter-IsSized s t f e p = ground (
    arith,
    e,
    p,
    scaled-IsSized s t f.args,
    burned-IsSized s t (inline_style fl f.args),
    formatted-IsSized s t f.args,
  )

  video_option-SameShape :
      (u : VideoOut) (v t : VideoOut) (o : Str × Str)
      → video_option fl v o ≡ ok t
      → SameShape u v
      → SameShape u t
  unfolding video_option
  video_option-SameShape u v t (k, val) e p = ground (arith, e, p)

positive_size : (n : ℤ) → leb_ℤ (pos 0) n ≡ true → (n == pos 0) ≡ false → ltb_ℤ (pos 0) n ≡ true
unfolding int_beq
positive_size (pos n) h e = ground (arith, e)
positive_size (negsuc n) h e = ground (arith, h)

sized :
    (v : VideoOut)
    → scaled_and_formatted v ≡ true
    → ((v.width == pos 0) ≡ false) × ((v.height == pos 0) ≡ false) × (v.pix_fmt ≢ [])
unfolding scaled_and_formatted
sized v e = (ground (arith, e), ground (arith, e), ground (arith, e))

named_format :
    (f g : Str)
    → g ≡ f
    → f ≢ []
    → (f ≡ []) ⊎ (f ≡ str "nv12") ⊎ (f ≡ str "yuv420p")
    → (g ≡ str "nv12") ⊎ (g ≡ str "yuv420p")
named_format f g e n (inl empty) = absurd (n empty)
named_format f g e n (inr (inl nv12)) = inl (e ∙ nv12)
named_format f g e n (inr (inr yuv)) = inr (e ∙ yuv)

playable :
    (v w : VideoOut)
    → IsSized v
    → scaled_and_formatted v ≡ true
    → SameShape v w
    → rated w ≡ true
    → IsPlayable w
unfolding rated
playable v w p e same r =
    let (width, height, format) = sized v e in
    let wide = positive_size v.width p.0 width in
    let high = positive_size v.height p.1 height in
    record {
      wide = ap (ltb_ℤ (pos 0)) same.0 ∙ wide;
      high = ap (ltb_ℤ (pos 0)) same.1 ∙ high;
      formatted = named_format v.pix_fmt w.pix_fmt same.2 format p.2;
      rate_read = ground (arith, r);
      has_keyframes = ground (arith, r);
      has_max_rate = ground (arith, r);
      has_buf_size = ground (arith, r);
    }

overlaid-video :
    (src : ℕ) (o : Option Overlay) (s t : VideoRead) → overlaid src o s ≡ ok t → t.video ≡ s.video
overlaid-video src none s t e = ap (λ x. x.video) (sym (ok_inj e))
overlaid-video src (some o) s t e =
    let (b, _, f) = bind_ok (image_burn s.burn src s.video o) _ t e in
    ap (λ x. x.video) (sym (ok_inj f))

-- What videoOut reads is playable.
pub video_out-IsPlayable :
    (fl : Floats) (burn : Option BurnIn) (o : Output) (t : VideoRead)
    → video_out fl burn o ≡ ok t
    → IsPlayable t.video
unfolding video_out
video_out-IsPlayable fl burn o t e =
    let start : VideoRead = record { video = no_video_yet o.src; burn = burn } in
    let (s, filters, f) = bind_ok (fold_ok (video_filter fl) start o.filters) _ t e in
    let scaled = scaled_and_formatted s.video in
    let (u, over, g) =
      bind_ok (if scaled then overlaid o.src o.overlay s else refused no_scale_format) _ t f in
    let (is_scaled, drawn) = if_ok scaled (overlaid o.src o.overlay s) no_scale_format over in
    let (v, options, h) = bind_ok (fold_ok (video_option fl) u.video o.opts) _ t g in
    let (is_rated, last) = if_ok (rated v) (ok (record u { video = v })) no_rate h in
    let shape =
      fold_ok-keeps (λ r. IsSized r.video) (video_filter fl) (video_filter-IsSized fl) start s
        o.filters filters (refl, refl, inl refl) in
    let same =
      fold_ok-keeps (SameShape u.video) (video_option fl) (video_option-SameShape fl u.video)
        u.video v o.opts options (refl, refl, refl) in
    let kept = overlaid-video o.src o.overlay s u drawn in
    let made = playable s.video v shape is_scaled (subst (λ x. SameShape x v) kept same) is_rated in
    subst IsPlayable (ap (λ x. x.video) (ok_inj last)) made
