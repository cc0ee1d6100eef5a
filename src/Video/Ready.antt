-- ===== src/Video/Ready.antt =====
-- What the outputs of an accepted job are: a video that is playable, and an audio that is copied or has a
-- bit rate.
use clusterplex.Prelude.{
  int_beq_iff, int_eq, true, not, ◌&&◌, Option, none, some, List, if◌then◌else◌, ◌==◌, ◌≡◌, ◌≢◌,
  ◌⊎◌, inl, inr, ℤ, pos, Str, str_eq, length, subst, arith, nat_eq,
}
use clusterplex.Dict.{Dict, is_some}
use clusterplex.Video.Job.{ok, refused, fold_ok, no_bit_rate, stray_output, no_video, AudioOut}
use clusterplex.Video.Filter.{Chain}
use clusterplex.Video.Scan.{Floats}
use clusterplex.Video.Outputs.{Output, video_out}
use clusterplex.Video.Streams.{
  OutputsRead, audio_out, audio_option, audio_filter, read_output, as_video, as_audio, outs_from,
  outputs, all_below, with_video,
}
use clusterplex.Video.Recorded.{bind_ok, ok_inj, if_ok, unless_ok}
use clusterplex.Video.Playable.{IsPlayable, video_out-IsPlayable, fold_ok-keeps}

-- An audio output is copied, or its bit rate is not 0.
abbrev pub HasBitRate : AudioOut → Type 0
HasBitRate a = (a.copy ≡ true) ⊎ (a.bit_rate ≢ pos 0)

audio_out-HasBitRate : (o : Output) (a : AudioOut) → audio_out o ≡ ok a → HasBitRate a
unfolding audio_out
audio_out-HasBitRate o a e =
    let (b, filtered, f) = bind_ok (fold_ok audio_filter _ o.filters) _ a e in
    let (c, options, g) = bind_ok (fold_ok audio_option b o.opts) _ a f in
    let (has_rate, last) = unless_ok (not c.copy && c.bit_rate == pos 0) (ok c) no_bit_rate g in
    subst HasBitRate (ok_inj last) (ground (arith, has_rate, int_beq_iff c.bit_rate (pos 0)))

-- What there is of some values has a property.
abbrev pub IfAny : {A : Type 0} → (A → Type 0) → Option A → Type 0
IfAny P none = Unit
IfAny P (some a) = P a

abbrev AreReady : OutputsRead → Type 0
AreReady s = IfAny IsPlayable s.video × IfAny HasBitRate s.audio

module _ (fl : Floats) where
  as_video-AreReady :
      (s t : OutputsRead) (o : Output) → as_video fl s o ≡ ok t → AreReady s → AreReady t
  as_video-AreReady s t o e p =
      let (r, read, f) = bind_ok (video_out fl s.burn o) _ t e in
      subst AreReady (ok_inj f) (video_out-IsPlayable fl s.burn o r read, p.1)

  as_audio-AreReady :
      (s t : OutputsRead) (o : Output) → as_audio fl s o ≡ ok t → AreReady s → AreReady t
  as_audio-AreReady s t o e p =
      let (a, read, f) = bind_ok (audio_out o) _ t e in
      subst AreReady (ok_inj f) (p.0, audio_out-HasBitRate o a read)

  read_output-as :
      (s t : OutputsRead) (o : Output)
      → read_output fl s o ≡ ok t
      → (as_video fl s o ≡ ok t) ⊎ (as_audio fl s o ≡ ok t)
  unfolding read_output
  read_output-as s t o e = ground (arith, e)

  read_output-AreReady :
      (s t : OutputsRead) (o : Output) → read_output fl s o ≡ ok t → AreReady s → AreReady t
  read_output-AreReady s t o e p = elim (read_output-as s t o e) [
    | inl video ↦ as_video-AreReady s t o video p
    | inr audio ↦ as_audio-AreReady s t o audio p
  ]

  pub outputs-AreReady :
      (maps : List Str) (chains : List Chain) (per_out : Dict ℤ (Dict Str Str)) (o : OutputsRead)
      → outputs fl maps chains per_out ≡ ok o
      → AreReady o × (is_some o.video ≡ true)
  unfolding outputs
  outputs-AreReady maps chains per_out o e =
      let (os, resolved, f) = bind_ok (outs_from chains per_out 0 maps) _ o e in
      let start : OutputsRead = record { video = none; audio = none; burn = none } in
      let gather = fold_ok (read_output fl) start os in
      let below = all_below (length maps) per_out in
      let (s, read, g) =
        bind_ok (if below then gather else refused stray_output) (with_video fl) o f in
      let (_, all_read) = if_ok below gather stray_output read in
      let (has_video, same) = if_ok (is_some s.video) (ok s) no_video g in
      let ready =
        fold_ok-keeps AreReady (read_output fl) read_output-AreReady start s os all_read (tt, tt) in
      subst (λ x. AreReady x × (is_some x.video ≡ true)) (ok_inj same) (ready, has_video)
