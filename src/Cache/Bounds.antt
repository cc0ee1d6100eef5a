-- ===== src/Cache/Bounds.antt =====
-- The inits of an entry, and the limit on its files.
use clusterplex.Prelude.{
  ℕ, zero, suc, ◌+◌, ◌≤◌, ◌≡◌, refl, sym, ap, subst, ◌∙◌, Bool, true, false, Option, none, some, [],
  ◌∷◌, ◌++◌, ==_iff, length, take, arith, Bool-cases, ◌⊎◌, inl, inr, ℤ, pos, length-append, int_eq,
  int_beq_iff, str_eq, nat_eq,
}
use clusterplex.Cache.{
  Bytes, Span, Index, Segment, Entry, Append, written, failed_after, Result, done, append_to,
  read_at, save, reset, Inits, inits, init, as_inits, both_read, same_inits,
}
use clusterplex.Cache.Writes.{
  append_both, Faults, write_init, after_reset, init_written, set_init, size, passes, put,
  put_written,
}
use clusterplex.Cache.Kept.{set_init-same}
use clusterplex.Cache.Spans.{read_at-append_to}

-- Whether the index is saved does not change what init answers.
save-init : (saves : Bool) (e : Entry) → init (save saves e).0 ≡ init e
unfolding save init inits
save-init true e = refl
save-init false e = refl

init-reads :
    (e : Entry) (v a : Bytes)
    → e.idx.has_init ≡ true
    → inits e ≡ some (v, a)
    → init e
      ≡ some (record { video = v; audio = a; timescales = e.idx.timescales; info = e.idx.info })
unfolding init
init-reads e v a has_one reads = ground (arith, has_one, ap (as_inits e.idx) reads)

inits-parts :
    (e : Entry) (v a : Bytes)
    → read_at e.video e.idx.video_init ≡ some v
    → read_at e.audio e.idx.audio_init ≡ some a
    → inits e ≡ some (v, a)
unfolding inits
inits-parts e v a video audio =
    ap (λ o. both_read o (read_at e.audio e.idx.audio_init)) video ∙ ap (both_read (some v)) audio

written-init :
    (wv wa : Append) (saves : Bool) (i : Inits) (e : Entry)
    → (init_written saves i (append_both wv wa i.video i.audio e)).1 ≡ done
    → init (init_written saves i (append_both wv wa i.video i.audio e)).0 ≡ some i
unfolding append_both append_to
written-init written (failed_after k) saves i e d = absurd (ground (arith, d))
written-init (failed_after k) wa saves i e d = absurd (ground (arith, d))
written-init written written saves i e d =
    let vs : Span = record { off = length e.video; len = length i.video } in
    let as_ : Span = record { off = length e.audio; len = length i.audio } in
    let idx : Index = record (e.idx) {
      video_init = vs;
      audio_init = as_;
      timescales = i.timescales;
      info = i.info;
      has_init = true;
    } in
    let g : Entry = record e {
      video = e.video ++ i.video;
      audio = e.audio ++ i.audio;
      idx = idx;
    } in
    let parts =
      inits-parts g i.video i.audio (read_at-append_to e.video i.video)
        (read_at-append_to e.audio i.audio) in
    save-init saves g ∙ init-reads g i.video i.audio refl parts

write_init-init :
    (f : Faults) (i : Inits) (e : Entry)
    → (write_init f i e).1 ≡ done
    → init (write_init f i e).0 ≡ some i
write_init-init f i e d = written-init f.video f.audio f.saves i e d

reset-init :
    (f : Faults) (i : Inits) (r : Entry × Bool)
    → (after_reset f i r).1 ≡ done
    → init (after_reset f i r).0 ≡ some i
reset-init f i (e, true) d = write_init-init f i e d
reset-init f i (e, false) d = absurd (ground (arith, d))

same_inits-parts :
    (ts : ℤ × ℤ) (o : Option (Bytes × Bytes)) (i : Inits)
    → same_inits ts o i ≡ true
    → (o ≡ some (i.video, i.audio)) × (ts.0 ≡ i.timescales.0) × (ts.1 ≡ i.timescales.1)
same_inits-parts ts none i h = absurd (ground (arith, h))
same_inits-parts ts (some (v, a)) i h =
    let video : v ≡ i.video = ground (arith, h, ==_iff v i.video) in
    let audio : a ≡ i.audio = ground (arith, h, ==_iff a i.audio) in
    (
      ap (λ x. some (x, a)) video ∙ ap (λ x. some (i.video, x)) audio,
      ground (arith, h, int_beq_iff ts.0 i.timescales.0),
      ground (arith, h, int_beq_iff ts.1 i.timescales.1),
    )

kept-init :
    (saves : Bool) (i : Inits) (e : Entry)
    → e.idx.has_init ≡ true
    → same_inits e.idx.timescales (inits e) i ≡ true
    → init (save saves (record e { idx = record (e.idx) { info = i.info } })).0 ≡ some i
unfolding inits
kept-init saves i e has_one same =
    let g : Entry = record e { idx = record (e.idx) { info = i.info } } in
    let (reads, first, second) = same_inits-parts e.idx.timescales (inits e) i same in
    save-init saves g
    ∙ init-reads g i.video i.audio has_one reads
    ∙ ap (λ t. some (record i { timescales = (t, e.idx.timescales.1) })) first
    ∙ ap (λ t. some (record i { timescales = (i.timescales.0, t) })) second

by_way :
    {q r : Entry × Result} (i : Inits)
    → q ≡ r
    → (r.1 ≡ done → init r.0 ≡ some i)
    → q.1 ≡ done
    → init q.0 ≡ some i
by_way i e h = subst (λ x. x.1 ≡ done → init x.0 ≡ some i) (sym e) h

set_init-empty :
    (f : Faults) (now : ℕ) (i : Inits) (e : Entry)
    → e.idx.has_init ≡ false
    → set_init f now i e ≡ write_init f i e
unfolding set_init
set_init-empty f now i e empty = ground (arith, empty)

set_init-other :
    (f : Faults) (now : ℕ) (i : Inits) (e : Entry)
    → e.idx.has_init ≡ true
    → same_inits e.idx.timescales (inits e) i ≡ false
    → set_init f now i e ≡ after_reset f i (reset f.removed now e)
unfolding set_init
set_init-other f now i e has_one other = ground (arith, has_one, other)

-- Once SetInit succeeds, Init answers those inits, whether the entry held none, the same or others.
pub set_init-init :
    (f : Faults) (now : ℕ) (i : Inits) (e : Entry)
    → (set_init f now i e).1 ≡ done
    → init (set_init f now i e).0 ≡ some i
set_init-init f now i e d = elim (Bool-cases (e.idx.has_init)) [
  | inr empty ↦ by_way i (set_init-empty f now i e empty) (write_init-init f i e) d
  | inl has_one ↦ elim (Bool-cases (same_inits e.idx.timescales (inits e) i)) [
    | inl same ↦
        by_way i (set_init-same f now i e has_one same) (λ x. kept-init f.saves i e has_one same) d
    | inr other ↦
        by_way i (set_init-other f now i e has_one other) (reset-init f i (reset f.removed now e)) d
  ]
]

length-take-le : (k : ℕ) (new : Bytes) → length (take k new) ≤ length new
length-take-le zero new = omega arith
length-take-le (suc k) [] = omega arith
length-take-le (suc k) (x ∷ new) = let fewer = length-take-le k new in omega arith

size-append_both :
    (wv wa : Append) (video audio : Bytes) (e : Entry)
    → size (append_both wv wa video audio e).0 ≤ size e + (length video + length audio)
unfolding size append_both append_to
size-append_both written written video audio e =
    omega (arith, length-append e.video video, length-append e.audio audio)
size-append_both written (failed_after k) video audio e =
    let few = length-take-le k audio in
    omega (arith, length-append e.video video, length-append e.audio (take k audio))
size-append_both (failed_after k) wa video audio e =
    let few = length-take-le k video in omega (arith, length-append e.video (take k video))

size-put_written :
    (saves : Bool) (now : ℕ) (s : Segment) (r : Entry × Option (Span × Span))
    → size (put_written saves now s r).0 ≡ size r.0
unfolding size save
size-put_written saves now s (e, none) = refl
size-put_written true now s (e, some (vs, as_)) = refl
size-put_written false now s (e, some (vs, as_)) = refl

put-fits :
    (max : ℤ) (f : Faults) (now : ℕ) (s : Segment) (e : Entry)
    → ((put max f now s e).0 ≡ e)
      ⊎ (passes max (size e + (length s.video.data_bytes + length s.audio.data_bytes)) ≡ false)
        × (put max f now s e
            ≡ put_written f.saves now s
                (append_both f.video f.audio s.video.data_bytes s.audio.data_bytes e))
unfolding put
put-fits max f now s e = ground arith

-- Put keeps an entry's files within the limit, where there is one, also where it fails on the way.
pub size-put :
    (max : ℕ) (f : Faults) (now : ℕ) (s : Segment) (e : Entry)
    → size e ≤ suc max
    → size (put (pos (suc max)) f now s e).0 ≤ suc max
unfolding passes
size-put max f now s e h = elim (put-fits (pos (suc max)) f now s e) [
  | inl same ↦ subst (λ x. size x ≤ suc max) (sym same) h
  | inr (fits, wrote) ↦
      let grown = size-append_both f.video f.audio s.video.data_bytes s.audio.data_bytes e in
      let appended = append_both f.video f.audio s.video.data_bytes s.audio.data_bytes e in
      let size_is = ap (λ r. size r.0) wrote ∙ size-put_written f.saves now s appended in
      let within : size e + (length s.video.data_bytes + length s.audio.data_bytes) ≤ suc max =
        ground (arith, fits) in
      omega (arith, size_is, grown, within)
]
