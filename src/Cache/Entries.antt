-- ===== src/Cache/Entries.antt =====
-- What an entry holds, through appends that fail, saves that fail and restarts of the worker.
use clusterplex.Prelude.{
  ++-[], ◌≡◌, refl, sym, ap, subst, ◌∙◌, Bool, true, false, Option, none, some, [], ◌++◌, take,
  arith, ◌⊎◌, inl, inr, ℤ, int_eq,
}
use clusterplex.Dict.{lookup}
use clusterplex.Cache.{
  Bytes, Span, Record, Index, holds, Segment, Entry, Append, written, failed_after, append_to,
  read_at, save,
}
use clusterplex.Cache.Writes.{append_both, found, read_both, read_record}
use clusterplex.Cache.Spans.{read_at-append}

-- The files of an entry grew.
abbrev pub Grows : Entry → Entry → Type 0
Grows e f = ((x : Bytes) × (f.video ≡ e.video ++ x)) × ((y : Bytes) × (f.audio ≡ e.audio ++ y))

read_grown :
    (file bigger : Bytes) (s : Span) (o : Option Bytes)
    → (x : Bytes) × (bigger ≡ file ++ x)
    → read_at file s ≡ o
    → (o ≡ none) ⊎ (read_at bigger s ≡ o)
read_grown file bigger s none g e = inl refl
read_grown file bigger s (some new) (x, g) e =
    inr (subst (λ b. read_at b s ≡ some new) (sym g) (read_at-append file x new s e))

-- Two reads that both succeed, or fail, or go as two others.
read_both-grows :
    (n : ℤ) (r : Record) (s : Segment) (v v2 a a2 : Option Bytes)
    → (v ≡ none) ⊎ (v2 ≡ v)
    → (a ≡ none) ⊎ (a2 ≡ a)
    → read_both n r v a ≡ found s
    → read_both n r v2 a2 ≡ found s
read_both-grows n r s none v2 a a2 g k h = absurd (ground (arith, h))
read_both-grows n r s (some v) v2 none a2 g k h = absurd (ground (arith, h))
read_both-grows n r s (some v) v2 (some a) a2 g k h = ground (arith, g, k, h)

pub read_record-Grows :
    (e f : Entry) (n : ℤ) (o : Option Record) (s : Segment)
    → Grows e f
    → read_record e n o ≡ found s
    → read_record f n o ≡ found s
read_record-Grows e f n none s g h = h
read_record-Grows e f n (some r) s g h =
    read_both-grows n r s (read_at e.video r.video.span) (read_at f.video r.video.span)
      (read_at e.audio r.audio.span) (read_at f.audio r.audio.span)
      (read_grown e.video f.video r.video.span _ g.0 refl)
      (read_grown e.audio f.audio r.audio.span _ g.1 refl) h

pub unchanged : (file : Bytes) → (x : Bytes) × (file ≡ file ++ x)
unchanged file = ([], sym (++-[] file))

pub append_both-Grows :
    (wv wa : Append) (video audio : Bytes) (e : Entry) → Grows e (append_both wv wa video audio e).0
unfolding append_both append_to
append_both-Grows written written video audio e = ((video, refl), (audio, refl))
append_both-Grows written (failed_after k) video audio e = ((video, refl), (take k audio, refl))
append_both-Grows (failed_after k) wa video audio e = ((take k video, refl), unchanged e.audio)

-- What the appends leave as it was.
pub append_both-keeps :
    (wv wa : Append) (video audio : Bytes) (e : Entry)
    → ((append_both wv wa video audio e).0.idx ≡ e.idx)
      × ((append_both wv wa video audio e).0.saved ≡ e.saved)
unfolding append_both append_to
append_both-keeps written written video audio e = (refl, refl)
append_both-keeps written (failed_after k) video audio e = (refl, refl)
append_both-keeps (failed_after k) wa video audio e = (refl, refl)

-- What the index i says of a segment is that it reads back as s.
abbrev pub Reads : ℤ → Segment → Entry → Index → Type 0
Reads n s e i = read_record e n (lookup n i.segments) ≡ found s

-- A segment reads back, from the index in memory and from the one that a restart loads.
pub record IsKept (n : ℤ) (s : Segment) (e : Entry) : Type 0 where
  pub in_memory : Reads n s e e.idx
  pub on_disk : (i : Index) × (e.saved ≡ holds i) × Reads n s e i

-- Saving keeps what the index in memory and the saved one agree on.
pub save-IsKept :
    (saves : Bool) (n : ℤ) (s : Segment) (e : Entry) → IsKept n s e → IsKept n s (save saves e).0
unfolding save
save-IsKept true n s e k = record { in_memory = k.in_memory; on_disk = (e.idx, refl, k.in_memory) }
save-IsKept false n s e k = k

pub saved-IsKept :
    (n : ℤ) (s : Segment) (e : Entry) → Reads n s e e.idx → IsKept n s (save true e).0
unfolding save
saved-IsKept n s e r = record { in_memory = r; on_disk = (e.idx, refl, r) }

-- A change of the index that leaves the segment's record, in files that grew.
pub grown-IsKept :
    (n : ℤ) (s : Segment) (e f : Entry)
    → Grows e f
    → lookup n f.idx.segments ≡ lookup n e.idx.segments
    → f.saved ≡ e.saved
    → IsKept n s e
    → IsKept n s f
grown-IsKept n s e f g same disk k =
    let (i, held, reads) = k.on_disk in
    record {
      in_memory =
          ap (read_record f n) same
          ∙ read_record-Grows e f n (lookup n e.idx.segments) s g k.in_memory;
      on_disk = (i, disk ∙ held, read_record-Grows e f n (lookup n i.segments) s g reads);
    }
