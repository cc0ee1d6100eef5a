-- ===== src/Cache/Writes.antt =====
-- The calls of pkg/remux/cache/cache.go on an entry: SetInit, Segment, Put and SetLast.
use clusterplex.Prelude.{
  ltb_ℤ, ℕ, ◌+◌, Bool, true, false, not, ◌&&◌, Option, none, some, if◌then◌else◌, length, ℤ, pos,
  str_eq, nat_eq, int_eq,
}
use clusterplex.Dict.{lookup, insert, has}
use clusterplex.Cache.{
  Bytes, Span, Record, Segment, Entry, Append, Result, append_to, read_at, save, Removed, reset,
  touched, inits, Inits, same_inits, done, full, before_init, failed,
}

abbrev pub audio_written : Entry → Span → Bytes × Option Span → Entry × Option (Span × Span)
audio_written e vs (file, none) = (record e { audio = file }, none)
audio_written e vs (file, some as_) = (record e { audio = file }, some (vs, as_))

abbrev pub video_written :
    Entry → Append → Bytes → Bytes × Option Span → Entry × Option (Span × Span)
video_written e wa audio (file, none) = (record e { video = file }, none)
video_written e wa audio (file, some vs) =
    audio_written (record e { video = file }) vs (append_to wa e.audio audio)

-- The two appends of SetInit and Put, the second where the first succeeds.
unfoldable pub append_both : Append → Append → Bytes → Bytes → Entry → Entry × Option (Span × Span)
append_both wv wa video audio e = video_written e wa audio (append_to wv e.video video)

-- What the file system does in a call of SetInit or Put.
pub record Faults : Type 0 where
  pub removed : Removed
  pub video : Append
  pub audio : Append
  pub saves : Bool

abbrev pub init_written : Bool → Inits → Entry × Option (Span × Span) → Entry × Result
init_written saves i (e, none) = (e, failed)
init_written saves i (e, some (vs, as_)) = save saves (record e {
  idx = record (e.idx) {
    video_init = vs;
    audio_init = as_;
    timescales = i.timescales;
    info = i.info;
    has_init = true;
  };
})

abbrev pub write_init : Faults → Inits → Entry → Entry × Result
write_init f i e = init_written f.saves i (append_both f.video f.audio i.video i.audio e)

abbrev pub after_reset : Faults → Inits → Entry × Bool → Entry × Result
after_reset f i (e, true) = write_init f i e
after_reset f i (e, false) = (e, failed)

-- func (e *Entry) SetInit
unfoldable pub set_init : Faults → ℕ → Inits → Entry → Entry × Result
set_init f now i e =
    if not e.idx.has_init
    then write_init f i e
    else if same_inits e.idx.timescales (inits e) i
    then save f.saves (record e { idx = record (e.idx) { info = i.info } })
    else after_reset f i (reset f.removed now e)

-- func (e *Entry) size() int64
unfoldable pub size : Entry → ℕ
size e = length e.video + length e.audio

-- The record of a segment, and the segment of a record and its bytes.
abbrev pub record_of : Segment → Span → Span → Record
record_of s vs as_ = record {
  start = s.start;
  end = s.end;
  video = record { span = vs; t = s.video.t; d = s.video.d };
  audio = record { span = as_; t = s.audio.t; d = s.audio.d };
  on_grid = s.on_grid;
}

abbrev pub segment_of : ℤ → Record → Bytes → Bytes → Segment
segment_of n r v a = record {
  n = n;
  start = r.start;
  end = r.end;
  on_grid = r.on_grid;
  video = record { data_bytes = v; t = r.video.t; d = r.video.d };
  audio = record { data_bytes = a; t = r.audio.t; d = r.audio.d };
}

-- What Segment answers: no such segment, an error, or the segment.
pub data Found : Type 0 where
  missing unreadable : Found
  found : Segment → Found

abbrev pub read_both : ℤ → Record → Option Bytes → Option Bytes → Found
read_both n r none a = unreadable
read_both n r (some v) none = unreadable
read_both n r (some v) (some a) = found (segment_of n r v a)

abbrev pub read_record : Entry → ℤ → Option Record → Found
read_record e n none = missing
read_record e n (some r) =
    read_both n r (read_at e.video r.video.span) (read_at e.audio r.audio.span)

unfoldable pub segment_at : ℤ → Entry → Found
segment_at n e = read_record e n (lookup n e.idx.segments)

abbrev pub used_at : ℕ → Entry → Found → Entry
used_at now e missing = e
used_at now e unreadable = e
used_at now e (found s) = touched now e

-- func (e *Entry) Segment(n int), which notes the time where it answers one.
unfoldable pub segment : ℕ → ℤ → Entry → Entry × Found
segment now n e = (used_at now e (segment_at n e), segment_at n e)

abbrev pub put_written : Bool → ℕ → Segment → Entry × Option (Span × Span) → Entry × Result
put_written saves now s (e, none) = (e, failed)
put_written saves now s (e, some (vs, as_)) = save saves (record e {
  idx = record (e.idx) { segments = insert s.n (record_of s vs as_) e.idx.segments; used = now };
})

-- The entry would pass the cache's limit, where it has one.
unfoldable pub passes : ℤ → ℕ → Bool
passes max n = ltb_ℤ (pos 0) max && ltb_ℤ max (pos n)

-- func (e *Entry) Put(s remux.Segment) error, without the call of Evict at its end.
unfoldable pub put : ℤ → Faults → ℕ → Segment → Entry → Entry × Result
put max f now s e =
    if not e.idx.has_init
    then (e, before_init)
    else if has s.n e.idx.segments
    then (e, done)
    else if passes max (size e + (length s.video.data_bytes + length s.audio.data_bytes))
    then (e, full)
    else put_written f.saves now s
        (append_both f.video f.audio s.video.data_bytes s.audio.data_bytes e)

-- func (e *Entry) SetLast(n int) error
unfoldable pub set_last : Bool → ℤ → Entry → Entry × Result
set_last saves n e = save saves (record e { idx = record (e.idx) { last = n } })
