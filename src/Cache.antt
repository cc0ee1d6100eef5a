-- ===== src/Cache.antt =====
-- pkg/remux/cache/cache.go: the segments that a remux worker keeps. An entry is its index in memory,
-- its two files and the index file. What a file system call does besides is an argument: whether it
-- fails, and how much of the data a failed append leaves behind. A read fails where its span is not
-- in the file; its other failures answer the same error, and are left out. Numbers of bytes are not
-- bounded, and the clock is an argument.
pub mod Writes
pub mod Spans
pub mod Entries
pub mod Kept
pub mod Evict
pub mod Oldest
pub mod Bounds
pub mod Tests
use clusterplex.Prelude.{
  ltb_ℤ, ℕ, zero, suc, ◌+◌, ◌-◌, Bool, true, false, not, ◌&&◌, ◌||◌, Option, none, some, List, [],
  ◌∷◌, ◌++◌, if◌then◌else◌, ◌==◌, leb, ltb, length, take, drop, ℤ, pos, Str, str_eq, nat_eq, int_eq,
}
use clusterplex.Dict.{Dict, lookup, insert, has, is_some}

abbrev pub Bytes : Type 0
Bytes = List ℕ

pub record Span : Type 0 where
  pub off : ℕ
  pub len : ℕ

pub record Part : Type 0 where
  pub span : Span
  pub t : ℤ
  pub d : ℤ

pub record Record : Type 0 where
  pub start : ℤ
  pub end : ℤ
  pub video : Part
  pub audio : Part
  pub on_grid : Bool

-- remux.StreamInfo
pub record StreamInfo : Type 0 where
  pub video_codec : Str
  pub audio_codec : Str
  pub width : ℤ
  pub height : ℤ
  pub frame_rate : Str
  pub sample_rate : ℤ
  pub channels : ℤ
  pub duration : ℤ

abbrev no_info : StreamInfo
no_info = record {
  video_codec = [];
  audio_codec = [];
  width = pos 0;
  height = pos 0;
  frame_rate = [];
  sample_rate = pos 0;
  channels = pos 0;
  duration = pos 0;
}

pub record Index : Type 0 where
  pub video_init : Span
  pub audio_init : Span
  pub timescales : ℤ × ℤ
  pub info : StreamInfo
  pub has_init : Bool
  pub segments : Dict ℤ Record
  pub last : ℤ
  pub used : ℕ

-- index.json: not there, not an index, or the index that was saved.
pub data Saved : Type 0 where
  absent : Saved
  corrupt : Saved
  holds : Index → Saved

pub record Fragment : Type 0 where
  pub data_bytes : Bytes
  pub t : ℤ
  pub d : ℤ

-- remux.Segment
pub record Segment : Type 0 where
  pub n : ℤ
  pub start : ℤ
  pub end : ℤ
  pub on_grid : Bool
  pub video : Fragment
  pub audio : Fragment

pub record Entry : Type 0 where
  pub idx : Index
  pub loaded : Bool
  pub video : Bytes
  pub audio : Bytes
  pub saved : Saved

abbrev no_span : Span
no_span = record { off = 0; len = 0 }

abbrev pub empty_index : ℕ → Index
empty_index used = record {
  video_init = no_span;
  audio_init = no_span;
  timescales = (pos 0, pos 0);
  info = no_info;
  has_init = false;
  segments = [];
  last = pos 0;
  used = used;
}

-- How an append goes: all is written and synced, or it fails after some bytes.
pub data Append : Type 0 where
  written : Append
  failed_after : ℕ → Append

pub data Result : Type 0 where
  done full before_init failed : Result

-- func appendTo(path string, data []byte) (span, error): the file, and the span.
unfoldable pub append_to : Append → Bytes → Bytes → Bytes × Option Span
append_to written file new = (file ++ new, some (record { off = length file; len = length new }))
append_to (failed_after k) file new = (file ++ take k new, none)

-- func readAt(path string, s span) ([]byte, error)
unfoldable pub read_at : Bytes → Span → Option Bytes
read_at file s =
    if leb (s.off + s.len) (length file) then some (take s.len (drop s.off file)) else none

-- func (e *Entry) save() error: whether the two calls succeed.
unfoldable pub save : Bool → Entry → Entry × Result
save true e = (record e { saved = holds e.idx }, done)
save false e = (e, failed)

-- What os.Remove removes of video.mp4, audio.mp4 and index.json before one fails.
pub data Removed : Type 0 where
  all_removed none_removed video_removed media_removed : Removed

-- func (e *Entry) resetLocked() error: true where it succeeds.
unfoldable pub reset : Removed → ℕ → Entry → Entry × Bool
reset all_removed now e =
    (record e { idx = empty_index now; video = []; audio = []; saved = absent }, true)
reset none_removed now e = (e, false)
reset video_removed now e = (record e { video = [] }, false)
reset media_removed now e = (record e { video = []; audio = [] }, false)

-- func (e *Entry) load() error: reads tells whether ReadFile meets no error but IsNotExist.
unfoldable pub load : Bool → Removed → ℕ → Saved → Entry → Entry × Bool
load false r now saved e = (e, false)
load true r now absent e = (record e { idx = empty_index 0 }, true)
load true r now corrupt e = reset r now e
load true r now (holds i) e = (record e { idx = i }, true)

abbrev pub marked_loaded : Entry × Bool → Entry × Bool
marked_loaded (e, true) = (record e { loaded = true }, true)
marked_loaded (e, false) = (e, false)

abbrev pub touched : ℕ → Entry → Entry
touched now e = record e { idx = record (e.idx) { used = now } }

abbrev pub opened : Bool → ℕ → Entry × Bool → Entry × Result
opened saves now (e, false) = (e, failed)
opened saves now (e, true) = save saves (touched now e)

-- What the file system does in an Open: whether MkdirAll and the reading of the index succeed, what
-- is removed of an entry whose index is corrupt, and whether the index can be saved.
pub record Opening : Type 0 where
  pub makes : Bool
  pub reads : Bool
  pub removed : Removed
  pub saves : Bool

-- Open's part on the entry: its index is loaded once, and saved with the time.
unfoldable pub open_entry : Opening → ℕ → Entry → Entry × Result
open_entry o now e =
    if o.makes
    then opened o.saves now
        (if e.loaded then (e, true) else marked_loaded (load o.reads o.removed now e.saved e))
    else (e, failed)

abbrev pub both_read : Option Bytes → Option Bytes → Option (Bytes × Bytes)
both_read none a = none
both_read (some v) none = none
both_read (some v) (some a) = some (v, a)

-- Init's two reads.
unfoldable pub inits : Entry → Option (Bytes × Bytes)
inits e = both_read (read_at e.video e.idx.video_init) (read_at e.audio e.idx.audio_init)

pub record Inits : Type 0 where
  pub video : Bytes
  pub audio : Bytes
  pub timescales : ℤ × ℤ
  pub info : StreamInfo

abbrev pub as_inits : Index → Option (Bytes × Bytes) → Option Inits
as_inits i none = none
as_inits i (some (v, a)) =
    some (record { video = v; audio = a; timescales = i.timescales; info = i.info })

-- func (e *Entry) Init()
unfoldable pub init : Entry → Option Inits
init e = if e.idx.has_init then as_inits e.idx (inits e) else none

-- The same inits and timescales are held.
abbrev pub same_inits : ℤ × ℤ → Option (Bytes × Bytes) → Inits → Bool
same_inits ts none i = false
same_inits ts (some (v, a)) i =
    v == i.video && a == i.audio && (ts.0 == i.timescales.0 && ts.1 == i.timescales.1)
