-- ===== src/Segments.antt =====
-- pkg/video/segment.go, and the lister of pkg/video/relay/list.go: where a conversion's segments
-- begin, and the list of them that the relay posts to Plex. Times are nanoseconds, 64 bits wide where they are
-- computed with. A file name's
-- pattern is an argument, the function from a segment's number to its name, and so is whether each
-- POST succeeds.
pub mod Window
pub mod Order
pub mod Tests
use clusterplex.Prelude.{
  ℕ, zero, suc, ◌+◌, ◌-◌, ◌*◌, ◌/◌, ◌%◌, ◌^◌, Bool, true, false, not, ◌&&◌, ◌||◌, Option, none,
  some, List, [], ◌∷◌, ◌++◌, if◌then◌else◌, ltb, leb, ◌==◌, Str, str, str_eq, nat_eq, length, drop,
  ℤ, pos, negsuc, pos_part, neg_part, sub_ℕ, leb_ℤ,
}
use clusterplex.Hashring.{itoa}
use clusterplex.Video.Numbers.{wrap}

-- An int64 of an integer: two's complement.
abbrev pub wrap_ℤ : ℤ → ℤ
wrap_ℤ (pos n) = wrap n
wrap_ℤ (negsuc n) = wrap (2 ^ 64 - (n + 1) % 2 ^ 64)

abbrev times_ℤ : ℕ → ℤ → ℤ
times_ℤ n (pos e) = pos (n * e)
times_ℤ n (negsuc e) = sub_ℕ 0 (n * (e + 1))

-- time.Duration(n) * e
abbrev pub scaled : ℕ → ℤ → ℤ
scaled n e = wrap_ℤ (times_ℤ n e)

-- a - b of durations.
abbrev pub minus : ℤ → ℤ → ℤ
minus a b = wrap_ℤ (sub_ℕ (pos_part a + neg_part b) (neg_part a + pos_part b))

-- func KeyframeDue(t time.Duration, forced int, every time.Duration) bool
unfoldable pub keyframe_due : ℤ → ℕ → ℤ → Bool
keyframe_due t forced every = leb_ℤ (scaled forced every) t

-- func FirstForced(start, every time.Duration) int
unfoldable pub first_forced : ℤ → ℤ → ℕ
first_forced start every =
    if leb_ℤ start (pos 0) || leb_ℤ every (pos 0) then 0 else pos_part start / pos_part every

-- func CutDue(pts, origin time.Duration, cut int, s Segmenting) bool
unfoldable pub cut_due : ℤ → ℤ → ℕ → ℤ → ℤ → Bool
cut_due pts origin cut duration time_delta =
    leb_ℤ (minus (scaled (cut + 1) duration) time_delta) (minus pts origin)

pub record Span : Type 0 where
  pub stream : ℕ
  pub start : ℤ
  pub end_at : ℤ

pub record SegmentTimes : Type 0 where
  pub name : Str
  pub start : ℤ
  pub end_at : ℤ
  pub streams : List Span

abbrev digit : ℕ → ℕ
digit n = 48 + n % 10

-- "%06d" of a number below a million.
unfoldable pub six_digits : ℕ → Str
six_digits n =
    digit (n / 100000)
    ∷ digit (n / 10000)
    ∷ digit (n / 1000)
    ∷ digit (n / 100)
    ∷ digit (n / 10)
    ∷ digit n
    ∷ []

unfoldable pub micros_text : ℕ → Str
micros_text us = itoa (us / 1_000_000) ++ str "." ++ six_digits (us % 1_000_000)

-- func seconds6(d time.Duration) string: Microseconds rounds toward zero.
unfoldable pub seconds6 : ℤ → Str
seconds6 (pos n) = micros_text (n / 1000)
seconds6 (negsuc n) =
    let us = (n + 1) / 1000 in if us == 0 then micros_text us else str "-" ++ micros_text us

-- slices.SortFunc by falling stream index; a segment has one span for each.
unfoldable pub insert_span : Span → List Span → List Span
insert_span s [] = s ∷ []
insert_span s (t ∷ ts) = if ltb s.stream t.stream then t ∷ insert_span s ts else s ∷ t ∷ ts

unfoldable pub sort_spans : List Span → List Span
sort_spans [] = []
sort_spans (s ∷ ss) = insert_span s (sort_spans ss)

unfoldable pub end_fields : List Span → Str
end_fields [] = []
end_fields (s ∷ ss) = str "," ++ seconds6 s.end_at ++ end_fields ss

-- func SegmentListLine(s SegmentTimes) string
unfoldable pub segment_list_line : SegmentTimes → Str
segment_list_line s =
    s.name
    ++ str ","
    ++ seconds6 s.start
    ++ str ","
    ++ seconds6 s.end_at
    ++ end_fields (sort_spans s.streams)
    ++ 10 ∷ []

-- max is listSize - 1; a list size of 0 or 1 gives 0 here, and the tests below treat -1 and 0 alike.
pub record SegmentList : Type 0 where
  pub max : ℕ
  pub lines : List Str

-- func NewSegmentList(listSize int) *SegmentList
unfoldable pub new_segment_list : ℕ → SegmentList
new_segment_list list_size = record { max = list_size - 1; lines = [] }

-- func (l *SegmentList) window(keep int) []string
unfoldable pub window : SegmentList → ℕ → List Str
window l keep =
    if leb l.max 0 || leb (length l.lines) keep
    then l.lines
    else drop (length l.lines - keep) l.lines

abbrev pub concat : List Str → Str
concat [] = []
concat (s ∷ ss) = s ++ concat ss

-- What Finished leaves of the list.
unfoldable pub add_line : SegmentList → Str → SegmentList
add_line l line =
    let lines = l.lines ++ line ∷ [] in
    record l {
      lines =
          if ltb 0 l.max && ltb l.max (length lines)
          then drop (length lines - l.max) lines
          else lines;
    }

-- func (l *SegmentList) Finished
unfoldable pub finished : SegmentList → SegmentTimes → SegmentList × Str
finished l s = let l = add_line l (segment_list_line s) in (l, concat l.lines)

abbrev pub repeat : ℕ → Str → Str
repeat zero s = []
repeat (suc n) s = s ++ repeat n s

-- How many finished entries Opened keeps.
unfoldable pub opened_keep : SegmentList → ℕ
opened_keep l = if ltb 0 l.max then l.max - 1 else length l.lines

-- The entry of a segment that is open.
abbrev pub open_line : Str → ℤ → ℕ → Str
open_line name start streams =
    str "#" ++ name ++ repeat (2 + streams) (str "," ++ seconds6 start) ++ 10 ∷ []

-- func (l *SegmentList) Opened
unfoldable pub opened : SegmentList → Str → ℤ → ℕ → Str
opened l name start streams = concat (window l (opened_keep l)) ++ open_line name start streams

-- What the lister keeps.
pub record Lister : Type 0 where
  pub list : SegmentList
  pub next : ℕ
  pub count : ℕ

-- func newLister
unfoldable pub new_lister : ℕ → ℕ → Lister
new_lister list_size start = record { list = new_segment_list list_size; next = start; count = 0 }

pub data Error : Type 0 where
  out_of_order post_failed : Error

-- A report of a segment, with the start of the next if the worker has opened it, and whether the
-- two POSTs succeed.
pub record Report : Type 0 where
  pub times : SegmentTimes
  pub next_start : Option ℤ
  pub first_ok : Bool
  pub second_ok : Bool

-- What is posted, and the error or none.
pub record Listed : Type 0 where
  pub lister : Lister
  pub posts : List Str
  pub err : Option Error

abbrev pub error_unless : Bool → Option Error
error_unless true = none
error_unless false = some post_failed

module _ (name_of : ℕ → Str) where
  -- func (l *lister) Finished
  unfoldable pub list_finished : Lister → Report → Listed
  list_finished l r =
      let (list, body) = finished l.list r.times in
      let after : Lister = record { list = list; next = l.next + 1; count = l.count + 1 } in
      if not (r.times.name == name_of l.next)
      then record { lister = l; posts = []; err = some out_of_order }
      else if not r.first_ok
      then record { lister = after; posts = body ∷ []; err = some post_failed }
      else elim r.next_start [
        | none ↦ record { lister = after; posts = body ∷ []; err = none }
        | some t ↦ record {
          lister = after;
          posts = body ∷ opened list (name_of after.next) t (length r.times.streams) ∷ [];
          err = error_unless r.second_ok;
        }
      ]
