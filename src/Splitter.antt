-- ===== src/Splitter.antt =====
-- pkg/remux/fmp4.go: the splitter of a muxer's output into the init and the fragments. What its two
-- callbacks answer is an argument: whether one refuses, after those before it. Sizes are as the code
-- reads them, 4 or 8 bytes, big-endian.

pub mod Chunks
pub mod Tests
use clusterplex.Prelude.{
  ℕ, zero, suc, ◌+◌, ◌*◌, Bool, true, false, not, ◌&&◌, ◌||◌, Option, none, some, List, [], ◌∷◌,
  ◌++◌, if◌then◌else◌, ◌==◌, nat_eq, leb, ltb, length, take, drop, Str, str, str_eq,
}
use clusterplex.Dict.{is_some}

abbrev pub Bytes : Type 0
Bytes = List ℕ

-- A call of OnInit or OnFragment.
pub data Event : Type 0 where
  on_init on_fragment : Bytes → Event

pub data Fault : Type 0 where
  unsized bad_size early_media refused : Fault

-- events are the calls so far, the newest first.
pub record Splitter : Type 0 where
  pub buf : Bytes
  pub init : Bytes
  pub frag : Bytes
  pub init_done : Bool
  pub err : Option Fault
  pub events : List Event

abbrev pub new_splitter : Splitter
new_splitter = record { buf = []; init = []; frag = []; init_done = false; err = none; events = [] }

-- binary.BigEndian of some bytes, onto the value of those before them.
unfoldable pub big_endian : ℕ → Bytes → ℕ
big_endian n [] = n
big_endian n (b ∷ bs) = big_endian (n * 256 + b) bs

-- What the loop finds at the front of its buffer: no whole box yet, a fault, or a box of some bytes.
pub data Next : Type 0 where
  waits : Next
  faulty : Fault → Next
  box : ℕ → Next

abbrev pub sized : ℕ → ℕ → ℕ → Next
sized size hdr have =
    if size == 0
    then faulty unsized
    else if ltb size hdr
    then faulty bad_size
    else if ltb have size
    then waits
    else box size

-- By the 4 bytes' number, the 8 bytes' after the type, and what the buffer has.
abbrev pub by_header : ℕ → ℕ → ℕ → Next
by_header short long have =
    if ltb have 8
    then waits
    else if short == 1
    then (if ltb have 16 then waits else sized long 16 have)
    else sized short 8 have

unfoldable pub next_box : Bytes → Next
next_box buf =
    by_header (big_endian 0 (take 4 buf)) (big_endian 0 (take 8 (drop 8 buf))) (length buf)

module _ (refuses : List Event → Event → Bool) where
  -- A callback's answer.
  abbrev pub call : Event → Splitter → Splitter
  call e s = record s {
    events = e ∷ s.events;
    err = if refuses s.events e then some refused else s.err;
  }

  -- func (s *Splitter) box(typ string, b []byte) error
  unfoldable pub take_box : Str → Bytes → Splitter → Splitter
  take_box typ b s =
      if typ == str "ftyp"
      then record s { init = s.init ++ b }
      else if typ == str "moov"
      then call (on_init (s.init ++ b)) (record s { init = s.init ++ b; init_done = true })
      else if typ == str "styp" || typ == str "sidx" || typ == str "moof"
      then record s { frag = s.frag ++ b }
      else if typ == str "mdat"
      then (if s.init_done
          then call (on_fragment (s.frag ++ b)) (record s { frag = [] })
          else record s { err = some early_media })
      else s

  -- The box of some bytes at the front of the buffer, and its type.
  abbrev pub front : ℕ → Splitter → Splitter
  front size s = take_box (take 4 (drop 4 (take size s.buf))) (take size s.buf) s

  -- The loop of Write; the fuel is the length of the buffer.
  unfoldable pub drain : ℕ → Splitter → Splitter
  drain zero s = s
  drain (suc n) s = elim (next_box s.buf) [
    | waits ↦ s
    | faulty f ↦ record s { err = some f }
    | box size ↦ elim (is_some (front size s).err) [
      | true ↦ front size s
      | false ↦ drain n (record (front size s) { buf = drop size s.buf })
    ]
  ]

  -- func (s *Splitter) Write(p []byte) (int, error): it answers an error exactly if err is then set.
  unfoldable pub write : Bytes → Splitter → Splitter
  write p s =
      if is_some s.err then s else drain (length (s.buf ++ p)) (record s { buf = s.buf ++ p })

  -- The writes of some chunks.
  unfoldable pub write_all : List Bytes → Splitter → Splitter
  write_all [] s = s
  write_all (p ∷ ps) s = write_all ps (write p s)
