-- ===== src/Splitter/Tests.antt =====
-- A stream of four boxes, cut inside a header and inside a body.
use clusterplex.Prelude.{
  ◌+◌, ◌≡◌, refl, false, List, [], ◌∷◌, ◌++◌, length, take, drop, Str, str, str_eq, str_beq,
}
use clusterplex.Dict.{is_some}
use clusterplex.Splitter.{
  Bytes, on_init, on_fragment, new_splitter, big_endian, next_box, take_box, drain, write,
  write_all,
}
use clusterplex.Splitter.Chunks.{joined, write_all-write}

abbrev bytes_of : Str → Bytes → Bytes
bytes_of typ body = 0 ∷ 0 ∷ 0 ∷ (8 + length body) ∷ (typ ++ body)

abbrev init_boxes : Bytes
init_boxes = bytes_of (str "ftyp") [] ++ bytes_of (str "moov") (5 ∷ [])

abbrev fragment_boxes : Bytes
fragment_boxes = bytes_of (str "moof") [] ++ bytes_of (str "mdat") (6 ∷ 7 ∷ [])

abbrev stream : Bytes
stream = init_boxes ++ fragment_boxes

abbrev chunks : List Bytes
chunks = take 5 stream ∷ take 25 (drop 5 stream) ∷ drop 30 stream ∷ []

accepts_all :
    (write_all (λ es e. false) chunks new_splitter).events
    ≡ on_fragment fragment_boxes ∷ on_init init_boxes ∷ []
unfolding write_all write drain next_box big_endian take_box str_beq
accepts_all = refl

no_fault : is_some (write_all (λ es e. false) chunks new_splitter).err ≡ false
unfolding write_all write drain next_box big_endian take_box str_beq
no_fault = refl

write_all-write_example :
    write_all (λ es e. false) chunks new_splitter
    ≡ write (λ es e. false) (joined chunks) new_splitter
write_all-write_example =
    write_all-write (λ es e. false) (take 5 stream) (take 25 (drop 5 stream) ∷ drop 30 stream ∷ [])
      new_splitter no_fault
