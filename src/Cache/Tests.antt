-- ===== src/Cache/Tests.antt =====
-- The cache's theorems at small entries.
use clusterplex.Prelude.{
  ℕ, ◌≤◌, ◌≡◌, refl, true, false, some, List, [], ◌∷◌, ℤ, pos, int_eq, int_beq, Str, str, str_eq,
  arith,
}
use clusterplex.Dict.{Dict, has}
use clusterplex.Cache.{
  Entry, Segment, Inits, StreamInfo, all_removed, written, failed_after, absent, done, empty_index,
  save, append_to, init, open_entry, Opening,
}
use clusterplex.Cache.Writes.{Faults, set_init, put, append_both, passes, size, segment_at, found}
use clusterplex.Cache.Kept.{putting, restarting, restarted, none_left, then_more, put_kept}
use clusterplex.Cache.Bounds.{set_init-init, size-put}
use clusterplex.Cache.Evict.{Listed, evict}
use clusterplex.Cache.Oldest.{evict_lem, Fits, RemovesOldest}

abbrev new_entry : Entry
new_entry = record { idx = empty_index 1; loaded = true; video = []; audio = []; saved = absent }

abbrev all_well : Faults
all_well = record { removed = all_removed; video = written; audio = written; saves = true }

-- The audio's append fails after one byte.
abbrev audio_fails : Faults
audio_fails = record {
  removed = all_removed;
  video = written;
  audio = failed_after 1;
  saves = true;
}

abbrev info : StreamInfo
info = record {
  video_codec = str "h264";
  audio_codec = str "aac";
  width = pos 640;
  height = pos 480;
  frame_rate = str "25";
  sample_rate = pos 48000;
  channels = pos 2;
  duration = pos 60;
}

abbrev some_inits : Inits
some_inits = record {
  video = 1 ∷ 2 ∷ [];
  audio = 3 ∷ [];
  timescales = (pos 90, pos 48);
  info = info;
}

abbrev ready : Entry
ready = (set_init all_well 2 some_inits new_entry).0

abbrev segment_of_bytes : ℤ → ℕ → Segment
segment_of_bytes n b = record {
  n = n;
  start = pos 0;
  end = pos 4;
  on_grid = true;
  video = record { data_bytes = b ∷ b ∷ []; t = pos 0; d = pos 4 };
  audio = record { data_bytes = b ∷ []; t = pos 0; d = pos 4 };
}

set_init-init_example : init (set_init all_well 2 some_inits new_entry).0 ≡ some some_inits
unfolding set_init append_both append_to save
set_init-init_example = set_init-init all_well 2 some_inits new_entry refl

abbrev first : Segment
first = segment_of_bytes (pos 1) 7

abbrev after_first : Entry
after_first = (put (pos 100) all_well 3 first ready).0

-- A put whose audio fails leaves bytes in both files; then the worker restarts.
abbrev after_failure : Entry
after_failure = (put (pos 100) audio_fails 4 (segment_of_bytes (pos 2) 8) after_first).0

abbrev opens : Opening
opens = record { makes = true; reads = true; removed = all_removed; saves = true }

abbrev after_restart : Entry
after_restart = (open_entry opens 5 (restarted after_failure)).0

put_kept_example : segment_at (pos 1) after_restart ≡ found first
unfolding set_init append_both append_to save put has int_beq passes size
put_kept_example = put_kept (pos 100) all_well 3 first ready after_restart refl refl (
    then_more (putting audio_fails 4 (segment_of_bytes (pos 2) 8))
      (then_more (restarting opens 5 refl refl) none_left))

size-put_example : size (put (pos 10) all_well 3 first ready).0 ≤ 10
unfolding set_init append_both append_to save size
size-put_example = size-put 9 all_well 3 first ready (omega arith)

abbrev listing : List Listed
listing =
    record { name = str "new"; size = 6; used = 9 }
    ∷ record { name = str "held"; size = 6; used = 1 }
    ∷ record { name = str "old"; size = 6; used = 2 }
    ∷ []

abbrev jobs : Dict Str ℕ
jobs = (str "held", 1) ∷ []

evict_lem_example :
    RemovesOldest 12 jobs (λ n. false) (evict (pos 12) jobs (λ n. false) listing)
    × ((evict (pos 12) jobs (λ n. false) listing).result ≡ done
        → Fits 12 jobs (λ n. false) (evict (pos 12) jobs (λ n. false) listing) 0)
evict_lem_example = evict_lem 11 jobs (λ n. false) listing
