-- ===== src/Lease/CountTests.antt =====
-- The pool's count at a Lease with three managers' entries.
use clusterplex.Prelude.{
  ◌+◌, ◌*◌, ◌≡◌, refl, none, some, [], ◌∷◌, Str, str, str_eq, str_beq, has_prefix, arith,
}
use clusterplex.Dict.{Dict, has, delete}
use clusterplex.Lease.{Lease, second, found}
use clusterplex.Lease.Count.{
  Counter, count, renew_lease, renew_over, sweep, parse_entry, fields, filled, pieces,
}
use clusterplex.Lease.Counting.{others, count-renew_over}
use clusterplex.Video.Strings.{atoi, digits, digits_from}

-- The manager m1, whose entry is old, beside m2, whose entry counts, and m3, which is gone.
abbrev counts : Dict Str Str
counts =
    (str "clusterplex.io/video-transcodes.m1", str "7 60")
    ∷ (str "clusterplex.io/video-transcodes.m2", str "2 95")
    ∷ (str "clusterplex.io/video-transcodes.m3", str "5 10")
    ∷ []

abbrev counter : Counter
counter = record { identity = str "m1"; n = 3 }

abbrev counted_lease : Lease
counted_lease = record {
  version = 4;
  annotations = counts;
  labels = [];
  holder = some (str "m2");
  seconds = some 30;
  acquired = none;
  renewed = some (95 * second);
  transitions = none;
}

count-renew_over_example :
    count (renew_lease 3 (100 * second) (str "m1") counted_lease) (100 * second)
    ≡ 3 + others (100 * second) (str "m1") counts
unfolding renew_over has str_beq sweep delete parse_entry fields filled pieces atoi digits
    digits_from has_prefix others
count-renew_over_example =
    count-renew_over counter (100 * second) (found counted_lease) _ (refl, (refl, (refl, tt)))
      (omega arith) (omega arith) refl
