-- ===== src/Lease/Count.antt =====
-- pkg/video/lease/lease.go: how many conversions the GPU pool runs, which each manager keeps as an
-- entry of its own in the annotations of one Lease. Counts and times are unbounded numbers where they
-- are added, and 64 bits wide where a text is read; Go's order over the annotations is a list's.
use clusterplex.Prelude.{
  ℕ, ◌+◌, ◌-◌, ◌*◌, ◌/◌, Bool, true, false, Option, none, some, List, [], ◌∷◌, ◌++◌, if◌then◌else◌,
  leb, ℤ, pos, negsuc, Str, str, str_eq, has_prefix, is_empty,
}
use clusterplex.Dict.{Dict, lookup, insert}
use clusterplex.Hashring.{itoa}
use clusterplex.Lease.{Lease, second, Reply, found, not_found, failed}
use clusterplex.Video.Strings.{is_space, atoi}

abbrev pub annotation : Str
annotation = str "clusterplex.io/active-video-transcodes"

abbrev pub entry_prefix : Str
entry_prefix = str "clusterplex.io/video-transcodes."

abbrev pub stale_after : ℕ
stale_after = 30 * second

-- strings.Fields: a text is cut at each space, and the pieces that are not empty are its words.
abbrev pub onto_word : ℕ → List Str → List Str
onto_word c [] = (c ∷ []) ∷ []
onto_word c (w ∷ ws) = (c ∷ w) ∷ ws

unfoldable pub pieces : Str → List Str
pieces [] = [] ∷ []
pieces (c ∷ s) = let rest = pieces s in if is_space c then [] ∷ rest else onto_word c rest

unfoldable pub filled : List Str → List Str
filled [] = []
filled (w ∷ ws) = let rest = filled ws in if is_empty w then rest else w ∷ rest

unfoldable pub fields : Str → List Str
fields s = filled (pieces s)

-- An entry: its count, and the second it was written at.
abbrev pub entry_of : Option ℤ → Option ℤ → Option (ℕ × ℤ)
entry_of none at = none
entry_of (some n) none = none
entry_of (some (negsuc n)) (some at) = none
entry_of (some (pos n)) (some at) = some (n, at)

abbrev pub entry_in : List Str → Option (ℕ × ℤ)
entry_in [] = none
entry_in (a ∷ []) = none
entry_in (a ∷ b ∷ []) = entry_of (atoi a) (atoi b)
entry_in (a ∷ b ∷ c ∷ rest) = none

-- func parseEntry(v string) (n int, at time.Time, ok bool)
unfoldable pub parse_entry : Str → Option (ℕ × ℤ)
parse_entry v = entry_in (fields v)

-- now.Sub(at) >= StaleAfter, for a second at.
abbrev pub is_stale : ℕ → ℤ → Bool
is_stale now (pos at) = leb (at * second + stale_after) now
is_stale now (negsuc at) = leb stale_after (now + (at + 1) * second)

-- The count of an entry that counts.
abbrev pub fresh_count : ℕ → Option (ℕ × ℤ) → Option ℕ
fresh_count now none = none
fresh_count now (some (n, at)) = if is_stale now at then none else some n

abbrev pub with_entry : Str → Str → Option ℕ → Dict Str Str × ℕ → Dict Str Str × ℕ
with_entry k v none rest = rest
with_entry k v (some n) (m, sum) = ((k, v) ∷ m, n + sum)

abbrev pub untouched : Str → Str → Dict Str Str × ℕ → Dict Str Str × ℕ
untouched k v (m, sum) = ((k, v) ∷ m, sum)

-- Renew's loop: the annotations that stay, and the sum.
unfoldable pub sweep : ℕ → Dict Str Str → Dict Str Str × ℕ
sweep now [] = ([], 0)
sweep now ((k, v) ∷ m) =
    let rest = sweep now m in
    if has_prefix k entry_prefix
    then with_entry k v (fresh_count now (parse_entry v)) rest
    else untouched k v rest

-- An entry's text: the count and the time in seconds.
abbrev pub entry_text : ℕ → ℕ → Str
entry_text n now = itoa n ++ 32 ∷ itoa (now / second)

abbrev pub summed : Dict Str Str × ℕ → Dict Str Str
summed (m, sum) = insert annotation (itoa sum) m

-- The annotations that Renew writes.
unfoldable pub renewed_annotations : ℕ → ℕ → Str → Dict Str Str → Dict Str Str
renewed_annotations n now identity m =
    summed (sweep now (insert (entry_prefix ++ identity) (entry_text n now) m))

-- What Renew writes over a Lease, or creates where there is none.
unfoldable pub renew_lease : ℕ → ℕ → Str → Lease → Lease
renew_lease n now identity l = record l {
  annotations = renewed_annotations n now identity l.annotations;
  holder = some identity;
  renewed = some now;
  seconds = some (stale_after / second);
}

abbrev pub blank_lease : Lease
blank_lease = record {
  version = 0;
  annotations = [];
  labels = [];
  holder = none;
  seconds = none;
  acquired = none;
  renewed = none;
  transitions = none;
}

abbrev pub count_in : Option ℤ → ℕ
count_in none = 0
count_in (some (pos n)) = n
count_in (some (negsuc n)) = 0

abbrev pub read_count : Option Str → ℕ
read_count none = 0
read_count (some v) = count_in (atoi v)

abbrev pub counted : Dict Str Str → ℕ → Option ℕ → ℕ
counted m now none = 0
counted m now (some r) = if leb (r + stale_after) now then 0 else read_count (lookup annotation m)

-- func Count(l *coordinationv1.Lease, now time.Time) int, of a Lease that is not nil.
unfoldable pub count : Lease → ℕ → ℕ
count l now = counted l.annotations now l.renewed

-- One manager's count of the conversions that it relays.
pub record Counter : Type 0 where
  pub identity : Str
  pub n : ℕ

-- Begin's and end's changes of the count; ended is the state of end's sync.Once.
unfoldable pub begin : Counter → Counter
begin c = record c { n = c.n + 1 }

unfoldable pub end_once : Bool → Counter → Counter × Bool
end_once true c = (c, true)
end_once false c = (record c { n = c.n - 1 }, true)

-- What Renew sends for what Get answers: a new object where there is none, and nothing on an error.
unfoldable pub renew_over : Counter → ℕ → Reply → Option Lease
renew_over c now not_found = some (renew_lease c.n now c.identity blank_lease)
renew_over c now (found l) = some (renew_lease c.n now c.identity l)
renew_over c now failed = none
