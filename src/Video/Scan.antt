-- ===== src/Video/Scan.antt =====
-- The loop of Parse over a job's options, in pkg/video/parse.go. What is read with a float or as a URL
-- goes through an interface, since strconv and net/url are not code of this repository.
use clusterplex.Prelude.{
  int_eq, ℕ, Bool, true, false, not, ◌&&◌, ◌||◌, Option, none, some, List, [], ◌∷◌, ◌++◌,
  if◌then◌else◌, ◌==◌, nat_eq, ℤ, pos, Str, str, str_eq, has_prefix, is_empty,
}
use clusterplex.Dict.{Dict, lookup, insert}
use clusterplex.Sorted.{contains}
use clusterplex.Video.Strings.{
  cut_before, cut_after, cut_prefix, or_empty, contains_text, after_last, has_suffix, atoi,
  split_at, trim,
}
use clusterplex.Video.Job.{
  Result, ok, refused, ◌>>=◌, Input, bad_option, empty_input, bad_live_input, bad_live_index,
  late_start, bad_start, bad_metadata, bad_fixed,
}
use clusterplex.Video.Filter.{Chain, parse_filter_complex}
use clusterplex.Video.Options.{is_flag, takes_value, per_output, read_and_ignored, fixed_value}

-- float64 and the functions on it that the parser calls: none is an error of ParseFloat,
-- and beside_error the value that it answers with the error.
pub record Floats : Type 1 where
  pub Float : Type 0
  pub parse_float : Str → Option Float
  pub beside_error : Str → Float
  pub of_int : ℤ → Float
  pub to_int : Float → ℤ
  pub times : Float → Float → Float
  pub over : Float → Float → Float
  pub minus : Float → Float → Float
  pub less : Float → Float → Bool
  pub at_most : Float → Float → Bool
  pub rounded : Float → Float
  pub format_float : Float → Str

-- url.Parse, of which the parser reads the scheme and the path.
pub record Urls : Type 0 where
  pub scheme_path : Str → Option (Str × Str)

pub record Env : Type 1 where
  pub floats : Floats
  pub urls : Urls

-- The path segment after the first session that has one.
unfoldable pub after_session : List Str → Str
after_session [] = []
after_session (p ∷ []) = []
after_session (p ∷ q ∷ rest) =
    let later = after_session (q ∷ rest) in if p == str "session" then q else later

abbrev slash : ℕ → Bool
slash c = c == 47

abbrev session_in : Option (Str × Str) → Str
session_in none = []
session_in (some (scheme, path)) = after_session (split_at 47 (trim slash path))

-- func sessionOf(raw string) string
unfoldable pub session_of : Urls → Str → Str
session_of urls raw = session_in (urls.scheme_path raw)

-- What the loop has read.
pub record Scanned : Type 0 where
  pub inputs : List Input
  pub start : ℤ
  pub live : Bool
  pub maps : List Str
  pub chains : List Chain
  pub opts : Dict Str Str
  pub per_out : Dict ℤ (Dict Str Str)

abbrev pub nothing_read : Scanned
nothing_read = record {
  inputs = [];
  start = pos 0;
  live = false;
  maps = [];
  chains = [];
  opts = [];
  per_out = [];
}

-- func inputOf(v string) (Input, error)
unfoldable pub input_of : Str → Result Input
input_of v =
    if is_empty v
    then refused empty_input
    else if has_prefix v (str "/media/") && not (contains_text v (str "/../"))
    then ok
        (record { path = v; streamed = false; format = []; name = []; source = []; live = false })
    else let name = if contains_text v (str "://") then [] else after_last 47 v in
      ok (record { path = []; streamed = true; format = []; name = name; source = v; live = false })

abbrev is_playlist : Option (Str × Str) → Bool
is_playlist none = false
is_playlist (some (scheme, path)) =
    (scheme == str "http" || scheme == str "https") && has_suffix path (str ".m3u8")

-- func liveInput(in Input) (Input, error)
unfoldable pub live_input : Urls → Input → Result Input
live_input urls i =
    if i.streamed && is_playlist (urls.scheme_path i.source)
    then ok (record i { live = true; format = str "mpegts"; name = [] })
    else refused bad_live_input

-- perOutOf(perOut, idx)[k] = v
abbrev pub per_out_of : Option (Dict Str Str) → Dict Str Str
per_out_of none = []
per_out_of (some m) = m

unfoldable pub put_output : ℤ → Str → Str → Dict ℤ (Dict Str Str) → Dict ℤ (Dict Str Str)
put_output idx k v m = insert idx (insert k v (per_out_of (lookup idx m))) m

abbrev add_input : Scanned → Input → Scanned
add_input s i = record s { inputs = s.inputs ++ i ∷ []; live = false }

-- The cases of the loop's switch that have a body.
unfoldable pub read_input : Urls → Str → Scanned → Result Scanned
read_input urls v s = do
  i ← input_of v
  if s.live then live_input urls i >>= (λ li. ok (add_input s li)) else ok (add_input s i)

unfoldable pub read_start : Floats → Str → Scanned → Result Scanned
read_start fl v s = elim (fl.parse_float v) [
  | none ↦ refused bad_start
  | some x ↦
      if fl.less x (fl.of_int (pos 0))
      then refused bad_start
      else ok (record s { start = fl.to_int (fl.times x (fl.of_int (pos 1000000000))) })
]

abbrev pub language_at : Option ℤ → Option Str → Scanned → Result Scanned
language_at none lang s = refused bad_option
language_at (some idx) none s = refused bad_metadata
language_at (some idx) (some lang) s =
    ok (record s { per_out = put_output idx (str "language") lang s.per_out })

abbrev pub or_none : Option Str → Option ℤ
or_none none = none
or_none (some n) = atoi n

unfoldable pub read_metadata : Str → Str → Scanned → Result Scanned
read_metadata spec v s =
    language_at (or_none (cut_prefix spec (str "s:"))) (cut_prefix v (str "language=")) s

unfoldable pub output_option : Str → Str → Option ℤ → Scanned → Result Scanned
output_option base v none s = refused bad_option
output_option base v (some idx) s = ok (record s { per_out = put_output idx base v s.per_out })

abbrev unlike : Option Str → Str → Bool
unlike none v = false
unlike (some want) v = not (v == want)

unfoldable pub other_option : Str → Str → Str → Scanned → Result Scanned
other_option base spec v s =
    if not (is_empty spec)
    then refused bad_option
    else if unlike (fixed_value base) v
    then refused bad_fixed
    else ok (record s { opts = insert base v s.opts })

unfoldable pub read_chains : Str → Scanned → Result Scanned
read_chains v s = do cs ← parse_filter_complex v; ok (record s { chains = s.chains ++ cs })

-- The switch: whether an -i is still to come, the option's name and specifier, and its value.
unfoldable pub read_option : Env → Bool → Str → Str → Str → Scanned → Result Scanned
read_option env input base spec v s =
    if base == str "-i"
    then read_input env.urls v s
    else if base == str "-live_start_index"
    then (if not input || not (v == str "0")
        then refused bad_live_index
        else ok (record s { live = true }))
    else if base == str "-ss"
    then (if not input then refused late_start else read_start env.floats v s)
    else if input && (base == str "-codec" || base == str "-eae_prefix")
    then ok s
    else if contains read_and_ignored base
    then ok s
    else if base == str "-metadata"
    then read_metadata spec v s
    else if contains per_output base
    then output_option base v (atoi spec) s
    else if base == str "-map"
    then ok (record s { maps = s.maps ++ v ∷ [] })
    else if base == str "-filter_complex"
    then read_chains v s
    else other_option base spec v s

-- An -i is among some arguments: before it, i < last.
abbrev pub has_input : List Str → Bool
has_input args = contains args (str "-i")

-- The loop.
unfoldable pub scan : Env → List Str → Scanned → Result Scanned
scan env [] s = ok s
scan env (a ∷ []) s = if is_flag a then ok s else refused bad_option
scan env (a ∷ v ∷ rest) s = elim (is_flag a) [
  | true ↦ scan env (v ∷ rest) s
  | false ↦ elim (takes_value (cut_before 58 a)) [
    | false ↦ refused bad_option
    | true ↦ do
      read ← read_option env (has_input rest) (cut_before 58 a) (or_empty (cut_after 58 a)) v s
      scan env rest read
  ]
]
