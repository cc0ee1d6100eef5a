-- ===== src/Dispatch/Args.antt =====
-- pkg/video/classify.go, lastInput of pkg/video/parse.go, and pkg/remoteexec/rewrite.go: what the
-- dispatcher reads and rewrites of a job's arguments.
use clusterplex.Prelude.{
  ℕ, zero, suc, ◌-◌, Bool, false, not, ◌&&◌, ◌||◌, Option, none, some, List, [], ◌∷◌, ◌++◌, map,
  if◌then◌else◌, ◌==◌, nat_eq, Str, str, str_eq, has_prefix, length,
}
use clusterplex.Sorted.{contains}

abbrev pub not_video : List Str
not_video =
    str "copy"
    ∷ str "aac"
    ∷ str "ac3"
    ∷ str "eac3"
    ∷ str "eac3_eae"
    ∷ str "mp3"
    ∷ str "libmp3lame"
    ∷ str "libopus"
    ∷ str "opus"
    ∷ str "libvorbis"
    ∷ str "vorbis"
    ∷ str "flac"
    ∷ str "alac"
    ∷ str "srt"
    ∷ str "subrip"
    ∷ str "ass"
    ∷ str "ssa"
    ∷ str "mov_text"
    ∷ str "webvtt"
    ∷ str "text"
    ∷ str "dvdsub"
    ∷ str "dvbsub"
    ∷ str "xsub"
    ∷ str "mjpeg"
    ∷ str "png"
    ∷ str "rawvideo"
    ∷ str "wrapped_avframe"
    ∷ []

-- What follows the last -i, which is args[lastInput(args)+1:]; none is -1.
unfoldable pub after_last_input : List Str → Option (List Str)
after_last_input [] = none
after_last_input (a ∷ rest) = elim (after_last_input rest) [
  | none ↦ if a == str "-i" then some rest else none
  | some tail ↦ some tail
]

-- strings.Cut(s, ":"), its first result.
unfoldable pub before_colon : Str → Str
before_colon [] = []
before_colon (c ∷ s) = if c == 58 then [] else c ∷ before_colon s

unfoldable pub is_codec_option : Str → Bool
is_codec_option a =
    let base = before_colon a in base == str "-codec" || base == str "-c" || base == str "-vcodec"

unfoldable pub is_video_codec : Str → Bool
is_video_codec v = not (contains not_video v) && not (has_prefix v (str "pcm_"))

-- The loop over the output options.
unfoldable pub converts : List Str → Bool
converts [] = false
converts (a ∷ []) = false
converts (a ∷ v ∷ rest) =
    let past_value = converts rest in
    let past_option = converts (v ∷ rest) in
    if is_codec_option a then is_video_codec v || past_value else past_option

abbrev pub drop_first : List Str → List Str
drop_first [] = []
drop_first (x ∷ xs) = xs

abbrev pub converts_after : Option (List Str) → Bool
converts_after none = false
converts_after (some tail) = converts (drop_first tail)

-- func IsConversion(args []string) bool: the options start at last+2.
unfoldable pub is_conversion : List Str → Bool
is_conversion args = converts_after (after_last_input args)

-- strings.ReplaceAll for a text that is not empty: skip characters are left of an occurrence.
unfoldable pub replace_from : Str → Str → ℕ → Str → Str
replace_from old new skip [] = []
replace_from old new (suc skip) (c ∷ s) = replace_from old new skip s
replace_from old new zero (c ∷ s) =
    let plain = replace_from old new zero s in
    let past = replace_from old new (length old - 1) s in
    if has_prefix (c ∷ s) old then new ++ past else c ∷ plain

abbrev pub loopback_pms : List Str
loopback_pms = str "127.0.0.1:32400" ∷ str "localhost:32400" ∷ []

abbrev pub replace_each : List Str → Str → Str → Str
replace_each [] new a = a
replace_each (lb ∷ lbs) new a = replace_each lbs new (replace_from lb new zero a)

-- func RewriteArgs(args []string, pmsAddr string) []string
unfoldable pub rewrite_args : List Str → Str → List Str
rewrite_args args addr = map (replace_each loopback_pms addr) args
