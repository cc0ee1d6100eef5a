-- ===== src/Video/Parse.antt =====
-- Parse of pkg/video/parse.go. A refused job's fields, which the code answers with the error and no
-- caller reads, are left out.
use clusterplex.Prelude.{
  Bool, true, false, not, ◌&&◌, ◌||◌, Option, none, some, List, [], ◌∷◌, if◌then◌else◌, ◌==◌, Str,
  str, str_eq, is_empty, has_prefix, leb, length,
}
use clusterplex.Video.Job.{
  Result, ok, refused, ◌>>=◌, no_output, no_input, live_without_input, no_progress, Job,
}
use clusterplex.Video.Scan.{Env, Scanned, nothing_read, scan, session_of}
use clusterplex.Video.Burn.{text_burn}
use clusterplex.Video.Outputs.{opt}
use clusterplex.Video.Streams.{outputs}
use clusterplex.Video.Muxer.{muxer}

-- The last of some arguments, and those before it; none are left out of an empty list.
unfoldable pub last_arg : List Str → Str
last_arg [] = []
last_arg (a ∷ []) = a
last_arg (a ∷ b ∷ rest) = last_arg (b ∷ rest)

unfoldable pub without_last_arg : List Str → List Str
without_last_arg [] = []
without_last_arg (a ∷ []) = []
without_last_arg (a ∷ b ∷ rest) = a ∷ without_last_arg (b ∷ rest)

abbrev pub null_tail : List Str
null_tail = str "-f" ∷ str "null" ∷ str "-codec" ∷ str "ass" ∷ str "nullfile" ∷ []

unfoldable pub args_eq : List Str → List Str → Bool
args_eq [] [] = true
args_eq [] (b ∷ bs) = false
args_eq (a ∷ xs) [] = false
args_eq (a ∷ xs) (b ∷ bs) = a == b && args_eq xs bs

-- The map of Plex's null output, if the arguments are that output alone.
unfoldable pub null_output : List Str → Option Str
null_output [] = none
null_output (a ∷ []) = none
null_output (a ∷ m ∷ rest) = if a == str "-map" && args_eq rest null_tail then some m else none

-- The arguments without a null output at their end, and its map.
abbrev pub onto : Str → List Str × Str → List Str × Str
onto a (args, m) = (a ∷ args, m)

abbrev pub taken_off : Str → List Str × Str → Option Str → List Str × Str
taken_off a rest (some m) = ([], m)
taken_off a rest none = onto a rest

unfoldable pub split_null : List Str → List Str × Str
split_null [] = ([], [])
split_null (a ∷ args) = let rest = split_null args in taken_off a rest (null_output (a ∷ args))

-- A null output is taken off where an argument is left before it.
unfoldable pub without_null : List Str → List Str × Str
without_null [] = ([], [])
without_null (a ∷ args) = onto a (split_null args)

-- What Parse does after its loop.
unfoldable pub finish : Env → Str → Str → Str → Scanned → Result Job
finish env token target null_map s =
    let progress = opt (str "-progressurl") s.opts in
    let list_url = opt (str "-segment_list") s.opts in
    let session = session_of env.urls progress in
    if is_empty s.inputs
    then refused no_input
    else if s.live
    then refused live_without_input
    else if is_empty progress || is_empty session
    then refused no_progress
    else do
      o ← outputs env.floats s.maps s.chains s.per_out
      burn ← text_burn s.inputs o.burn (opt (str "-map_inlineass") s.opts) null_map
      m ← muxer env.floats s.opts list_url target
      ok (record {
        output = some m.0;
        session = session;
        inputs = s.inputs;
        start = s.start;
        video = o.video;
        audio = o.audio;
        burn = burn;
        segments = some m.1;
        token = token;
        progress_url = progress;
        segment_list_url = list_url;
        manifest_url = opt (str "-manifest_name") s.opts;
      })

unfoldable pub parse_body : Env → Str → List Str × Str → Result Job
parse_body env token (args, null_map) = do
  s ← scan env (without_last_arg args) nothing_read
  finish env token (last_arg args) null_map s

-- func Parse(args []string, env map[string]string) (Job, error), with env's X_PLEX_TOKEN.
unfoldable pub parse : Env → Str → List Str → Result Job
parse env token args =
    if not (leb 2 (length args)) || has_prefix (last_arg args) (str "-")
    then refused no_output
    else parse_body env token (without_null args)
