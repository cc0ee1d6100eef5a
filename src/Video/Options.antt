-- ===== src/Video/Options.antt =====
-- The tables of options of pkg/video/parse.go.
use clusterplex.Prelude.{Bool, Option, List, [], ◌∷◌, ◌++◌, Str, str, str_eq}
use clusterplex.Dict.{Dict, lookup}
use clusterplex.Sorted.{contains}

abbrev pub segment_options : List Str
segment_options =
    str "-segment_format"
    ∷ str "-individual_header_trailer"
    ∷ str "-segment_time"
    ∷ str "-segment_start_number"
    ∷ str "-segment_time_delta"
    ∷ str "-segment_list"
    ∷ str "-segment_list_type"
    ∷ str "-segment_list_size"
    ∷ str "-segment_list_separate_stream_times"
    ∷ str "-segment_list_unfinished"
    ∷ []

abbrev pub dash_options : List Str
dash_options =
    str "-seg_duration"
    ∷ str "-dash_segment_type"
    ∷ str "-init_seg_name"
    ∷ str "-media_seg_name"
    ∷ str "-window_size"
    ∷ str "-delete_removed"
    ∷ str "-skip_to_segment"
    ∷ str "-manifest_name"
    ∷ []

-- The source lists these in another order; what counts is which are there.
abbrev pub value_options : List Str
value_options =
    str "-codec"
    ∷ str "-analyzeduration"
    ∷ str "-probesize"
    ∷ str "-eae_prefix"
    ∷ str "-ss"
    ∷ str "-i"
    ∷ str "-fps_mode"
    ∷ str "-loglevel"
    ∷ str "-loglevel_plex"
    ∷ str "-progressurl"
    ∷ str "-filter_complex"
    ∷ str "-map"
    ∷ str "-live_start_index"
    ∷ str "-copypriorss"
    ∷ str "-crf"
    ∷ str "-maxrate"
    ∷ str "-bufsize"
    ∷ str "-r"
    ∷ str "-preset"
    ∷ str "-x264opts"
    ∷ str "-force_key_frames"
    ∷ str "-metadata"
    ∷ str "-b"
    ∷ str "-f"
    ∷ str "-max_delay"
    ∷ str "-avoid_negative_ts"
    ∷ str "-map_metadata"
    ∷ str "-map_chapters"
    ∷ str "-map_inlineass"
    ∷ (segment_options ++ dash_options)

abbrev pub flag_options : List Str
flag_options =
    str "-start_at_zero" ∷ str "-copyts" ∷ str "-y" ∷ str "-nostats" ∷ str "-xioerror" ∷ []

abbrev pub per_output : List Str
per_output =
    str "-codec"
    ∷ str "-crf"
    ∷ str "-maxrate"
    ∷ str "-bufsize"
    ∷ str "-r"
    ∷ str "-preset"
    ∷ str "-x264opts"
    ∷ str "-force_key_frames"
    ∷ str "-b"
    ∷ str "-copypriorss"
    ∷ []

abbrev pub read_and_ignored : List Str
read_and_ignored =
    str "-analyzeduration"
    ∷ str "-probesize"
    ∷ str "-loglevel"
    ∷ str "-loglevel_plex"
    ∷ str "-max_delay"
    ∷ str "-preset"
    ∷ str "-x264opts"
    ∷ []

-- remux.InitName and remux.MediaName of pkg/remux/job.go.
abbrev pub init_name : Str
init_name = str "init-stream$RepresentationID$.m4s"

abbrev pub media_name : Str
media_name = str "chunk-stream$RepresentationID$-$Number%05d$.m4s"

abbrev pub fixed : Dict Str Str
fixed =
    (str "-fps_mode", str "cfr")
    ∷ (str "-individual_header_trailer", str "0")
    ∷ (str "-segment_list_type", str "csv")
    ∷ (str "-segment_list_separate_stream_times", str "1")
    ∷ (str "-segment_list_unfinished", str "1")
    ∷ (str "-avoid_negative_ts", str "disabled")
    ∷ (str "-map_metadata", str "-1")
    ∷ (str "-map_chapters", str "-1")
    ∷ (str "-dash_segment_type", str "mp4")
    ∷ (str "-delete_removed", str "false")
    ∷ (str "-init_seg_name", init_name)
    ∷ (str "-media_seg_name", media_name)
    ∷ []

unfoldable pub is_flag : Str → Bool
is_flag a = contains flag_options a

unfoldable pub takes_value : Str → Bool
takes_value base = contains value_options base

unfoldable pub fixed_value : Str → Option Str
fixed_value base = lookup base fixed
