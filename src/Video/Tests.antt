-- ===== src/Video/Tests.antt =====
-- Jobs of the shape that Plex asks for, and the theorems of this folder at them. The floats of the
-- runs are whole numbers.
use clusterplex.Prelude.{
  ℕ, ◌↔◌, int_beq, ◌*◌, ◌/◌, ◌≡◌, refl, true, false, Option, none, some, List, [], ◌∷◌, ℤ, pos,
  pos_part, sub_ℕ, ltb_ℤ, leb_ℤ, Str, str, str_eq, str_beq, has_prefix,
}
use clusterplex.Dict.{lookup, insert, has}
use clusterplex.Slots.{hls}
use clusterplex.Hashring.{itoa}
use clusterplex.Sorted.{contains}
use clusterplex.Dispatch.Args.{is_conversion}
use clusterplex.Video.Encodes.{InputsAligned}
use clusterplex.Video.Dispatched.{parse-is_conversion}
use clusterplex.Video.WellFormed.{parse-IsWellFormed, IsWellFormed}
use clusterplex.Video.Rounds.{resolve-follow}
use clusterplex.Video.Parse.{
  args_eq, finish, last_arg, null_output, parse, parse_body, split_null, without_last_arg,
  without_null,
}
use clusterplex.Video.Muxer.{all_given, any_set, dash_muxer, muxer, number_or, segment_muxer}
use clusterplex.Video.Outputs.{
  format_arg, keyframe_number, opt, pix_fmt_of, rated, scale_arg, scaled_and_formatted,
  video_filter, video_option, video_out,
}
use clusterplex.Video.Streams.{
  all_below, audio_filter, audio_option, audio_out, outputs, outs_from, read_output, resample_arg,
}
use clusterplex.Video.Burn.{
  image_burn, inline_ref, inline_style, join_commas, streamed_at, style_arg, style_parts, text_burn,
}
use clusterplex.Video.Numbers.{bit_rate, frame_rate, gcd, gcd_from, near, ntsc_rate, seconds}
use clusterplex.Video.Scan.{
  has_input, Floats, Urls, Env, after_session, input_of, live_input, other_option, output_option,
  put_output, read_chains, read_input, read_metadata, read_option, read_start, scan, session_of,
}
use clusterplex.Video.Options.{fixed_value, is_flag, takes_value}
use clusterplex.Video.Job.{ok, Job, fold_ok}
use clusterplex.Video.Filter.{
  Chain, chain_shape, chains_of, filters_of, find_chain, follow, follow2, follow_plain, kind_of,
  kvs_of, last_is_out, leading_label, leading_labels, parse_filter_complex, resolve, split_out,
  stream_ref, whole_label, Source,
}
use clusterplex.Video.Strings.{
  after_last, after_last_from, atoi, contains_text, cut_after, cut_before, cut_prefix, digits,
  digits_from, has_suffix, split_at, split_from, split_unescaped, trim_left, trim_right, unescape,
  unescape_from,
}

abbrev whole_floats : Floats
whole_floats = record {
  Float = ℤ;
  parse_float = atoi;
  beside_error = λ s. pos 0;
  of_int = λ n. n;
  to_int = λ x. x;
  times = λ x y. pos (pos_part x * pos_part y);
  over = λ x y. pos (pos_part x / pos_part y);
  minus = λ x y. sub_ℕ (pos_part x) (pos_part y);
  less = ltb_ℤ;
  at_most = leb_ℤ;
  rounded = λ x. x;
  format_float = λ x. str "1";
}

-- Of a URL with a scheme and a host of one byte, the path: after the eighth byte.
abbrev path_after : Option Str → Option (Str × Str)
path_after none = none
path_after (some path) = some (str "http", path)

abbrev test_urls : Urls
test_urls = record { scheme_path = λ s. path_after (cut_prefix s (str "http://p")) }

abbrev env : Env
env = record { floats = whole_floats; urls = test_urls }

abbrev job_args : List Str
job_args =
    str "-codec:0"
    ∷ str "hevc"
    ∷ str "-ss"
    ∷ str "7"
    ∷ str "-i"
    ∷ str "/media/a.mkv"
    ∷ str "-filter_complex"
    ∷ str "[0:0]scale=w=1280:h=720[0];[0]format=pix_fmts=yuv420p|nv12[1]"
    ∷ str "-map"
    ∷ str "[1]"
    ∷ str "-codec:0"
    ∷ str "libx264"
    ∷ str "-maxrate:0"
    ∷ str "3000k"
    ∷ str "-bufsize:0"
    ∷ str "6M"
    ∷ str "-r:0"
    ∷ str "25"
    ∷ str "-force_key_frames:0"
    ∷ str "expr:gte(t,n_forced*3)"
    ∷ str "-map"
    ∷ str "0:1"
    ∷ str "-codec:1"
    ∷ str "copy"
    ∷ str "-f"
    ∷ str "ssegment"
    ∷ str "-segment_format"
    ∷ str "mpegts"
    ∷ str "-segment_time"
    ∷ str "3"
    ∷ str "-segment_list"
    ∷ str "http://p/list"
    ∷ str "-progressurl"
    ∷ str "http://p/session/s1/x/progress"
    ∷ str "-y"
    ∷ str "media-%05d.ts"
    ∷ []

abbrev job : Job
job = record {
  output = some hls;
  session = str "s1";
  inputs =
      record {
        path = str "/media/a.mkv";
        streamed = false;
        format = [];
        name = [];
        source = [];
        live = false;
      }
      ∷ [];
  start = pos 7000000000;
  video = some (record {
    stream = 0;
    width = pos 1280;
    height = pos 720;
    pix_fmt = str "nv12";
    crf = pos 0;
    max_rate = pos 3000000;
    buf_size = pos 6000000;
    frame_rate = record { num = 25; den = 1 };
    keyframe_every = pos 3000000000;
  });
  audio = some (record {
    stream = 1;
    copy = true;
    channels = 0;
    sample_rate = pos 0;
    bit_rate = pos 0;
    language = [];
  });
  burn = none;
  segments = some (record {
    duration = pos 3000000000;
    start_number = pos 0;
    pattern = str "media-%05d.ts";
    list_size = pos 0;
    time_delta = pos 0;
  });
  token = [];
  progress_url = str "http://p/session/s1/x/progress";
  segment_list_url = str "http://p/list";
  manifest_url = [];
}

parsed : parse env [] job_args ≡ ok job
unfolding after_last after_last_from after_session all_below all_given any_set args_eq atoi
    audio_filter audio_option audio_out bit_rate chain_shape chains_of contains contains_text
    cut_after cut_before cut_prefix dash_muxer digits digits_from filters_of find_chain finish
    fixed_value fold_ok follow follow2 follow_plain format_arg frame_rate gcd gcd_from has
    has_prefix has_suffix image_burn inline_ref inline_style input_of insert int_beq is_flag itoa
    join_commas keyframe_number kind_of kvs_of last_arg last_is_out leading_label leading_labels
    live_input lookup muxer near ntsc_rate null_output number_or opt other_option output_option
    outputs outs_from parse parse_body parse_filter_complex pix_fmt_of put_output rated read_chains
    read_input read_metadata read_option read_output read_start resample_arg resolve scale_arg
    scaled_and_formatted scan seconds segment_muxer session_of split_at split_from split_null
    split_out split_unescaped str_beq stream_ref streamed_at style_arg style_parts takes_value
    text_burn trim_left trim_right unescape unescape_from video_filter video_option video_out
    whole_label without_last_arg without_null
parsed = refl

aligned : InputsAligned job_args
unfolding InputsAligned is_flag contains str_beq
aligned = (
  refl,
  (
    refl,
    (
      refl,
      (
        refl,
        (
          refl,
          (
            refl,
            (
              refl,
              (refl, (refl, (refl, (refl, (refl, (refl, (refl, (refl, (refl, (refl, tt)))))))))),
            ),
          ),
        ),
      ),
    ),
  ),
)

has_one : has_input job_args ≡ true
unfolding contains str_beq
has_one = refl

parse-is_conversion_example : is_conversion job_args ≡ true
parse-is_conversion_example = parse-is_conversion env [] job_args job aligned has_one parsed

parse-IsWellFormed_example : IsWellFormed job
parse-IsWellFormed_example = parse-IsWellFormed env [] job_args job parsed

-- An overlay of a scaled stream and a second one, by two labels.
abbrev layered : List Chain
layered =
    record {
      sources = str "1" ∷ str "0:2" ∷ [];
      filters = record { name = str "overlay"; args = [] } ∷ [];
      out = str "2";
    }
    ∷ record { sources = str "0:0" ∷ []; filters = []; out = str "1" }
    ∷ []

abbrev layered_source : Source
layered_source = record { src = 0; filters = []; over = some (record { src = 2; filters = [] }) }

resolve-follow_example :
    (resolve layered (str "[2]") ≡ ok layered_source)
    ↔ ((n : ℕ) × (follow layered n (str "2") [] none ≡ ok layered_source))
unfolding stream_ref cut_prefix has_prefix leading_label cut_after cut_before
resolve-follow_example = resolve-follow layered (str "[2]") (str "2") layered_source refl refl

layered_followed : follow layered 2 (str "2") [] none ≡ ok layered_source
unfolding follow find_chain kind_of stream_ref follow2 str_beq has_prefix digits digits_from
    cut_prefix
layered_followed = refl
