-- ===== src/Dispatch/Tests.antt =====
-- A transcode with two workers, the first of which hangs up.
use clusterplex.Prelude.{
  ℕ, ◌<◌, ◌≡◌, refl, true, false, none, some, List, [], ◌∷◌, arith, str, str_eq, str_beq, ◌⊎◌,
  has_prefix,
}
use clusterplex.Sorted.{contains}
use clusterplex.Dispatch.{Request, Worker, Dispatcher, execute, nth, transcoder}
use clusterplex.Dispatch.Args.{
  is_conversion, after_last_input, converts, is_codec_option, before_colon, is_video_codec,
}
use clusterplex.Dispatch.Remote.{count, is_routed, is_local, is_delivered, is_plain}
use clusterplex.Dispatch.Place.{execute_places, conversion_stays}
use clusterplex.Dispatch.Fair.{turn, turn_comes}

abbrev pool : List Worker
pool =
    record { name = str "w0"; addr = str "10.0.0.2:9000" }
    ∷ record { name = str "w1"; addr = str "10.0.0.3:9000" }
    ∷ []

abbrev dispatcher : Dispatcher
dispatcher = record {
  scan = none;
  remux_route = some (λ req. record { is_done = false; err = none });
  video_route = none;
  run_local = λ req. none;
  workers = some (some pool);
  has_dial = true;
  pms_addr = str "10.0.0.1:32400";
  dial = λ w. true;
  accept = λ w args. true;
  stream =
      λ w. record { messages = record { text = str "out"; is_finished = true } ∷ []; eof = true };
  sink = λ i. true;
}

abbrev audio_job : Request
audio_job = record {
  target = transcoder;
  args = str "-i" ∷ str "in.mkv" ∷ str "-codec:0" ∷ str "copy" ∷ str "-codec:1" ∷ str "aac" ∷ [];
  env = [];
}

abbrev video_job : Request
video_job = record {
  target = transcoder;
  args = str "-i" ∷ str "in.mkv" ∷ str "-codec:0" ∷ str "h264" ∷ [];
  env = [];
}

execute_places_example :
    (count is_routed (execute dispatcher audio_job 7).events ≡ 1)
    × ((count is_local (execute dispatcher audio_job 7).events ≡ 0)
        ⊎ ((count is_local (execute dispatcher audio_job 7).events ≡ 1)
            × (count is_delivered (execute dispatcher audio_job 7).events ≡ 0)))
execute_places_example = execute_places dispatcher audio_job 7

is_video : is_conversion video_job.args ≡ true
unfolding is_conversion after_last_input converts is_codec_option before_colon is_video_codec
    contains has_prefix str_beq
is_video = refl

conversion_stays_example : count is_plain (execute dispatcher video_job 7).events ≡ 0
conversion_stays_example = conversion_stays dispatcher video_job 7 refl is_video

turn_comes_example : (k : ℕ) × (k < 2) × (turn k 7 pool ≡ nth 0 pool)
turn_comes_example = turn_comes 7 pool 0 (omega arith) (omega arith)
