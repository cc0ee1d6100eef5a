-- ===== src/Video/Job.antt =====
-- pkg/video/job.go: a conversion as Plex asked for it, and how the parser refuses one.
use clusterplex.Prelude.{if◌then◌else◌, is_empty, ℕ, Bool, Option, List, [], ◌∷◌, Str, ℤ}
use clusterplex.Slots.{OutputKind}

-- What ErrShape is wrapped with: one constructor for each message of the parser.
pub data Refusal : Type 0 where
  no_output bad_option no_input live_without_input no_progress : Refusal
  bad_live_index late_start bad_start bad_metadata bad_fixed empty_input bad_live_input : Refusal
  bad_chain bad_map second_overlay chain_inputs no_chain label_loops : Refusal
  stray_output no_codec second_video second_audio bad_codec no_video : Refusal
  bad_scale bad_scale_option bad_inlineass second_burn bad_format_option bad_pix_fmt bad_filter :
      Refusal
  no_scale_format bad_video_option bad_value no_rate overlay_on_itself bad_overlay overlay_size :
      Refusal
  inlineass_missing map_inlineass_missing null_differs bad_inline_ref inline_input not_sidecar :
      Refusal
  bad_audio_filter bad_layout bad_osr bad_resample_option bad_copypriorss bad_audio_option : Refusal
  no_bit_rate other_muxer bad_target dash_without bad_duration bad_number bad_segment_format :
      Refusal
  no_segment_list bad_muxer : Refusal

pub data Result {ℓ} (A : Type ℓ) : Type ℓ where
  ok : A → Result A
  refused : Refusal → Result A

infixl 5 ◌>>=◌
abbrev pub ◌>>=◌ {ℓ κ} : {A : Type ℓ} {B : Type κ} → Result A → (A → Result B) → Result B
ok a >>= f = f a
refused e >>= f = refused e

-- A loop whose body can be refused.
unfoldable pub fold_ok : {S A : Type 0} → (S → A → Result S) → S → List A → Result S
fold_ok f s [] = ok s
fold_ok f s (x ∷ xs) = do t ← f s x; fold_ok f t xs

pub record Rational : Type 0 where
  pub num : ℕ
  pub den : ℕ

pub record Input : Type 0 where
  pub path : Str
  pub streamed : Bool
  pub format : Str
  pub name : Str
  pub source : Str
  pub live : Bool

-- Durations are nanoseconds. The pool's own fields Deinterlace and ToneMap, which Parse leaves false,
-- are left out.
pub record VideoOut : Type 0 where
  pub stream : ℕ
  pub width : ℤ
  pub height : ℤ
  pub pix_fmt : Str
  pub crf : ℤ
  pub max_rate : ℤ
  pub buf_size : ℤ
  pub frame_rate : Rational
  pub keyframe_every : ℤ

pub record AudioOut : Type 0 where
  pub stream : ℕ
  pub copy : Bool
  pub channels : ℕ
  pub sample_rate : ℤ
  pub bit_rate : ℤ
  pub language : Str

pub record BurnIn : Type 0 where
  pub input : ℕ
  pub stream : ℕ
  pub image : Bool
  pub style : Str

pub record Segmenting : Type 0 where
  pub duration : ℤ
  pub start_number : ℤ
  pub pattern : Str
  pub list_size : ℤ
  pub time_delta : ℤ

-- video is none until it is read. FileOut and OutputPath, which Parse leaves empty, are left out.
pub record Job : Type 0 where
  pub output : Option OutputKind
  pub session : Str
  pub inputs : List Input
  pub start : ℤ
  pub video : Option VideoOut
  pub audio : Option AudioOut
  pub burn : Option BurnIn
  pub segments : Option Segmenting
  pub token : Str
  pub progress_url : Str
  pub segment_list_url : Str
  pub manifest_url : Str

-- func (j Job) RingKey() string
unfoldable pub ring_key : Job → Str
ring_key j = elim j.inputs [
  | [] ↦ j.session
  | i ∷ rest ↦ if is_empty i.path then j.session else i.path
]
