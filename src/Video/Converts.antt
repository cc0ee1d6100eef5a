-- ===== src/Video/Converts.antt =====
-- IsConversion of pkg/video/classify.go at options that the parser's loop accepts.
use clusterplex.Prelude.{
  Bool, true, false, not, ◌&&◌, List, [], ◌∷◌, ◌++◌, ◌==◌, ==_iff, ◌≡◌, refl, sym, ap, ◌∙◌, inl,
  inr, Bool-cases, Str, str, str_eq, str_beq, nat_eq, has_prefix, arith,
}
use clusterplex.Sorted.{contains}
use clusterplex.Dispatch.Args.{before_colon, is_codec_option, is_video_codec, converts, not_video}
use clusterplex.Video.Strings.{cut_before}
use clusterplex.Video.Options.{is_flag, takes_value, flag_options, value_options}
use clusterplex.Video.Encodes.{Encodes, here, past_flag, past_value}

unfoldable all_of : (Str → Bool) → List Str → Bool
all_of p [] = true
all_of p (x ∷ xs) = p x && all_of p xs

contains-all_of :
    (p : Str → Bool) (xs : List Str) (a : Str)
    → all_of p xs ≡ true
    → contains xs a ≡ true
    → p a ≡ true
unfolding all_of contains
contains-all_of p [] a h c = absurd (ground arith)
contains-all_of p (x ∷ xs) a h c = elim (Bool-cases (x == a)) [
  | inl same ↦ let at_a : p a ≡ p x = ap p (sym ((==_iff x a).0 same)) in at_a ∙ ground (arith, h)
  | inr apart ↦ contains-all_of p xs a (ground (arith, h)) (rw apart at c)
]

abbrev dashed : Str → Bool
dashed [] = false
dashed (c ∷ s) = c == 45

abbrev undashed : Str → Bool
undashed s = not (dashed s)

flag-dashed : (a : Str) → is_flag a ≡ true → dashed a ≡ true
unfolding is_flag all_of
flag-dashed a f = contains-all_of dashed flag_options a refl f

flag-codec : (a : Str) → is_flag a ≡ true → is_codec_option a ≡ false
unfolding is_flag all_of is_codec_option before_colon str_beq
flag-codec a f =
    let other = contains-all_of (λ x. not (is_codec_option x)) flag_options a refl f in
    ground (arith, other)

dashed_base : (s : Str) → dashed (cut_before 58 s) ≡ true → dashed s ≡ true
unfolding cut_before
dashed_base [] h = h
dashed_base (c ∷ s) h = ground (arith, h)

pub flag_is_no_input : (a : Str) → is_flag a ≡ true → (a == str "-i") ≡ false
unfolding is_flag all_of str_beq
flag_is_no_input a f =
    let other = contains-all_of (λ x. not (x == str "-i")) flag_options a refl f in
    ground (arith, other)

pub codec_is_no_input : (a : Str) → cut_before 58 a ≡ str "-codec" → (a == str "-i") ≡ false
unfolding cut_before
codec_is_no_input a e = elim (Bool-cases (a == str "-i")) [
  | inl input ↦
      let wrong : str "-i" ≡ str "-codec" =
        sym (ap (cut_before 58) ((==_iff a (str "-i")).0 input)) ∙ e in
      absurd (ground (arith, wrong))
  | inr other ↦ other
]

value-dashed : (a : Str) → takes_value (cut_before 58 a) ≡ true → dashed a ≡ true
unfolding takes_value all_of
value-dashed a k = dashed_base a (contains-all_of dashed value_options (cut_before 58 a) refl k)

not_video-undashed : (a : Str) → contains not_video a ≡ true → undashed a ≡ true
unfolding all_of
not_video-undashed a b = contains-all_of undashed not_video a refl b

dashed-is_video_codec : (a : Str) → dashed a ≡ true → is_video_codec a ≡ true
unfolding is_video_codec has_prefix
dashed-is_video_codec [] d = absurd (ground arith)
dashed-is_video_codec (c ∷ s) d = elim (Bool-cases (contains not_video (c ∷ s))) [
  | inl bad ↦ absurd (ground (arith, not_video-undashed (c ∷ s) bad, d))
  | inr fine ↦ ground (arith, fine, d)
]

before_colon-cut_before : (a : Str) → before_colon a ≡ cut_before 58 a
unfolding before_colon cut_before
before_colon-cut_before [] = refl
before_colon-cut_before (c ∷ s) = ground (arith, before_colon-cut_before s)

codec-option : (a : Str) → cut_before 58 a ≡ str "-codec" → is_codec_option a ≡ true
unfolding is_codec_option
codec-option a e =
    ground (arith, before_colon-cut_before a, e, ==_iff (before_colon a) (str "-codec"))

codec-dashed : (a : Str) → cut_before 58 a ≡ str "-codec" → dashed a ≡ true
codec-dashed a e = dashed_base a (ap dashed e)

Encodes-dashed : {a : Str} {rest : List Str} → Encodes (a ∷ rest) → dashed a ≡ true
Encodes-dashed {a} (here e n) = codec-dashed a e
Encodes-dashed {a} (past_flag f d) = flag-dashed a f
Encodes-dashed {a} (past_value f k d) = value-dashed a k

x264_is_video : is_video_codec (str "libx264") ≡ true
unfolding is_video_codec contains str_beq has_prefix
x264_is_video = refl

-- The word before an option is read past, whatever it is.
converts_past :
    (v : Str) (rest : List Str) → Encodes rest → converts rest ≡ true → converts (v ∷ rest) ≡ true
unfolding converts
converts_past v [] d h = absurd (ground (arith, h))
converts_past v (a ∷ rest) d h =
    let video = dashed-is_video_codec a (Encodes-dashed d) in ground (arith, video, h)

pub converts-Encodes : {args : List Str} → Encodes args → converts args ≡ true
unfolding converts
converts-Encodes (here {a = a} {rest = rest} e n) = ground (arith, codec-option a e, x264_is_video)
converts-Encodes (past_flag {a = a} f d) = ground (arith, flag-codec a f, converts-Encodes d)
converts-Encodes (past_value {v = v} {rest = rest} f k d) =
    let later = converts-Encodes d in ground (arith, later, converts_past v rest d later)

-- IsConversion's loop holds on, whatever follows.
pub converts-append : (xs ys : List Str) → converts xs ≡ true → converts (xs ++ ys) ≡ true
unfolding converts
converts-append [] ys h = absurd (ground arith)
converts-append (a ∷ []) ys h = absurd (ground arith)
converts-append (a ∷ v ∷ rest) ys h =
    ground (arith, converts-append rest ys, converts-append (v ∷ rest) ys, h)
