-- ===== src/Video/Dispatched.antt =====
-- The dispatcher's IsConversion and the pool's Parse, at the same arguments.
use clusterplex.Prelude.{
  ++-[], ++_assoc, true, false, not, Option, none, some, List, [], ◌∷◌, ◌++◌, ◌==◌, ==_iff, ◌≡◌,
  ◌≢◌, refl, sym, ap, ◌∙◌, ◌⊎◌, inl, inr, Bool-cases, Option-cases, ℤ, Str, str, str_eq, str_beq,
  subst, arith,
}
use clusterplex.Dict.{Dict, lookup}
use clusterplex.Sorted.{contains}
use clusterplex.Slots.{OutputKind}
use clusterplex.Dispatch.Args.{is_conversion}
use clusterplex.Video.Job.{ok, Job, BurnIn, Segmenting, Input, bad_target, bad_segment_format}
use clusterplex.Video.Options.{is_flag}
use clusterplex.Video.Scan.{Env, Floats, nothing_read, has_input}
use clusterplex.Video.Burn.{text_burn, inline_ref}
use clusterplex.Video.Outputs.{opt}
use clusterplex.Video.Strings.{cut_after}
use clusterplex.Video.Muxer.{muxer, dash_muxer, segment_muxer}
use clusterplex.Video.Parse.{
  parse, without_null, split_null, null_output, last_arg, without_last_arg, args_eq, null_tail,
  onto, taken_off,
}
use clusterplex.Video.Recorded.{unless_ok, codec_at}
use clusterplex.Video.Encodes.{Encodes, InputsAligned, scan-Steps, Steps-Encodes}
use clusterplex.Video.Encoded.{outputs-codec}
use clusterplex.Video.Conversion.{Encodes-is_conversion}
use clusterplex.Video.Muxed.{muxer-format}
use clusterplex.Video.Accepted.{Parsed, parse-Parsed}

abbrev NotInput : Str → Type 0
NotInput s = (s == str "-i") ≡ false

is_target : (target wanted : Str) → (target == wanted) ≡ true → NotInput wanted → NotInput target
is_target target wanted e n = ground (arith, ==_iff target wanted, e, n)

module _ (fl : Floats) (opts : Dict Str Str) (target : Str) where
  dash_muxer-target : (s : Segmenting) → dash_muxer fl opts target ≡ ok s → NotInput target
  unfolding dash_muxer str_beq
  dash_muxer-target s e =
      let (named, _) = unless_ok (not (target == str "dash")) _ bad_target e in
      is_target target (str "dash") (ground (arith, named)) refl

  segment_muxer-target :
      (url : Str) (s : Segmenting) → segment_muxer fl opts url target ≡ ok s → NotInput target
  unfolding segment_muxer str_beq
  segment_muxer-target url s e =
      let format = opt (str "-segment_format") opts in
      let (_, f) = unless_ok (not (format == str "mpegts")) _ bad_segment_format e in
      let (named, _) = unless_ok (not (target == str "media-%05d.ts")) _ bad_target f in
      let same : (target == str "media-%05d.ts") ≡ true = ground (arith, named) in
      is_target target (str "media-%05d.ts") same refl

  muxer-target :
      (url : Str) (m : OutputKind × Segmenting) → muxer fl opts url target ≡ ok m → NotInput target
  muxer-target url m e = elim (muxer-format fl opts target url m e) [
    | inl by_dash ↦ dash_muxer-target m.1 by_dash
    | inr by_segments ↦ segment_muxer-target url m.1 by_segments
  ]

no_reference : inline_ref (str "-i") ≡ none
unfolding inline_ref cut_after
no_reference = refl

text_burn-null :
    (inputs : List Input) (burn b : Option BurnIn) (mapped null_map : Str)
    → text_burn inputs burn mapped null_map ≡ ok b
    → NotInput null_map
unfolding text_burn
text_burn-null inputs burn b mapped null_map e = ground (
  arith,
  e,
  ==_iff null_map mapped,
  ==_iff null_map (str "-i"),
  ==_iff mapped (str "-i"),
  no_reference,
)

args_eq_sound : (xs ys : List Str) → args_eq xs ys ≡ true → xs ≡ ys
unfolding args_eq
args_eq_sound [] [] e = refl
args_eq_sound [] (y ∷ ys) e = absurd (ground (arith, e))
args_eq_sound (x ∷ xs) [] e = absurd (ground (arith, e))
args_eq_sound (x ∷ xs) (y ∷ ys) e = ground (arith, e, ==_iff x y, args_eq_sound xs ys)

null_output-args :
    (a : Str) (args : List Str) (m : Str)
    → null_output (a ∷ args) ≡ some m
    → a ∷ args ≡ str "-map" ∷ m ∷ null_tail
unfolding null_output
null_output-args a [] m e = absurd (ground (arith, e))
null_output-args a (b ∷ rest) m e =
    ground (arith, e, ==_iff a (str "-map"), args_eq_sound rest null_tail)

-- What is before the null output, and the null output.
split_null-parts :
    (args : List Str)
    → (split_null args ≡ (args, []))
      ⊎ (xs : List Str) × (m : Str) × (split_null args ≡ (xs, m))
        × (args ≡ xs ++ str "-map" ∷ m ∷ null_tail)
unfolding split_null
split_null-parts [] = inl refl
split_null-parts (a ∷ args) = elim (Option-cases (null_output (a ∷ args))) [
  | inr (m, found) ↦
      inr ([], m, ap (taken_off a (split_null args)) found, null_output-args a args m found)
  | inl later ↦ elim (split_null-parts args) [
    | inl none_there ↦ inl (ap (taken_off a (split_null args)) later ∙ ap (onto a) none_there)
    | inr (xs, m, e, parts) ↦
        inr (a ∷ xs, m, ap (taken_off a (split_null args)) later ∙ ap (onto a) e, ap (◌∷◌ a) parts)
  ]
]

last_arg-split :
    (a : Str) (xs : List Str) → a ∷ xs ≡ without_last_arg (a ∷ xs) ++ last_arg (a ∷ xs) ∷ []
unfolding without_last_arg last_arg
last_arg-split a [] = refl
last_arg-split a (b ∷ xs) = ap (◌∷◌ a) (last_arg-split b xs)

InputsAligned-prefix : (xs ys : List Str) → InputsAligned (xs ++ ys) → InputsAligned xs
unfolding InputsAligned is_flag contains str_beq
InputsAligned-prefix [] ys h = tt
InputsAligned-prefix (a ∷ []) ys h = tt
InputsAligned-prefix (a ∷ v ∷ xs) ys h = elim (Bool-cases (is_flag a)) [
  | inl f ↦ rw f (InputsAligned-prefix (v ∷ xs) ys (rw f at h))
  | inr nf ↦
      let rest : ((v == str "-i") ≡ false) × InputsAligned (xs ++ ys) = rw nf at h in
      rw nf (rest.0, InputsAligned-prefix xs ys rest.1)
]

contains-prefix :
    (xs ys : List Str) → has_input (xs ++ ys) ≡ true → has_input ys ≡ false → has_input xs ≡ true
unfolding contains
contains-prefix [] ys h n = ground (arith, h, n)
contains-prefix (a ∷ xs) ys h n = ground (arith, h, n, contains-prefix xs ys)

no_null_input : (m : Str) → NotInput m → has_input (str "-map" ∷ m ∷ null_tail) ≡ false
unfolding contains str_beq
no_null_input m n = ground (arith, n)

-- The arguments, as the loop's options and what follows them.
abbrev ShapedBy : List Str → List Str → Type 0
ShapedBy args xs =
    (rest : List Str) × (args ≡ without_last_arg xs ++ rest) × (has_input rest ≡ false)

abbrev Shaped : List Str → Type 0
Shaped args = ShapedBy args (without_null args).0

shape_of :
    (a : Str) (args xs tail : List Str)
    → args ≡ xs ++ tail
    → NotInput (last_arg (a ∷ xs))
    → has_input tail ≡ false
    → ShapedBy (a ∷ args) (a ∷ xs)
unfolding contains
shape_of a args xs tail parts target n =
    let whole : a ∷ args ≡ (without_last_arg (a ∷ xs) ++ last_arg (a ∷ xs) ∷ []) ++ tail =
      ap (◌∷◌ a) parts ∙ ap (λ ys. ys ++ tail) (last_arg-split a xs) in
    let regrouped = ++_assoc (without_last_arg (a ∷ xs)) (last_arg (a ∷ xs) ∷ []) tail in
    (last_arg (a ∷ xs) ∷ tail, whole ∙ regrouped, ground (arith, target, n))

shaped :
    (a : Str) (args : List Str)
    → NotInput (last_arg (without_null (a ∷ args)).0)
    → NotInput (without_null (a ∷ args)).1
    → Shaped (a ∷ args)
unfolding without_null contains
shaped a args target null_map = elim (split_null-parts args) [
  | inl e ↦
      with_parts (args, []) e (shape_of a args args [] (sym (++-[] args)) (moved (args, []) e) refl)
  | inr (xs, m, e, parts) ↦
      let null_is : NotInput m = subst (λ r. NotInput r.1) e null_map in
      with_parts (xs, m) e
        (shape_of a args xs (str "-map" ∷ m ∷ null_tail) parts (moved (xs, m) e)
          (no_null_input m null_is))
]
  where
    with_parts :
        (r : List Str × Str)
        → split_null args ≡ r
        → ShapedBy (a ∷ args) (a ∷ r.0)
        → Shaped (a ∷ args)
    with_parts r e x = subst (λ r. ShapedBy (a ∷ args) (a ∷ r.0)) (sym e) x

    moved : (r : List Str × Str) → split_null args ≡ r → NotInput (last_arg (a ∷ r.0))
    moved r e = subst (λ r. NotInput (last_arg (a ∷ r.0))) e target

none_recorded : (i : ℤ) → codec_at i [] ≢ some (str "libx264")
unfolding codec_at lookup
none_recorded i e = ground (arith, e)

module _ {env : Env} {token : Str} {args : List Str} {j : Job} (p : Parsed env token args j) where
  target_is_no_input : NotInput (last_arg (without_null args).0)
  target_is_no_input =
      let (m, mux, _, _) = p.made.muxed in
      muxer-target env.floats p.scanned.opts (last_arg (without_null args).0)
        (opt (str "-segment_list") p.scanned.opts) m mux

  null_is_no_input : NotInput (without_null args).1
  null_is_no_input =
      let (b, read, _) = p.made.burn_read in
      text_burn-null p.scanned.inputs p.made.reads.burn b
        (opt (str "-map_inlineass") p.scanned.opts) (without_null args).1 read

  Parsed-Encodes : Encodes (without_last_arg (without_null args).0)
  Parsed-Encodes =
      let s = p.scanned in
      let (i, codec) =
        outputs-codec env.floats s.maps s.chains s.per_out p.made.reads p.made.outputs_read in
      elim (Steps-Encodes i
        (scan-Steps env (without_last_arg (without_null args).0) nothing_read s p.scan_ok) codec) [
          | inl before ↦ absurd (none_recorded i before)
          | inr found ↦ found
        ]

empty_has_none : has_input [] ≢ true
unfolding contains
empty_has_none e = ground (arith, e)

-- A job that Parse accepts is a conversion to the dispatcher, if it has an -i and the value of no
-- option is -i.
pub parse-is_conversion :
    (env : Env) (token : Str) (args : List Str) (j : Job)
    → InputsAligned args
    → has_input args ≡ true
    → parse env token args ≡ ok j
    → is_conversion args ≡ true
parse-is_conversion env token [] j h i e = absurd (empty_has_none i)
parse-is_conversion env token (a ∷ args) j h i e =
    let p = parse-Parsed env token (a ∷ args) j e in
    let (rest, parts, n) = shaped a args (target_is_no_input p) (null_is_no_input p) in
    let options = without_last_arg (without_null (a ∷ args)).0 in
    let aligned = InputsAligned-prefix options rest (subst InputsAligned parts h) in
    let has_one = contains-prefix options rest (subst (λ xs. has_input xs ≡ true) parts i) n in
    ap is_conversion parts ∙ Encodes-is_conversion rest (Parsed-Encodes p) aligned has_one n
