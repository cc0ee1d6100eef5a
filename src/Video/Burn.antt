-- ===== src/Video/Burn.antt =====
-- The burn-ins of pkg/video/parse.go: inlineStyle, imageBurn and textBurn.
use clusterplex.Prelude.{
  int_eq, ℕ, zero, suc, ◌+◌, Bool, true, false, not, ◌&&◌, ◌||◌, Option, none, some, List, [], ◌∷◌,
  ◌++◌, if◌then◌else◌, ◌==◌, nat_eq, ℤ, pos, negsuc, ltb_ℤ, Str, str, str_eq, is_empty,
}
use clusterplex.Hashring.{itoa}
use clusterplex.Video.Strings.{cut_before, cut_after, cut_prefix, atoi, digits, unescape}
use clusterplex.Video.Job.{
  Result, ok, refused, ◌>>=◌, fold_ok, bad_inlineass, second_burn, overlay_on_itself, bad_overlay,
  overlay_size, inlineass_missing, map_inlineass_missing, null_differs, bad_inline_ref,
  inline_input, not_sidecar, Input, BurnIn, VideoOut,
}
use clusterplex.Video.Filter.{Kv, Filter, Overlay}
use clusterplex.Video.Scan.{Floats}

-- strconv.Itoa of an int.
abbrev int_text : ℤ → Str
int_text (pos n) = itoa n
int_text (negsuc n) = 45 ∷ itoa (n + 1)

-- strings.Join(style, ",")
unfoldable pub join_commas : List Str → Str
join_commas [] = []
join_commas (s ∷ []) = s
join_commas (s ∷ t ∷ rest) = s ++ 44 ∷ join_commas (t ∷ rest)

module _ (fl : Floats) where
  -- The variables of inlineStyle.
  pub record StyleRead : Type 0 where
    pub overrides : Str
    pub outline : fl.Float
    pub shadow : fl.Float
    pub size : ℤ
    pub scale : fl.Float

  abbrev no_style : StyleRead
  no_style = record {
    overrides = [];
    outline = fl.of_int (negsuc 0);
    shadow = fl.of_int (negsuc 0);
    size = pos 0;
    scale = fl.of_int (pos 1);
  }

  abbrev parsed : {A : Type 0} → Option A → (A → StyleRead) → Result StyleRead
  parsed none f = refused bad_inlineass
  parsed (some x) f = ok (f x)

  unfoldable pub style_arg : StyleRead → Kv → Result StyleRead
  style_arg s a =
      let v = unescape (unescape a.v) in
      if a.k == str "font_path" || a.k == str "fontconfig_file" || a.k == str "language"
      then ok s
      else if a.k == str "overrides"
      then ok (record s { overrides = v })
      else if a.k == str "font_size"
      then parsed (atoi v) (λ n. record s { size = n })
      else if a.k == str "font_scale"
      then parsed (fl.parse_float v) (λ x. record s { scale = x })
      else if a.k == str "outline"
      then parsed (fl.parse_float v) (λ x. record s { outline = x })
      else if a.k == str "shadow"
      then parsed (fl.parse_float v) (λ x. record s { shadow = x })
      else refused bad_inlineass

  -- libassLines / plexLines
  abbrev line_ratio : fl.Float
  line_ratio = fl.over (fl.of_int (pos 288)) (fl.of_int (pos 1080))

  -- math.Round(x*k*100)/100, printed.
  abbrev hundredths : fl.Float → Str
  hundredths x =
      let hundred = fl.of_int (pos 100) in
      fl.format_float (fl.over (fl.rounded (fl.times (fl.times x line_ratio) hundred)) hundred)

  abbrev styled : Str → fl.Float → List Str
  styled name x = if fl.at_most (fl.of_int (pos 0)) x then (name ++ hundredths x) ∷ [] else []

  unfoldable pub style_parts : StyleRead → List Str
  style_parts s =
      let font =
        fl.to_int (fl.rounded (fl.times (fl.times (fl.of_int s.size) s.scale) line_ratio)) in
      (if is_empty s.overrides then [] else s.overrides ∷ [])
      ++ (if ltb_ℤ (pos 0) s.size then (str "Fontsize=" ++ int_text font) ∷ [] else [])
      ++ styled (str "Outline=") s.outline
      ++ styled (str "Shadow=") s.shadow

  -- func inlineStyle(args []kv) (string, error)
  unfoldable pub inline_style : List Kv → Result Str
  inline_style args = do s ← fold_ok style_arg no_style args; ok (join_commas (style_parts s))

abbrev burned : Option BurnIn → BurnIn → Result BurnIn
burned none b = ok b
burned (some old) b = refused second_burn

abbrev two_args : List Kv → Option (Kv × Kv)
two_args [] = none
two_args (w ∷ []) = none
two_args (w ∷ h ∷ []) = some (w, h)
two_args (w ∷ h ∷ k ∷ rest) = none

abbrev is_scale : List Filter → Option (Kv × Kv)
is_scale [] = none
is_scale (f ∷ g ∷ rest) = none
is_scale (f ∷ []) = if f.name == str "scale" then two_args f.args else none

abbrev same_size : VideoOut → Option ℤ → Option ℤ → Result {0} Unit
same_size v none h = refused bad_overlay
same_size v (some w) none = refused bad_overlay
same_size v (some w) (some h) =
    if w == v.width && h == v.height then ok tt else refused overlay_size

abbrev check_scale : VideoOut → Option (Kv × Kv) → Result {0} Unit
check_scale v none = refused bad_overlay
check_scale v (some (w, h)) =
    if is_empty w.k && is_empty h.k then same_size v (atoi w.v) (atoi h.v) else refused bad_overlay

-- func (j *Job) imageBurn: the job's burn-in so far, and the one it is then.
unfoldable pub image_burn : Option BurnIn → ℕ → VideoOut → Overlay → Result BurnIn
image_burn burn video v o = if o.src == video then refused overlay_on_itself else do
  _ ← check_scale v (is_scale o.filters)
  burned burn (record { input = 0; stream = o.src; image = true; style = [] })

-- inlineRef: the input (a number past 64 bits, whose error the code ignores, is kept as it is), whether s: is written, and the number.
pub record InlineRef : Type 0 where
  pub input : ℕ
  pub by_subtitle : Bool
  pub number : ℕ

abbrev ref_of : Option ℕ → Bool → Option ℕ → Option InlineRef
ref_of (some i) b (some n) = some (record { input = i; by_subtitle = b; number = n })
ref_of none b o = none
ref_of (some i) b none = none

abbrev ref_after : Str → Str → Option Str → Option InlineRef
ref_after before rest none = ref_of (digits before) false (digits rest)
ref_after before rest (some n) = ref_of (digits before) true (digits n)

unfoldable pub inline_ref : Str → Option InlineRef
inline_ref s = elim (cut_after 58 s) [
  | none ↦ none
  | some rest ↦ ref_after (cut_before 58 s) rest (cut_prefix rest (str "s:"))
]

-- Whether the input at an index is streamed; none is out of range.
unfoldable pub streamed_at : List Input → ℕ → Option Bool
streamed_at [] n = none
streamed_at (i ∷ is) zero = some i.streamed
streamed_at (i ∷ is) (suc n) = streamed_at is n

abbrev pub tied : BurnIn → InlineRef → Option Bool → Result (Option BurnIn)
tied b r none = refused inline_input
tied b r (some streamed) =
    if r.by_subtitle && (not streamed || not (r.number == 0))
    then refused not_sidecar
    else ok (some (record b { input = r.input; stream = r.number }))

abbrev pub tie : List Input → BurnIn → Option InlineRef → Result (Option BurnIn)
tie inputs b none = refused bad_inline_ref
tie inputs b (some r) = tied b r (streamed_at inputs r.input)

-- The burn-in that a text is drawn by, if there is one.
abbrev pub text_of : Option BurnIn → Option BurnIn
text_of none = none
text_of (some b) = if b.image then none else some b

-- func (j *Job) textBurn(mapped, nullMap string) error: the burn-in it leaves.
unfoldable pub text_burn : List Input → Option BurnIn → Str → Str → Result (Option BurnIn)
text_burn inputs burn mapped null_map = elim (text_of burn) [
  | none ↦
      if is_empty mapped && is_empty null_map
      then ok burn
      else if not (is_empty mapped)
      then refused inlineass_missing
      else refused null_differs
  | some b ↦
      if is_empty mapped
      then refused map_inlineass_missing
      else if not (null_map == mapped)
      then refused null_differs
      else tie inputs b (inline_ref mapped)
]
