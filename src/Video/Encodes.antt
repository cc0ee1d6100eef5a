-- ===== src/Video/Encodes.antt =====
-- Where an encoder stands in a job's options, as Parse's loop reads them and as IsConversion does.
use clusterplex.Prelude.{
  Bool, true, false, some, List, [], ◌∷◌, ◌==◌, ◌≡◌, sym, ◌∙◌, ◌⊎◌, inl, inr, Bool-cases, ℤ, Str,
  str, str_eq, subst, arith,
}
use clusterplex.Video.Strings.{cut_before, cut_after, or_empty}
use clusterplex.Video.Job.{Result, ok, refused, ◌>>=◌, bad_option}
use clusterplex.Video.Options.{is_flag, takes_value}
use clusterplex.Video.Scan.{Env, Scanned, read_option, has_input, scan}
use clusterplex.Video.Recorded.{bind_ok, ok_inj, not_ok, codec_at, Recorded, read_option-records}

-- An option -codec whose value is libx264, after the last -i, at a place where the loop reads an option.
pub data Encodes : List Str → Type 0 where
  here :
      {a : Str} {rest : List Str}
      → cut_before 58 a ≡ str "-codec"
      → has_input rest ≡ false
      → Encodes (a ∷ str "libx264" ∷ rest)
  past_flag :
      {a v : Str} {rest : List Str} → is_flag a ≡ true → Encodes (v ∷ rest) → Encodes (a ∷ v ∷ rest)
  past_value :
      {a v : Str} {rest : List Str}
      → is_flag a ≡ false
      → takes_value (cut_before 58 a) ≡ true
      → Encodes rest
      → Encodes (a ∷ v ∷ rest)

-- The values of options, but not the options, are other texts than -i.
unfoldable pub InputsAligned : List Str → Type 0
InputsAligned [] = Unit
InputsAligned (a ∷ []) = Unit
InputsAligned (a ∷ v ∷ rest) = elim (is_flag a) as (λ b. Type 0) [
  | true ↦ InputsAligned (v ∷ rest)
  | false ↦ ((v == str "-i") ≡ false) × InputsAligned rest
]

-- The loop at an option and its value, by what the option is.
abbrev by_option : Env → Str → Str → List Str → Scanned → Bool → Bool → Result Scanned
by_option env a v rest s true takes = scan env (v ∷ rest) s
by_option env a v rest s false false = refused bad_option
by_option env a v rest s false true =
    read_option env (has_input rest) (cut_before 58 a) (or_empty (cut_after 58 a)) v s
    >>= (λ t. scan env rest t)

scan_two :
    (env : Env) (a v : Str) (rest : List Str) (s : Scanned)
    → scan env (a ∷ v ∷ rest) s
      ≡ by_option env a v rest s (is_flag a) (takes_value (cut_before 58 a))
unfolding scan
scan_two env a v rest s = ground arith

module _ (env : Env) (a v : Str) (rest : List Str) (s t : Scanned) where
  scan-flag :
      is_flag a ≡ true
      → by_option env a v rest s (is_flag a) (takes_value (cut_before 58 a)) ≡ ok t
      → scan env (v ∷ rest) s ≡ ok t
  scan-flag f e = rw f at e

  scan-value :
      is_flag a ≡ false
      → by_option env a v rest s (is_flag a) (takes_value (cut_before 58 a)) ≡ ok t
      → (takes_value (cut_before 58 a) ≡ true)
        × (m : Scanned) × (read_option env
              (has_input rest)
              (cut_before 58 a)
              (or_empty (cut_after 58 a))
              v
              s
            ≡ ok m)
        × (scan env rest m ≡ ok t)
  scan-value f e = elim (Bool-cases (takes_value (cut_before 58 a))) [
    | inl k ↦
        let reading =
          read_option env (has_input rest) (cut_before 58 a) (or_empty (cut_after 58 a)) v s in
        let (m, r, g) = bind_ok reading (λ u. scan env rest u) t (rw (f, k) at e) in (k, m, r, g)
    | inr nk ↦ not_ok _ (rw (f, nk) at e)
  ]

-- The options that the loop reads, each with what it reads of it.
pub data Steps (env : Env) : List Str → Scanned → Scanned → Type 0 where
  all_read : {s : Scanned} → Steps env [] s s
  last_flag : {a : Str} {s : Scanned} → is_flag a ≡ true → Steps env (a ∷ []) s s
  flag_read :
      {a v : Str} {rest : List Str} {s t : Scanned}
      → is_flag a ≡ true
      → Steps env (v ∷ rest) s t
      → Steps env (a ∷ v ∷ rest) s t
  value_read :
      {a v : Str} {rest : List Str} {s m t : Scanned}
      → is_flag a ≡ false
      → takes_value (cut_before 58 a) ≡ true
      → read_option env (has_input rest) (cut_before 58 a) (or_empty (cut_after 58 a)) v s ≡ ok m
      → Steps env rest m t
      → Steps env (a ∷ v ∷ rest) s t

pub scan-Steps :
    (env : Env) (args : List Str) (s t : Scanned) → scan env args s ≡ ok t → Steps env args s t
unfolding scan
scan-Steps env [] s t e = subst (Steps env [] s) (ok_inj e) all_read
scan-Steps env (a ∷ []) s t e = elim (Bool-cases (is_flag a)) [
  | inl f ↦
      let same : ok s ≡ ok t = rw (f) at e in
      subst (Steps env (a ∷ []) s) (ok_inj same) (last_flag f)
  | inr nf ↦ not_ok _ (rw nf at e)
]
scan-Steps env (a ∷ v ∷ rest) s t e =
    let by_tests = sym (scan_two env a v rest s) ∙ e in
    elim (Bool-cases (is_flag a)) [
      | inl f ↦
          let g : scan env (v ∷ rest) s ≡ ok t = scan-flag env a v rest s t f by_tests in
          flag_read f (scan-Steps env (v ∷ rest) s t g)
      | inr nf ↦
          let (k, m, r, g) = scan-value env a v rest s t nf by_tests in
          value_read nf k r (scan-Steps env rest m t g)
    ]

-- A codec that is recorded in the end was there at the start, or an option recorded it.
pub Steps-Encodes :
    {env : Env} {args : List Str} {s t : Scanned} (i : ℤ)
    → Steps env args s t
    → codec_at i t.per_out ≡ some (str "libx264")
    → (codec_at i s.per_out ≡ some (str "libx264")) ⊎ Encodes args
Steps-Encodes i all_read c = inl c
Steps-Encodes i (last_flag f) c = inl c
Steps-Encodes i (flag_read f d) c = elim (Steps-Encodes i d c) [
  | inl before ↦ inl before
  | inr later ↦ inr (past_flag f later)
]
Steps-Encodes {env} i (value_read {a = a} {v = v} {rest = rest} {s = s} {m = m} f k r d) c =
    elim (Steps-Encodes i d c) [
      | inr later ↦ inr (past_value f k later)
      | inl before ↦ recorded before (
          read_option-records i env (has_input rest) (cut_before 58 a) (or_empty (cut_after 58 a)) v
            s m r)
    ]
  where
    recorded :
        codec_at i m.per_out ≡ some (str "libx264")
        → Recorded i (has_input rest) (cut_before 58 a) v s m
        → (codec_at i s.per_out ≡ some (str "libx264")) ⊎ Encodes (a ∷ v ∷ rest)
    recorded b (inl same) = inl (sym same ∙ b)
    recorded b (inr (codec, output, here_read)) =
        let encoder : v ≡ str "libx264" = cc in
        inr (subst (λ x. Encodes (a ∷ x ∷ rest)) (sym encoder) (here codec output))
