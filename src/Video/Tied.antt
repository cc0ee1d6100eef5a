-- ===== src/Video/Tied.antt =====
-- The subtitle that an accepted job burns in.
use clusterplex.Prelude.{
  int_eq, ℕ, ◌<◌, suc, zero, Bool, true, not, ◌&&◌, ◌||◌, Option, none, some, List, [], ◌∷◌, ◌==◌,
  ◌≡◌, refl, ◌⊎◌, inl, inr, Option-cases, Str, str_eq, length, subst, arith, nat_eq,
}
use clusterplex.Video.Job.{ok, not_sidecar, Input, BurnIn}
use clusterplex.Video.Burn.{text_burn, text_of, tie, tied, streamed_at, inline_ref, InlineRef}
use clusterplex.Video.Recorded.{ok_inj, not_ok, unless_ok}
use clusterplex.Video.Ready.{IfAny}

-- A burned subtitle that is text is of an input.
abbrev pub IsTied : List Input → BurnIn → Type 0
IsTied inputs b = (b.image ≡ true) ⊎ (b.input < length inputs)

streamed_at-lt :
    (inputs : List Input) (n : ℕ) (b : Bool) → streamed_at inputs n ≡ some b → n < length inputs
unfolding streamed_at
streamed_at-lt [] n b e = absurd (ground (arith, e))
streamed_at-lt (i ∷ is) zero b e = omega arith
streamed_at-lt (i ∷ is) (suc n) b e = let below = streamed_at-lt is n b e in omega arith

tied-IsTied :
    (inputs : List Input) (b : BurnIn) (r : InlineRef) (o : Option Bool) (t : Option BurnIn)
    → streamed_at inputs r.input ≡ o
    → tied b r o ≡ ok t
    → IfAny (IsTied inputs) t
tied-IsTied inputs b r none t at e = not_ok _ e
tied-IsTied inputs b r (some streamed) t at e =
    let below = streamed_at-lt inputs r.input streamed at in
    let (_, f) =
      unless_ok (r.by_subtitle && (not streamed || not (r.number == 0))) _ not_sidecar e in
    subst (IfAny (IsTied inputs)) (ok_inj f) (inr below)

tie-IsTied :
    (inputs : List Input) (b : BurnIn) (o : Option InlineRef) (t : Option BurnIn)
    → tie inputs b o ≡ ok t
    → IfAny (IsTied inputs) t
tie-IsTied inputs b none t e = not_ok _ e
tie-IsTied inputs b (some r) t e = tied-IsTied inputs b r (streamed_at inputs r.input) t refl e

no_text :
    (inputs : List Input) (burn : Option BurnIn) → text_of burn ≡ none → IfAny (IsTied inputs) burn
no_text inputs none e = tt
no_text inputs (some b) e = inl (ground (arith, e))

text_burn-ways :
    (inputs : List Input) (burn t : Option BurnIn) (mapped null_map : Str)
    → text_burn inputs burn mapped null_map ≡ ok t
    → ((text_of burn ≡ none) × (burn ≡ t))
      ⊎ ((b : BurnIn) × (tie inputs b (inline_ref mapped) ≡ ok t))
unfolding text_burn
text_burn-ways inputs burn t mapped null_map e = elim (Option-cases (text_of burn)) [
  | inl none_there ↦ inl (none_there, ground (arith, e, none_there))
  | inr (b, text) ↦ inr (b, ground (arith, e, text))
]

pub text_burn-IsTied :
    (inputs : List Input) (burn t : Option BurnIn) (mapped null_map : Str)
    → text_burn inputs burn mapped null_map ≡ ok t
    → IfAny (IsTied inputs) t
text_burn-IsTied inputs burn t mapped null_map e =
    elim (text_burn-ways inputs burn t mapped null_map e) [
      | inl (none_there, same) ↦ subst (IfAny (IsTied inputs)) same (no_text inputs burn none_there)
      | inr (b, read) ↦ tie-IsTied inputs b (inline_ref mapped) t read
    ]
