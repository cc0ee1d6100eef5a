-- ===== src/Video/Recorded.antt =====
-- What the options of a job say of its outputs: where a codec that the loop of Parse records comes from.
use clusterplex.Prelude.{
  int_beq_iff, int_eq, Bool, true, false, ◌&&◌, Option, none, some, if◌then◌else◌, ◌==◌, ==_iff,
  ◌≡◌, refl, sym, ap, ◌⊎◌, ℤ, Str, str, str_eq, str_beq, arith,
}
use clusterplex.Dict.{Dict, lookup, insert, lookup-insert}
use clusterplex.Video.Strings.{cut_prefix, atoi}
use clusterplex.Video.Job.{Result, ok, refused, ◌>>=◌, Refusal}
use clusterplex.Video.Filter.{parse_filter_complex}
use clusterplex.Video.Scan.{
  Env, Floats, Urls, Scanned, input_of, put_output, per_out_of, read_input, read_start,
  read_metadata, language_at, or_none, output_option, other_option, read_chains, read_option,
}

-- A chain of results that is ok went through.
pub bind_ok :
    {A B : Type 0} (r : Result A) (f : A → Result B) (b : B)
    → (r >>= f) ≡ ok b
    → (a : A) × (r ≡ ok a) × (f a ≡ ok b)
bind_ok (ok a) f b e = (a, refl, e)
bind_ok (refused x) f b e = absurd (ground arith)

pub ok_inj : {A : Type 0} {a b : A} → ok a ≡ ok b → a ≡ b
ok_inj e = ground arith

pub not_ok : {A : Type 0} {B : Type 0} {b : A} (e : Refusal) → refused e ≡ ok b → B
not_ok x e = absurd (ground arith)

pub if_ok :
    {A : Type 0} {a : A} (b : Bool) (r : Result A) (x : Refusal)
    → (if b then r else refused x) ≡ ok a
    → (b ≡ true) × (r ≡ ok a)
if_ok true r x e = (refl, e)
if_ok false r x e = not_ok x e

pub unless_ok :
    {A : Type 0} {a : A} (b : Bool) (r : Result A) (x : Refusal)
    → (if b then refused x else r) ≡ ok a
    → (b ≡ false) × (r ≡ ok a)
unless_ok true r x e = not_ok x e
unless_ok false r x e = (refl, e)

-- The codec recorded for an output.
unfoldable pub codec_at : ℤ → Dict ℤ (Dict Str Str) → Option Str
codec_at i m = lookup (str "-codec") (per_out_of (lookup i m))

codec_at-put_output :
    (i j : ℤ) (k v : Str) (m : Dict ℤ (Dict Str Str))
    → codec_at i (put_output j k v m)
      ≡ (if j == i && k == str "-codec" then some v else codec_at i m)
unfolding codec_at put_output
codec_at-put_output i j k v m =
    let inner = lookup-insert k (str "-codec") v (per_out_of (lookup j m)) in
    let outer = lookup-insert j i (insert k v (per_out_of (lookup j m))) m in
    ground (arith, inner, outer, int_beq_iff j i)

-- What one option does to the codec of output i.
abbrev pub Recorded : ℤ → Bool → Str → Str → Scanned → Scanned → Type 0
Recorded i input base v s t =
    (codec_at i t.per_out ≡ codec_at i s.per_out)
    ⊎ (base ≡ str "-codec") × (input ≡ false) × (codec_at i t.per_out ≡ some v)

read_input-keeps :
    (urls : Urls) (v : Str) (s t : Scanned) → read_input urls v s ≡ ok t → t.per_out ≡ s.per_out
unfolding read_input
read_input-keeps urls v s t e = let (i, _, f) = bind_ok (input_of v) _ t e in ground arith

read_chains-keeps : (v : Str) (s t : Scanned) → read_chains v s ≡ ok t → t.per_out ≡ s.per_out
unfolding read_chains
read_chains-keeps v s t e =
    let (cs, _, f) = bind_ok (parse_filter_complex v) _ t e in ap (λ x. x.per_out) (sym (ok_inj f))

read_start-keeps :
    (fl : Floats) (v : Str) (s t : Scanned) → read_start fl v s ≡ ok t → t.per_out ≡ s.per_out
unfolding read_start
read_start-keeps fl v s t e = ground arith

other_option-keeps :
    (base spec v : Str) (s t : Scanned) → other_option base spec v s ≡ ok t → t.per_out ≡ s.per_out
unfolding other_option
other_option-keeps base spec v s t e = ground arith

language_is_no_codec : (str "language" == str "-codec") ≡ false
unfolding str_beq
language_is_no_codec = refl

language_at-keeps :
    (i : ℤ) (idx : Option ℤ) (lang : Option Str) (s t : Scanned)
    → language_at idx lang s ≡ ok t
    → codec_at i t.per_out ≡ codec_at i s.per_out
language_at-keeps i none lang s t e = not_ok _ e
language_at-keeps i (some j) none s t e = not_ok _ e
language_at-keeps i (some j) (some lang) s t e =
    let put = codec_at-put_output i j (str "language") lang s.per_out in
    ground (arith, ok_inj e, put, language_is_no_codec)

read_metadata-keeps :
    (i : ℤ) (spec v : Str) (s t : Scanned)
    → read_metadata spec v s ≡ ok t
    → codec_at i t.per_out ≡ codec_at i s.per_out
unfolding read_metadata
read_metadata-keeps i spec v s t e =
    language_at-keeps i (or_none (cut_prefix spec (str "s:"))) (cut_prefix v (str "language=")) s t
      e

output_option-records :
    (i : ℤ) (base v : Str) (idx : Option ℤ) (s t : Scanned)
    → output_option base v idx s ≡ ok t
    → (codec_at i t.per_out ≡ codec_at i s.per_out)
      ⊎ (base ≡ str "-codec") × (codec_at i t.per_out ≡ some v)
unfolding output_option
output_option-records i base v none s t e = not_ok _ e
output_option-records i base v (some j) s t e =
    let put = codec_at-put_output i j base v s.per_out in
    ground (arith, ok_inj e, put, ==_iff base (str "-codec"))

pub read_option-records :
    (i : ℤ) (env : Env) (input : Bool) (base spec v : Str) (s t : Scanned)
    → read_option env input base spec v s ≡ ok t
    → Recorded i input base v s t
unfolding read_option
read_option-records i env input base spec v s t e = ground (
  arith,
  read_input-keeps env.urls v s t,
  read_start-keeps env.floats v s t,
  read_chains-keeps v s t,
  read_metadata-keeps i spec v s t,
  output_option-records i base v (atoi spec) s t,
  other_option-keeps base spec v s t,
  ==_iff base (str "-codec"),
)
