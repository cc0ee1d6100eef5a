-- ===== src/Video/Numbers.antt =====
-- The numbers of a job's options: seconds, frameRate, gcd and bitRate of pkg/video/parse.go. int64
-- arithmetic wraps at 2^63.
use clusterplex.Prelude.{
  ℕ, zero, suc, ◌-◌, ◌*◌, ◌/◌, ◌%◌, ◌^◌, ◌<◌, Bool, not, ◌||◌, Option, none, some, List, [], ◌∷◌,
  if◌then◌else◌, ltb, ℤ, pos, leb_ℤ, pos_part, sub_ℕ, Str, str, length, take, arith,
}
use mathlib.Core.WellFounded.{Acc}
use clusterplex.Video.Strings.{has_suffix, atoi}
use clusterplex.Video.Job.{Rational}
use clusterplex.Video.Scan.{Floats}

acc_below : (k n : ℕ) → n < k → Acc ◌<◌ n
acc_below zero n h = absurd (omega arith)
acc_below (suc k) n h = Acc.intro n λ m hm. acc_below k m (omega arith)

pub every_acc : (n : ℕ) → Acc ◌<◌ n
unfolding acc_below
every_acc n = acc_below (suc n) n (omega arith)

pub mod-lt : (a b : ℕ) → a % suc b < suc b
mod-lt a b = omega arith

-- The loop of gcd, by recursion on its second variable.
unfoldable pub gcd_from : (a b : ℕ) → Acc ◌<◌ b → ℕ
gcd_from a b (Acc.intro zero below) = a
gcd_from a b (Acc.intro (suc c) below) =
    gcd_from (suc c) (a % suc c) (below (a % suc c) (mod-lt a c))

-- func gcd(a, b int) int, on numbers that are not negative.
unfoldable pub gcd : ℕ → ℕ → ℕ
unfolding every_acc
gcd a b = gcd_from a b (every_acc b)

-- An int64 of a product: two's complement.
abbrev signed : ℕ → ℤ
signed n = if ltb n (2 ^ 63) then pos n else sub_ℕ n (2 ^ 64)

abbrev pub wrap : ℕ → ℤ
wrap n = signed (n % 2 ^ 64)

abbrev scaled : ℕ → Option ℤ → Option ℤ
scaled mult none = none
scaled mult (some n) = if leb_ℤ n (pos 0) then none else some (wrap (pos_part n * mult))

abbrev pub without_last : Str → Str
without_last s = take (length s - 1) s

-- func bitRate(v string) (int64, error)
unfoldable pub bit_rate : Str → Option ℤ
bit_rate v =
    if has_suffix v (str "k")
    then scaled 1000 (atoi (without_last v))
    else if has_suffix v (str "M")
    then scaled 1000000 (atoi (without_last v))
    else scaled 1 (atoi v)

module _ (fl : Floats) where
  abbrev second : fl.Float
  second = fl.of_int (pos 1000000000)

  -- time.Duration(s * float64(time.Second))
  abbrev pub to_duration : fl.Float → ℤ
  to_duration x = fl.to_int (fl.times x second)

  -- func seconds(v string) (time.Duration, error)
  unfoldable pub seconds : Str → Option ℤ
  seconds v = elim (fl.parse_float v) [
    | none ↦ none
    | some x ↦ some (fl.to_int (fl.rounded (fl.times x second)))
  ]

  -- math.Abs(f-ntsc)/ntsc < 1e-4, with the constant as a quotient.
  abbrev magnitude : fl.Float → fl.Float
  magnitude x = if fl.less x (fl.of_int (pos 0)) then fl.minus (fl.of_int (pos 0)) x else x

  unfoldable pub near : fl.Float → ℕ → Bool
  near f n =
      let ntsc =
        fl.over (fl.times (fl.of_int (pos n)) (fl.of_int (pos 1000))) (fl.of_int (pos 1001)) in
      fl.less (fl.over (magnitude (fl.minus f ntsc)) ntsc)
        (fl.over (fl.of_int (pos 1)) (fl.of_int (pos 10000)))

  unfoldable pub ntsc_rate : fl.Float → List ℕ → Option Rational
  ntsc_rate f [] = none
  ntsc_rate f (n ∷ ns) =
      let rest = ntsc_rate f ns in
      if near f n then some (record { num = n * 1000; den = 1001 }) else rest

  -- m/1000 in lowest terms.
  abbrev pub millihertz : ℕ → Rational
  millihertz m = record { num = m / gcd m 1000; den = 1000 / gcd m 1000 }

  abbrev pub ntsc_rates : List ℕ
  ntsc_rates = 24 ∷ 30 ∷ 48 ∷ 60 ∷ 120 ∷ []

  abbrev in_bounds : fl.Float → Bool
  in_bounds f = not (fl.at_most f (fl.of_int (pos 0)) || fl.less (fl.of_int (pos 1000)) f)

  abbrev rate_of : fl.Float → Option Rational → Option Rational
  rate_of f (some r) = some r
  rate_of f none =
      some (millihertz (pos_part (fl.to_int (fl.rounded (fl.times f (fl.of_int (pos 1000)))))))

  -- func frameRate(v string) (Rational, error): the rounded rate is positive or zero there.
  unfoldable pub frame_rate : Str → Option Rational
  frame_rate v = elim (fl.parse_float v) [
    | none ↦ none
    | some f ↦ if in_bounds f then rate_of f (ntsc_rate f ntsc_rates) else none
  ]
