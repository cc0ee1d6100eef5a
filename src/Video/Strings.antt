-- ===== src/Video/Strings.antt =====
-- The functions of packages strings and strconv that the parser calls, over lists of bytes.
use clusterplex.Prelude.{
  ℕ, zero, suc, ◌+◌, ◌-◌, ◌*◌, ◌^◌, Bool, true, false, not, ◌&&◌, ◌||◌, Option, none, some, List,
  [], ◌∷◌, if◌then◌else◌, ltb, leb, ◌==◌, nat_eq, Str, str_eq, has_prefix, is_empty, length, drop,
  ℤ, pos, negsuc,
}

-- strings.Cut at one byte: what is before it, and what is after it, where it occurs.
unfoldable pub cut_before : ℕ → Str → Str
cut_before sep [] = []
cut_before sep (c ∷ s) = if c == sep then [] else c ∷ cut_before sep s

unfoldable pub cut_after : ℕ → Str → Option Str
cut_after sep [] = none
cut_after sep (c ∷ s) = let rest = cut_after sep s in if c == sep then some s else rest

abbrev pub or_empty : Option Str → Str
or_empty none = []
or_empty (some s) = s

-- strings.CutPrefix
unfoldable pub cut_prefix : Str → Str → Option Str
cut_prefix s [] = some s
cut_prefix [] (p ∷ ps) = none
cut_prefix (c ∷ s) (p ∷ ps) = let rest = cut_prefix s ps in if c == p then rest else none

-- strings.HasSuffix
unfoldable pub has_suffix : Str → Str → Bool
has_suffix s p = leb (length p) (length s) && drop (length s - length p) s == p

-- strings.Contains
unfoldable pub contains_text : Str → Str → Bool
contains_text [] p = is_empty p
contains_text (c ∷ s) p = has_prefix (c ∷ s) p || contains_text s p

-- What follows the last sep, or all if there is none: s[strings.LastIndex(s, sep)+1:]. best is the
-- answer where no sep is left.
unfoldable pub after_last_from : ℕ → Str → Str → Str
after_last_from sep best [] = best
after_last_from sep best (c ∷ s) =
    let here = after_last_from sep s s in
    let later = after_last_from sep best s in if c == sep then here else later

unfoldable pub after_last : ℕ → Str → Str
after_last sep s = after_last_from sep s s

abbrev pub onto_first : ℕ → List Str → List Str
onto_first c [] = (c ∷ []) ∷ []
onto_first c (s ∷ ss) = (c ∷ s) ∷ ss

-- strings.Split at one byte
unfoldable pub split_at : ℕ → Str → List Str
split_at sep [] = [] ∷ []
split_at sep (c ∷ s) =
    let rest = split_at sep s in if c == sep then [] ∷ rest else onto_first c rest

-- func splitUnescaped(s string, sep byte) []string: escaped is that a backslash precedes.
unfoldable pub split_from : ℕ → Bool → Str → List Str
split_from sep escaped [] = [] ∷ []
split_from sep escaped (c ∷ s) =
    let plain = split_from sep false s in
    let after_backslash = split_from sep true s in
    if escaped
    then onto_first c plain
    else if c == 92
    then onto_first c after_backslash
    else if c == sep
    then [] ∷ plain
    else onto_first c plain

unfoldable pub split_unescaped : ℕ → Str → List Str
split_unescaped sep s = split_from sep false s

-- func unescape(s string) string
unfoldable pub unescape_from : Bool → Str → Str
unescape_from escaped [] = if escaped then 92 ∷ [] else []
unescape_from escaped (c ∷ s) =
    let plain = unescape_from false s in
    let after_backslash = unescape_from true s in
    if escaped then c ∷ plain else if c == 92 then after_backslash else c ∷ plain

unfoldable pub unescape : Str → Str
unescape s = unescape_from false s

-- The ASCII bytes that TrimSpace trims, and those of a regular expression's \s.
abbrev pub is_space : ℕ → Bool
is_space c = c == 32 || (leb 9 c && leb c 13)

abbrev pub is_blank : ℕ → Bool
is_blank c = is_space c && not (c == 11)

-- strings.TrimLeft and TrimRight over the bytes of a test.
unfoldable pub trim_left : (ℕ → Bool) → Str → Str
trim_left p [] = []
trim_left p (c ∷ s) = let rest = trim_left p s in if p c then rest else c ∷ s

unfoldable pub trim_right : (ℕ → Bool) → Str → Str
trim_right p [] = []
trim_right p (c ∷ s) = let rest = trim_right p s in if p c && is_empty rest then [] else c ∷ rest

abbrev pub trim : (ℕ → Bool) → Str → Str
trim p s = trim_right p (trim_left p s)

abbrev pub is_digit : ℕ → Bool
is_digit c = leb 48 c && leb c 57

-- A number written in digits alone, one at least.
unfoldable pub digits_from : ℕ → Str → Option ℕ
digits_from n [] = some n
digits_from n (c ∷ s) =
    let rest = digits_from (n * 10 + (c - 48)) s in if is_digit c then rest else none

unfoldable pub digits : Str → Option ℕ
digits [] = none
digits (c ∷ s) = digits_from 0 (c ∷ s)

abbrev in_range : ℕ → Option ℕ → Option ℕ
in_range limit none = none
in_range limit (some n) = if ltb n limit then some n else none

abbrev negative : Option ℕ → Option ℤ
negative none = none
negative (some zero) = some (pos 0)
negative (some (suc n)) = some (negsuc n)

abbrev positive : Option ℕ → Option ℤ
positive none = none
positive (some n) = some (pos n)

-- strconv.Atoi and ParseInt(s, 10, 64); none is an error.
unfoldable pub atoi : Str → Option ℤ
atoi [] = none
atoi (c ∷ s) =
    if c == 45
    then negative (in_range (2 ^ 63 + 1) (digits s))
    else if c == 43
    then positive (in_range (2 ^ 63) (digits s))
    else positive (in_range (2 ^ 63) (digits (c ∷ s)))
