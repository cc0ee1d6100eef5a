-- ===== src/Video/Filter.antt =====
-- pkg/video/filter.go: Plex's -filter_complex, and the stream that a -map is made from. The regular
-- expressions are read by hand, over bytes.
use clusterplex.Prelude.{
  ℕ, zero, suc, ◌+◌, Bool, false, not, ◌&&◌, ◌||◌, Option, none, some, List, [], ◌∷◌, ◌++◌,
  if◌then◌else◌, ◌==◌, nat_eq, Str, str, str_eq, is_empty, length,
}
use clusterplex.Sorted.{contains}
use clusterplex.Video.Strings.{
  cut_before, cut_after, cut_prefix, or_empty, split_unescaped, is_space, is_blank, trim, trim_left,
  trim_right, digits,
}
use clusterplex.Video.Job.{
  Result, ok, refused, ◌>>=◌, bad_chain, bad_map, second_overlay, chain_inputs, no_chain,
  label_loops,
}

pub record Kv : Type 0 where
  pub k : Str
  pub v : Str

pub record Filter : Type 0 where
  pub name : Str
  pub args : List Kv

pub record Chain : Type 0 where
  pub sources : List Str
  pub filters : List Filter
  pub out : Str

-- [x] at the start of a text: x, which has no ], and the rest.
abbrev bracketed : Str → Option Str → Option (Str × Str)
bracketed s none = none
bracketed s (some rest) = some (cut_before 93 s, rest)

unfoldable pub leading_label : Str → Option (Str × Str)
leading_label [] = none
leading_label (c ∷ s) = if c == 91 then bracketed s (cut_after 93 s) else none

-- The labels at the start, with the space after each; the fuel is a length.
unfoldable pub leading_labels : ℕ → Str → List Str × Str
leading_labels zero s = ([], s)
leading_labels (suc n) s = elim (leading_label s) [
  | none ↦ ([], s)
  | some l ↦ let more = leading_labels n (trim_left is_blank l.1) in (l.0 ∷ more.0, more.1)
]

-- [x] that ends a text, from its first [ on: x, which is not empty and has no ].
unfoldable pub whole_label : Str → Option Str
whole_label s = elim (leading_label s) [
  | none ↦ none
  | some l ↦ if is_empty l.0 || not (is_empty l.1) then none else some l.0
]

-- The text before the output label, and the label.
unfoldable pub split_out : Str → Option (Str × Str)
split_out [] = none
split_out (c ∷ s) =
    let rest = split_out s in
    elim (whole_label (c ∷ s)) [
      | some l ↦ some ([], l)
      | none ↦ elim rest [ none ↦ none | some (body, l) ↦ some (c ∷ body, l) ]
    ]

-- The parts of chainShape: the input labels, the filters' text and the output label.
pub record Shape : Type 0 where
  pub labels : List Str
  pub body : Str
  pub out : Str

-- The last of some labels is the output where no text follows them.
unfoldable pub last_is_out : List Str → Option Shape
last_is_out [] = none
last_is_out (a ∷ []) = none
last_is_out (a ∷ b ∷ []) =
    if is_empty b then none else some (record { labels = a ∷ []; body = []; out = b })
last_is_out (a ∷ b ∷ c ∷ ls) = elim (last_is_out (b ∷ c ∷ ls)) [
  | none ↦ none
  | some sh ↦ some (record sh { labels = a ∷ sh.labels })
]

-- A dot of the expression matches no newline.
abbrev one_line : List Str → Str → Str → Option Shape
one_line ls body out =
    if contains body 10 then none else some (record { labels = ls; body = body; out = out })

abbrev with_labels : List Str → Option (Str × Str) → Option Shape
with_labels ls none = none
with_labels ls (some (body, out)) =
    if is_empty ls then none else one_line ls (trim_right is_blank body) out

abbrev chain_parts : List Str × Str → Option Shape
chain_parts (ls, []) = last_is_out ls
chain_parts (ls, c ∷ s) = with_labels ls (split_out (c ∷ s))

unfoldable pub chain_shape : Str → Option Shape
chain_shape part = let text = trim is_blank part in chain_parts (leading_labels (length text) text)

abbrev quote : ℕ → Bool
quote c = c == 39

abbrev kv_from : Str → Option Str → Kv
kv_from a none = record { k = []; v = trim quote a }
kv_from a (some val) = record { k = cut_before 61 a; v = trim quote val }

unfoldable pub kvs_of : List Str → List Kv
kvs_of [] = []
kvs_of (a ∷ rest) = kv_from a (cut_after 61 a) ∷ kvs_of rest

abbrev args_of : Str → List Kv
args_of [] = []
args_of (c ∷ s) = kvs_of (split_unescaped 58 (c ∷ s))

unfoldable pub filters_of : List Str → Result (List Filter)
filters_of [] = ok []
filters_of (f ∷ rest) =
    let name = cut_before 61 (trim is_space f) in
    let args = or_empty (cut_after 61 (trim is_space f)) in
    if is_empty name
    then refused bad_chain
    else do fs ← filters_of rest; ok (record { name = name; args = args_of args } ∷ fs)

abbrev chain_of : Option Shape → Result Chain
chain_of none = refused bad_chain
chain_of (some sh) = do
  fs ← filters_of (split_unescaped 44 sh.body)
  ok (record { sources = sh.labels; filters = fs; out = sh.out })

unfoldable pub chains_of : List Str → Result (List Chain)
chains_of [] = ok []
chains_of (part ∷ rest) = do c ← chain_of (chain_shape part); cs ← chains_of rest; ok (c ∷ cs)

-- func parseFilterComplex(v string) ([]chain, error)
unfoldable pub parse_filter_complex : Str → Result (List Chain)
parse_filter_complex v = chains_of (split_unescaped 59 v)

-- streamRef: 0:N. An N past 64 bits, whose error the code ignores, is kept as it is.
unfoldable pub stream_ref : Str → Option ℕ
stream_ref s = elim (cut_prefix s (str "0:")) [ none ↦ none | some n ↦ digits n ]

pub record Overlay : Type 0 where
  pub src : ℕ
  pub filters : List Filter

pub record Source : Type 0 where
  pub src : ℕ
  pub filters : List Filter
  pub over : Option Overlay

-- The loop's search for the chain that makes a label.
unfoldable pub find_chain : Str → List Chain → Option Chain
find_chain want [] = none
find_chain want (c ∷ cs) = if c.out == want then some c else find_chain want cs

abbrev pub is_overlay : List Filter → Bool
is_overlay [] = false
is_overlay (f ∷ []) = f.name == str "overlay" && is_empty f.args
is_overlay (f ∷ g ∷ fs) = false

-- What one round of follow makes of the chain it found: the label or stream to follow, with what is
-- gathered so far; over is none where there is no overlay yet.
pub data Kind : Type 0 where
  single : Str → Kind
  overlays : Str → Str → Kind
  other : Kind

unfoldable pub kind_of : Chain → Kind
kind_of c = elim c.sources [
  | [] ↦ other
  | a ∷ more ↦ elim more [
    | [] ↦ single a
    | b ∷ rest ↦ if is_empty rest && is_overlay c.filters then overlays a b else other
  ]
]

-- follow where overlays is false: rounds left, the label, and the filters gathered.
unfoldable pub follow_plain : List Chain → ℕ → Str → List Filter → Result Source
follow_plain chains zero want fs = refused label_loops
follow_plain chains (suc n) want fs = elim (find_chain want chains) [
  | none ↦ refused no_chain
  | some c ↦ elim (kind_of c) [
    | other ↦ refused chain_inputs
    | overlays a b ↦ refused second_overlay
    | single a ↦ elim (stream_ref a) [
      | some s ↦ ok (record { src = s; filters = c.filters ++ fs; over = none })
      | none ↦ follow_plain chains n a (c.filters ++ fs)
    ]
  ]
]

-- func follow2
unfoldable pub follow2 : List Chain → Str → Result Source
follow2 chains b = elim (stream_ref b) [
  | some s ↦ ok (record { src = s; filters = []; over = none })
  | none ↦ follow_plain chains (length chains + 1) b []
]

-- func follow where overlays is true.
unfoldable pub follow : List Chain → ℕ → Str → List Filter → Option Overlay → Result Source
follow chains zero want fs over = refused label_loops
follow chains (suc n) want fs over = elim (find_chain want chains) [
  | none ↦ refused no_chain
  | some c ↦ elim (kind_of c) [
    | other ↦ refused chain_inputs
    | single a ↦ elim (stream_ref a) [
      | some s ↦ ok (record { src = s; filters = c.filters ++ fs; over = over })
      | none ↦ follow chains n a (c.filters ++ fs) over
    ]
    | overlays a b ↦ elim over [
      | some o ↦ refused second_overlay
      | none ↦ do
        drawn ← follow2 chains b
        let added : Option Overlay = some (record { src = drawn.src; filters = drawn.filters })
        elim (stream_ref a) [
          | some s ↦ ok (record { src = s; filters = fs; over = added })
          | none ↦ follow chains n a fs added
        ]
    ]
  ]
]

-- func resolve
unfoldable pub resolve : List Chain → Str → Result Source
resolve chains m = elim (stream_ref m) [
  | some s ↦ ok (record { src = s; filters = []; over = none })
  | none ↦ elim (leading_label m) [
    | none ↦ refused bad_map
    | some l ↦
        if is_empty l.1 then follow chains (length chains + 1) l.0 [] none else refused bad_map
  ]
]
