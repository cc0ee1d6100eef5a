-- ===== src/Grabs.antt =====
-- pkg/plex/livetv/stalegrabs.go: the Live TV grabs that no player watches, ended. What Plex Media
-- Server answers in a pass is a value of `Answers`: its three lists, where none is a read that
-- failed, the clock read after them, and which cancels it accepts.
pub mod Pass
pub mod History
pub mod Tests
use clusterplex.Prelude.{
  ℕ, ◌+◌, ◌*◌, Bool, true, false, not, ◌&&◌, ◌||◌, Option, none, some, List, [], ◌∷◌, ◌++◌, map,
  if◌then◌else◌, ltb, ◌==◌, keep_if, Str, str, str_eq, has_prefix, is_empty, ℤ, positive_or,
}
use clusterplex.Dict.{Dict, lookup, insert, delete}
use clusterplex.Sorted.{contains}

-- Nanoseconds, as in time.Duration.
abbrev pub default_stale_grab_after : ℕ
default_stale_grab_after = 5 * 60 * 1_000_000_000

abbrev pub live_grab_subtitle : Str
live_grab_subtitle = str "Live TV - Session"

abbrev pub activity_grab : Str
activity_grab = str "grabber.grab"

abbrev pub session_path : Str
session_path = str "/livetv/sessions/"

-- What the pass reads of an activity; session is its context's transcode session.
pub record Activity : Type 0 where
  pub uuid : Str
  pub kind : Str
  pub subtitle : Str
  pub session : Str

pub record LiveSession : Type 0 where
  pub key : Str
  pub rating_key : Str

pub record PlayingItem : Type 0 where
  pub key : Str
  pub rating_key : Str

pub record Answers : Type 0 where
  pub activities : Option (List Activity)
  pub live : Option (List LiveSession)
  pub playing : Option (List PlayingItem)
  pub now : ℕ
  pub accepts : Str → Bool

pub record StaleGrabs : Type 0 where
  pub grace : ℤ
  pub unwatched : Dict Str ℕ

-- The maps watchedKeys, watchedItems and itemOf.
pub record Watched : Type 0 where
  pub keys : List Str
  pub items : List Str
  pub item_of : Dict Str Str

abbrev pub items_of : List PlayingItem → List Str
items_of ps = keep_if (λ k. not (is_empty k)) (map (λ p. p.rating_key) ps)

unfoldable pub index_items : List LiveSession → Dict Str Str → Dict Str Str
index_items [] m = m
index_items (l ∷ ls) m = index_items ls (insert l.key l.rating_key m)

unfoldable pub watched_of : List LiveSession → List PlayingItem → Watched
watched_of ls ps = record {
  keys = map (λ p. p.key) ps;
  items = items_of ps;
  item_of = index_items ls [];
}

abbrev pub or_empty : Option Str → Str
or_empty none = []
or_empty (some s) = s

abbrev pub grace_of : ℤ → ℕ
grace_of g = positive_or g default_stale_grab_after

-- A Live TV session's grab.
unfoldable pub is_live_grab : Activity → Bool
is_live_grab a =
    a.kind == activity_grab && has_prefix a.subtitle live_grab_subtitle && not (is_empty a.session)

abbrev pub key_of : Activity → Str
key_of a = session_path ++ a.session

unfoldable pub is_watched : Watched → Activity → Bool
is_watched w a =
    let item = or_empty (lookup (key_of a) w.item_of) in
    contains w.keys (key_of a) || (not (is_empty item) && contains w.items item)

-- The loop's variables: w.unwatched, seen and ended.
pub record Progress : Type 0 where
  pub unwatched : Dict Str ℕ
  pub seen : List Str
  pub ended : List Str

-- An entry that has been there for the grace, and one that has not.
unfoldable pub settle : ℕ → ℕ → (Str → Bool) → Activity → ℕ → Progress → Progress
settle now grace accepts a since p =
    if ltb now (since + grace)
    then p
    else if accepts a.uuid
    then record p { unwatched = delete a.uuid p.unwatched; ended = p.ended ++ key_of a ∷ [] }
    else p

-- The body of the loop over the activities.
unfoldable pub visit : Watched → ℕ → ℕ → (Str → Bool) → Activity → Progress → Progress
visit w now grace accepts a p =
    if not (is_live_grab a)
    then p
    else let p = record p { seen = a.uuid ∷ p.seen } in
      if is_watched w a
      then record p { unwatched = delete a.uuid p.unwatched }
      else elim (lookup a.uuid p.unwatched) [
        | none ↦ record p { unwatched = insert a.uuid now p.unwatched }
        | some since ↦ settle now grace accepts a since p
      ]

unfoldable pub visit_all : Watched → ℕ → ℕ → (Str → Bool) → List Activity → Progress → Progress
visit_all w now grace accepts [] p = p
visit_all w now grace accepts (a ∷ rest) p =
    visit_all w now grace accepts rest (visit w now grace accepts a p)

-- The last loop: the entries of grabs that are gone are dropped.
unfoldable pub forget : List Str → Dict Str ℕ → Dict Str ℕ
forget seen [] = []
forget seen ((k, t) ∷ m) = if contains seen k then (k, t) ∷ forget seen m else forget seen m

abbrev pub finish : StaleGrabs → Progress → StaleGrabs × Option (List Str)
finish s p = (record s { unwatched = forget p.seen p.unwatched }, some p.ended)

-- func (w *StaleGrabs) Pass: none is the error of a read that failed.
unfoldable pub pass : Answers → StaleGrabs → StaleGrabs × Option (List Str)
pass q s = elim q.activities [
  | none ↦ (s, none)
  | some acts ↦ elim q.live [
    | none ↦ (s, none)
    | some ls ↦ elim q.playing [
      | none ↦ (s, none)
      | some ps ↦ finish s (
          visit_all (watched_of ls ps) q.now (grace_of s.grace) q.accepts acts
            (record { unwatched = s.unwatched; seen = []; ended = [] }))
    ]
  ]
]
