-- ===== src/Grabs/Tests.antt =====
-- A grab that nobody watches in two passes, five minutes apart.
use clusterplex.Prelude.{
  ℕ, ◌+◌, ◌≤◌, ◌≡◌, refl, true, some, [], ◌∷◌, str, str_eq, str_beq, has_prefix, pos,
}
use clusterplex.Dict.{lookup, insert, delete}
use clusterplex.Sorted.{contains}
use clusterplex.Grabs.{
  Activity, Answers, activity_grab, grace_of, key_of, is_live_grab, is_watched, watched_of,
  index_items, settle, visit, visit_all, forget, pass,
}
use clusterplex.Grabs.History.{after, unwatched_in, Since, pass_ends}

abbrev grab : Activity
grab = record {
  uuid = str "u1";
  kind = activity_grab;
  subtitle = str "Live TV - Session 7";
  session = str "7";
}

abbrev answers_at : ℕ → Answers
answers_at now = record {
  activities = some (grab ∷ []);
  live = some [];
  playing = some [];
  now = now;
  accepts = λ u. true;
}

ended_by :
    (pass (answers_at 400_000_000_000) (after (pos 0) (answers_at 0 ∷ []))).1
    ≡ some (key_of grab ∷ [])
unfolding pass after visit_all visit settle is_live_grab is_watched watched_of index_items forget
    contains lookup insert delete str_beq has_prefix
ended_by = refl

listed_there : contains (key_of grab ∷ []) (key_of grab) ≡ true
unfolding contains str_beq
listed_there = refl

pass_ends_example :
    (a : Activity) × (key_of grab ≡ key_of a)
    × (unwatched_in (answers_at 400_000_000_000) a.uuid ≡ true)
    × (true ≡ true)
    × ((t : ℕ) × Since a.uuid t (answers_at 0 ∷ []) × (t + grace_of (pos 0) ≤ 400_000_000_000))
pass_ends_example =
    pass_ends (pos 0) (answers_at 0 ∷ []) (answers_at 400_000_000_000) (key_of grab ∷ [])
      (key_of grab) ended_by listed_there
