-- ===== src/Grabs/History.antt =====
-- Many passes: what the age of an entry says of the passes since.
use clusterplex.Prelude.{
  ℕ, zero, suc, ◌+◌, ◌≤◌, ◌≡◌, refl, sym, ap, ◌∙◌, Bool, true, false, none, some, List, [], ◌∷◌,
  arith, Str, str_eq, ◌⊎◌, inl, inr, ℤ, pos, negsuc, Option-cases,
}
use clusterplex.Dict.{lookup}
use clusterplex.Sorted.{contains}
use clusterplex.Grabs.{
  Activity, Answers, StaleGrabs, Watched, watched_of, grace_of, finish, key_of, visit_all, pass,
}
use clusterplex.Grabs.Pass.{has_unwatched, lookup-forget, Sound, visit_all-Sound}

-- The monitor after the passes, the last of them first, from no entries.
unfoldable pub after : ℤ → List Answers → StaleGrabs
after g [] = record { grace = g; unwatched = [] }
after g (q ∷ qs) = (pass q (after g qs)).0

-- The pass succeeds, and its lists have a live grab with the UUID k that no player watches.
pub unwatched_in : Answers → Str → Bool
unwatched_in q k = elim q.activities [
  | none ↦ false
  | some acts ↦ elim q.live [
    | none ↦ false
    | some ls ↦ elim q.playing [ none ↦ false | some ps ↦ has_unwatched (watched_of ls ps) acts k ]
  ]
]

-- A read of the pass fails.
pub failed : Answers → Bool
failed q = elim q.activities [
  | none ↦ true
  | some acts ↦ elim q.live [
    | none ↦ true
    | some ls ↦ elim q.playing [ none ↦ true | some ps ↦ false ]
  ]
]

-- In every pass since the one at t, that one too, the grab k is listed and unwatched, or a read
-- fails.
pub data Since (k : Str) (t : ℕ) : List Answers → Type 0 where
  began :
      {q : Answers} {qs : List Answers} → unwatched_in q k ≡ true → q.now ≡ t → Since k t (q ∷ qs)
  went_on :
      {q : Answers} {qs : List Answers}
      → unwatched_in q k ≡ true
      → Since k t qs
      → Since k t (q ∷ qs)
  unread : {q : Answers} {qs : List Answers} → failed q ≡ true → Since k t qs → Since k t (q ∷ qs)

grace_positive : (g : ℤ) → 1 ≤ grace_of g
grace_positive (pos zero) = omega arith
grace_positive (pos (suc n)) = omega arith
grace_positive (negsuc n) = omega arith

-- A pass that reads all the lists, and one that does not.
abbrev Read : Answers → StaleGrabs → Type 0
Read q s =
    (w : Watched) × (acts : List Activity) × ((k : Str) → unwatched_in q k ≡ has_unwatched w acts k)
    × (pass q s
        ≡ finish s (
            visit_all w q.now (grace_of s.grace) q.accepts acts
              (record { unwatched = s.unwatched; seen = []; ended = [] })))

pass-cases :
    (q : Answers) (s : StaleGrabs) → ((failed q ≡ true) × (pass q s ≡ (s, none))) ⊎ Read q s
unfolding pass failed unwatched_in
pass-cases q s = elim (Option-cases q.activities) [
  | inl a ↦ inl (rw a refl, rw a refl)
  | inr (acts, a) ↦ elim (Option-cases q.live) [
    | inl b ↦ inl (rw (a, b) refl, rw (a, b) refl)
    | inr (ls, b) ↦ elim (Option-cases q.playing) [
      | inl c ↦ inl (rw (a, b, c) refl, rw (a, b, c) refl)
      | inr (ps, c) ↦ inr (watched_of ls ps, acts, (λ k. rw (a, b, c) refl), rw (a, b, c) refl)
    ]
  ]
]

after-grace : (g : ℤ) (qs : List Answers) → (after g qs).grace ≡ g
unfolding after
after-grace g [] = refl
after-grace g (q ∷ qs) = elim (pass-cases q (after g qs)) [
  | inl (f, e) ↦ ap (λ r. r.0.grace) e ∙ after-grace g qs
  | inr (w, acts, u, e) ↦ ap (λ r. r.0.grace) e ∙ after-grace g qs
]

pass-Sound :
    (q : Answers) (s : StaleGrabs) (w : Watched) (acts : List Activity)
    → Sound w q.now (grace_of s.grace) q.accepts acts s.unwatched (
        visit_all w q.now
          (grace_of s.grace)
          q.accepts
          acts
          (record { unwatched = s.unwatched; seen = []; ended = [] }))
unfolding contains
pass-Sound q s w acts =
    visit_all-Sound w q.now (grace_of s.grace) q.accepts acts s.unwatched acts
      (record { unwatched = s.unwatched; seen = []; ended = [] }) (grace_positive s.grace)
      (λ k h. h)
      (record { entries = λ k t h. inl (refl, h); ends = λ key h. absurd (ground arith) })

true≢false : true ≡ false → ⊥
true≢false e = cc

-- An entry's age: the grab was unwatched all the time since.
entry-Since :
    (g : ℤ) (qs : List Answers) (k : Str) (t : ℕ)
    → lookup k (after g qs).unwatched ≡ some t
    → Since k t qs
unfolding after lookup
entry-Since g [] k t h = absurd (ground arith)
entry-Since g (q ∷ qs) k t h = elim (pass-cases q (after g qs)) [
  | inl (f, e) ↦ unread f (entry-Since g qs k t (sym (ap (λ r. lookup k r.0.unwatched) e) ∙ h))
  | inr (w, acts, u, e) ↦
      let sound = pass-Sound q (after g qs) w acts in
      let found = lookup-forget _ _ k t (sym (ap (λ r. lookup k r.0.unwatched) e) ∙ h) in
      elim (sound.entries k t found.0) [
        | inl (unseen, old) ↦ absurd (true≢false (sym found.1 ∙ unseen))
        | inr (listed, inl old) ↦ went_on (u k ∙ listed) (entry-Since g qs k t old)
        | inr (listed, inr new) ↦ began (u k ∙ listed) (sym new)
      ]
]

-- Whatever happened before, a pass ends only live grabs that its own lists have unwatched and whose
-- cancel is accepted; and from a pass at least the grace before it on, that one included, every pass
-- had the grab unwatched too or failed to read.
pub pass_ends :
    (g : ℤ) (qs : List Answers) (q : Answers) (keys : List Str) (key : Str)
    → (pass q (after g qs)).1 ≡ some keys
    → contains keys key ≡ true
    → (a : Activity) × (key ≡ key_of a)
      × (unwatched_in q a.uuid ≡ true)
      × (q.accepts a.uuid ≡ true)
      × ((t : ℕ) × Since a.uuid t qs × (t + grace_of g ≤ q.now))
pass_ends g qs q keys key h m = elim (pass-cases q (after g qs)) [
  | inl (f, e) ↦ absurd (none_given (rw e at h))
  | inr (w, acts, u, e) ↦
      let (a, is_key, listed, ok, (t, old, grown)) =
        (pass-Sound q (after g qs) w acts).ends key (rw (given (rw e at h)) m) in
      (
        a,
        is_key,
        u a.uuid ∙ listed,
        ok,
        (t, entry-Since g qs a.uuid t old, rw (sym (after-grace g qs)) grown),
      )
]
  where
    none_given : none ≡ some keys → ⊥
    none_given e = cc

    given : {ks : List Str} → some ks ≡ some keys → ks ≡ keys
    given e = cc
