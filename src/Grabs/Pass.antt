-- ===== src/Grabs/Pass.antt =====
-- One pass over the activities: where the entries of the map come from, and what is ended.
use clusterplex.Prelude.{
  ℕ, ◌+◌, ◌≤◌, ◌≡◌, refl, Bool, true, false, not, ◌&&◌, ◌||◌, some, List, [], ◌∷◌, ◌++◌, arith,
  ◌==◌, ltb, ==_iff, ==_refl, Str, str_eq, ◌⊎◌, inl, inr, Bool-cases, Option-cases, subst,
}
use clusterplex.Dict.{Dict, lookup, insert, delete, lookup-insert, lookup-delete}
use clusterplex.Sorted.{contains, contains-append}
use clusterplex.Grabs.{
  Activity, Watched, Progress, is_live_grab, is_watched, key_of, settle, visit, visit_all, forget,
}

-- A list has an unwatched live grab with the UUID k.
unfoldable pub has_unwatched : Watched → List Activity → Str → Bool
has_unwatched w [] k = false
has_unwatched w (a ∷ rest) k =
    (a.uuid == k && is_live_grab a && not (is_watched w a)) || has_unwatched w rest k

pub lookup-forget :
    (seen : List Str) (m : Dict Str ℕ) (k : Str) (t : ℕ)
    → lookup k (forget seen m) ≡ some t
    → (lookup k m ≡ some t) × (contains seen k ≡ true)
unfolding lookup forget
lookup-forget seen [] k t h = absurd (ground arith)
lookup-forget seen ((j, v) ∷ m) k t h = elim (Bool-cases (contains seen j)) [
  | inl kept ↦ elim (Bool-cases (j == k)) [
    | inl e ↦ ground (arith, (==_iff j k).0, lookup-forget seen m k t)
    | inr e ↦ ground (arith, lookup-forget seen m k t)
  ]
  | inr gone ↦ ground (arith, (==_iff j k).0, lookup-forget seen m k t)
]

module _ (w : Watched) (now grace : ℕ) (accepts : Str → Bool) (acts : List Activity)
    (before : Dict Str ℕ) where
  -- An entry of the map during the pass: one of a grab that was not listed yet, or one of a grab
  -- that is listed unwatched, as old as it was or made now.
  abbrev pub Listed : Str → ℕ → Type 0
  Listed k t = (has_unwatched w acts k ≡ true) × ((lookup k before ≡ some t) ⊎ (t ≡ now))

  abbrev pub Entry : List Str → Str → ℕ → Type 0
  Entry seen k t = ((contains seen k ≡ false) × (lookup k before ≡ some t)) ⊎ Listed k t

  -- A key that was ended: of a live grab, unwatched, whose entry is as old as the grace.
  abbrev pub Ended : Str → Type 0
  Ended key =
      (a : Activity) × (key ≡ key_of a)
      × (has_unwatched w acts a.uuid ≡ true)
      × (accepts a.uuid ≡ true)
      × ((t : ℕ) × (lookup a.uuid before ≡ some t) × (t + grace ≤ now))

  pub record Sound (p : Progress) : Type 0 where
    pub entries : (k : Str) (t : ℕ) → lookup k p.unwatched ≡ some t → Entry p.seen k t
    pub ends : (key : Str) → contains p.ended key ≡ true → Ended key

  -- The change that a live grab makes: its own entry, and what is ended.
  relist-Sound :
      (a : Activity) (p : Progress) (m : Dict Str ℕ) (ended : List Str)
      → ((k : Str) (t : ℕ)
          → (a.uuid == k) ≡ false
          → lookup k m ≡ some t
          → lookup k p.unwatched ≡ some t)
      → ((t : ℕ) → lookup a.uuid m ≡ some t → Listed a.uuid t)
      → ((key : Str) → contains ended key ≡ true → Ended key)
      → Sound p
      → Sound (record { unwatched = m; seen = a.uuid ∷ p.seen; ended = ended })
  unfolding contains
  relist-Sound a p m ended others own ends v = record {
    entries = λ k t h. elim (Bool-cases (a.uuid == k)) [
      | inl e ↦
          inr
            (subst (λ j. Listed j t) ((==_iff a.uuid k).0 e) (own t (rw ((==_iff a.uuid k).0 e) h)))
      | inr e ↦ elim (v.entries k t (others k t e h)) [
        | inl (unseen, old) ↦ inl (rw e unseen, old)
        | inr listed ↦ inr listed
      ]
    ];
    ends = ends;
  }

  -- What an entry's age tells.
  age :
      (p : Progress) (k : Str) (t : ℕ)
      → Sound p
      → lookup k p.unwatched ≡ some t
      → (lookup k before ≡ some t) ⊎ (t ≡ now)
  age p k t v h = elim (v.entries k t h) [ inl old ↦ inl old.1 | inr listed ↦ listed.1 ]

  Ended-more :
      (ended : List Str) (own : Str)
      → ((key : Str) → contains ended key ≡ true → Ended key)
      → Ended own
      → (key : Str) → contains (ended ++ own ∷ []) key ≡ true
      → Ended key
  Ended-more ended own ends e key h = elim (Bool-cases (contains ended key)) [
    | inl before ↦ ends key before
    | inr added ↦
        subst Ended ((==_iff own key).0 (rw (contains-append ended own key, added) at h)) e
  ]

  -- One activity, of the rest of the list.
  visit-Sound :
      (a : Activity) (p : Progress)
      → 1 ≤ grace
      → ((is_live_grab a && not (is_watched w a)) ≡ true → has_unwatched w acts a.uuid ≡ true)
      → Sound p
      → Sound (visit w now grace accepts a p)
  unfolding visit settle
  visit-Sound a p g u v = elim (Bool-cases (is_live_grab a)) [
    | inl live ↦ elim (Bool-cases (is_watched w a)) [
      | inl watched ↦ rw (live, watched) (deleted p.ended v.ends)
      | inr not_watched ↦ elim (Option-cases (lookup a.uuid p.unwatched)) [
        | inl e ↦ rw (live, not_watched, e) (added (u (ground arith)))
        | inr (since, e) ↦ elim (Bool-cases (ltb now (since + grace))) [
          | inl young ↦ rw (live, not_watched, e, young) (kept (u (ground arith)))
          | inr old ↦ elim (Bool-cases (accepts a.uuid)) [
            | inl ok ↦
                rw (live, not_watched, e, old, ok)
                  (deleted (p.ended ++ key_of a ∷ [])
                    (Ended-more p.ended (key_of a) v.ends (over since e old ok (u (ground arith)))))
            | inr refused ↦ rw (live, not_watched, e, old, refused) (kept (u (ground arith)))
          ]
        ]
      ]
    ]
    | inr other ↦ rw other v
  ]
    where
      deleted :
          (ended : List Str)
          → ((key : Str) → contains ended key ≡ true → Ended key)
          → Sound (record {
            unwatched = delete a.uuid p.unwatched;
            seen = a.uuid ∷ p.seen;
            ended = ended;
          })
      deleted ended ends =
          relist-Sound a p (delete a.uuid p.unwatched) ended
            (λ k t e h. ground (arith, lookup-delete a.uuid k p.unwatched))
            (λ t h.
              absurd (ground (arith, lookup-delete a.uuid a.uuid p.unwatched, ==_refl a.uuid)))
            ends v

      over :
          (since : ℕ)
          → lookup a.uuid p.unwatched ≡ some since
          → ltb now (since + grace) ≡ false
          → accepts a.uuid ≡ true
          → has_unwatched w acts a.uuid ≡ true
          → Ended (key_of a)
      over since e old ok listed = elim (age p a.uuid since v e) [
        | inl entry ↦ (a, refl, listed, ok, (since, entry, ground arith))
        | inr new ↦ absurd (ground arith)
      ]

      added :
          has_unwatched w acts a.uuid ≡ true
          → Sound (record {
            unwatched = insert a.uuid now p.unwatched;
            seen = a.uuid ∷ p.seen;
            ended = p.ended;
          })
      added listed =
          relist-Sound a p (insert a.uuid now p.unwatched) p.ended
            (λ k t e h. ground (arith, lookup-insert a.uuid k now p.unwatched))
            (λ t h. (
              listed,
              inr (ground (arith, lookup-insert a.uuid a.uuid now p.unwatched, ==_refl a.uuid)),
            ))
            v.ends v

      kept :
          has_unwatched w acts a.uuid ≡ true
          → Sound (record { unwatched = p.unwatched; seen = a.uuid ∷ p.seen; ended = p.ended })
      kept listed =
          relist-Sound a p p.unwatched p.ended (λ k t e h. h) (λ t h. (listed, age p a.uuid t v h))
            v.ends v

  pub visit_all-Sound :
      (rest : List Activity) (p : Progress)
      → 1 ≤ grace
      → ((k : Str) → has_unwatched w rest k ≡ true → has_unwatched w acts k ≡ true)
      → Sound p
      → Sound (visit_all w now grace accepts rest p)
  unfolding visit_all has_unwatched
  visit_all-Sound [] p g up v = v
  visit_all-Sound (a ∷ rest) p g up v =
      visit_all-Sound rest (visit w now grace accepts a p) g (λ k h. up k (ground arith))
        (visit-Sound a p g (λ h. up a.uuid (ground (arith, ==_refl a.uuid))) v)
