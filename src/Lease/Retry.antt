-- ===== src/Lease/Retry.antt =====
-- The retry loop of pkg/plex/route/publisher.go, over a Lease that others write too.
use clusterplex.Prelude.{
  ℕ, zero, suc, ◌+◌, ◌<◌, ◌≡◌, refl, ap, ◌∙◌, ◌⊎◌, false, Option, none, some, arith, Bool-cases,
  Option-cases, inl, inr, Str, subst, sym,
}
use clusterplex.Dict.{Dict}
use clusterplex.Lease.{Lease, Server}
use clusterplex.Lease.Route.{Answer, nil, get_failed, update_failed, Faults, update}

-- What Update's resourceVersion asks for is all that the server refuses for.
abbrev pub Accepts : Server → Type 0
Accepts sv =
    (s : sv.State) (l x : Lease)
    → sv.get s ≡ some x
    → x.version ≡ l.version
    → (s' : sv.State) × (sv.update s l ≡ some s')

module _ (sv : Server) (change : Dict Str Str → Option (Dict Str Str))
    (others : ℕ → sv.State → sv.State) (faults : Faults) where
  -- Nothing to change: no Lease, or one that has what is wanted.
  abbrev pub Unchanged : sv.State → Type 0
  Unchanged s =
      (sv.get s ≡ none) ⊎ ((l : Lease) × (sv.get s ≡ some l) × (change l.annotations ≡ none))

  -- The change to the Lease that is read in s is one that the server takes after the others' writes.
  pub record Written (i : ℕ) (s s' : sv.State) : Type 0 where
    pub read : Lease
    pub is_read : sv.get s ≡ some read
    pub changed : Dict Str Str
    pub is_changed : change read.annotations ≡ some changed
    pub is_taken : sv.update (others i s) (record read { annotations = changed }) ≡ some s'

  -- How the attempt i, begun in s, ends the loop.
  pub data Settled (i : ℕ) (s : sv.State) (r : sv.State × Answer) : Type 0 where
    same : Unchanged s → r ≡ (others i s, nil) → Settled i s r
    wrote : (s' : sv.State) → Written i s s' → r ≡ (s', nil) → Settled i s r
    get_fault : faults.get_ok i ≡ false → r ≡ (others i s, get_failed) → Settled i s r
    update_fault :
        (faults.update_ok i ≡ false) ⊎ (sv.get (others i s) ≡ none)
        → r ≡ (others i s, update_failed)
        → Settled i s r

  -- The loop ends with the attempt i, or one of the j after it.
  pub data SettledBy (r : sv.State × Answer) : ℕ → ℕ → sv.State → Type 0 where
    now : {j i : ℕ} {s : sv.State} → Settled i s r → SettledBy r j i s
    later : {j i : ℕ} {s : sv.State} → SettledBy r j (i + 1) (others i s) → SettledBy r (suc j) i s

  -- An Update that the server refuses.
  record Refused (i : ℕ) (s : sv.State) : Type 0 where
    read : Lease
    is_read : sv.get s ≡ some read
    changed : Dict Str Str
    is_refused : sv.update (others i s) (record read { annotations = changed }) ≡ none

  attempt :
      (n i : ℕ) (s : sv.State)
      → Settled i s (update sv change others faults (suc n) i s)
        ⊎ (Refused i s
            × (update sv change others faults (suc n) i s
                ≡ update sv change others faults n (i + 1) (others i s)))
  unfolding update
  attempt n i s = elim (Bool-cases (faults.get_ok i)) [
    | inr e ↦ inl (get_fault e (rw (update, e) refl))
    | inl e ↦ elim (Option-cases (sv.get s)) [
      | inl g ↦ inl (same (inl g) (rw (update, e, g) refl))
      | inr (l, g) ↦ elim (Option-cases (change l.annotations)) [
        | inl f ↦ inl (same (inr (l, g, f)) (rw (update, e, g, f) refl))
        | inr (m, f) ↦ elim (Bool-cases (faults.update_ok i)) [
          | inr u ↦ inl (update_fault (inl u) (rw (update, e, g, f, u) refl))
          | inl u ↦ elim (Option-cases (sv.update (others i s) (record l { annotations = m }))) [
            | inr (s', w) ↦
                let written : Written i s s' = record {
                  read = l;
                  is_read = g;
                  changed = m;
                  is_changed = f;
                  is_taken = w;
                } in
                inl (wrote s' written (rw (update, e, g, f, u, w) refl))
            | inl w ↦ elim (Option-cases (sv.get (others i s))) [
              | inl gone ↦ inl (update_fault (inr gone) (rw (update, e, g, f, u, w, gone) refl))
              | inr (x, there) ↦ inr (
                record { read = l; is_read = g; changed = m; is_refused = w },
                rw (update, e, g, f, u, w, there) refl,
              )
            ]
          ]
        ]
      ]
    ]
  ]

  not-Refused : (i : ℕ) (s : sv.State) → Accepts sv → others i s ≡ s → Refused i s → ⊥
  not-Refused i s takes quiet f =
      let (s', ok) = takes s (record f.read { annotations = f.changed }) f.read f.is_read refl in
      let refused : sv.update s (record f.read { annotations = f.changed }) ≡ none =
        rw quiet at f.is_refused in
      absurd (ground (arith, ok, refused))

  -- If the server takes each update of the version that it has, and nobody else writes during the
  -- attempt j, that attempt or an earlier one ends the loop. It has then written its change over
  -- what it read, or found nothing to change, and answers nil; or it answers the error that is no
  -- conflict which it met.
  pub update-SettledBy :
      (j n i : ℕ) (s : sv.State)
      → Accepts sv
      → j < n
      → ((t : sv.State) → others (i + j) t ≡ t)
      → SettledBy (update sv change others faults n i s) j i s
  update-SettledBy j zero i s takes h quiet = absurd (omega arith)
  update-SettledBy zero (suc n) i s takes h quiet = elim (attempt n i s) [
    | inl done ↦ now done
    | inr (f, e) ↦
        let still = ap (λ k. others k s) {x = i} {y = i + zero} (omega arith) ∙ quiet s in
        absurd (not-Refused i s takes still f)
  ]
  update-SettledBy (suc j) (suc n) i s takes h quiet =
      let rest =
        update-SettledBy j n (i + 1) (others i s) takes (omega arith)
          (λ t. ap (λ k. others k t) {x = i + 1 + j} {y = i + suc j} (omega arith) ∙ quiet t) in
      elim (attempt n i s) [
        | inl done ↦ now done
        | inr (f, e) ↦ later (subst (λ r. SettledBy r j (i + 1) (others i s)) (sym e) rest)
      ]
