-- ===== src/Lease/Exclusion.antt =====
-- No two pods hold a Lease at once.
use clusterplex.Prelude.{
  ℕ, ◌≤◌, ◌<◌, ◌≡◌, ◌≢◌, refl, sym, ap, ◌∙◌, true, none, some, [], ◌∷◌, arith, ◌==◌, ==_iff, Str,
  str_eq, is_empty, ◌⊎◌, inl, inr, Bool-cases, subst,
}
use clusterplex.Lease.{Lease, Server, lease_end, holder_of, or_empty_str}
use clusterplex.Lease.Client.{Lawful, keeps, takes, frees, identity}
use clusterplex.Lease.Lawful.{client-Good}
use clusterplex.Lease.System.{
  Task, idle, missed, read, set_at, term, System, Step, tick, look, look_missing, leave, write,
  make, Reach, here, next, Initial, with_version,
}

some_inj : {A : Type 0} {a b : A} → some a ≡ some b → a ≡ b
some_inj e = cc

module _ (sv : Server) where
  -- A pod whose term is not over is the Lease's holder, for at least that term.
  abbrev pub Holds : System sv → Str → Type 0
  Holds s q =
      (x : Lease) × (sv.get s.store ≡ some x)
      × (holder_of x ≡ q)
      × (s.until q ≤ lease_end x)
      × (q ≢ [])

  -- A Lease that was read is the present one, or an earlier version.
  abbrev pub Seen : System sv → Lease → Type 0
  Seen s x =
      (y : Lease) × (sv.get s.store ≡ some y)
      × (x.version ≤ y.version)
      × (x.version ≡ y.version → x ≡ y)

  pub record Inv (s : System sv) : Type 0 where
    pub held : (q : Str) → s.clock < s.until q → Holds s q
    pub seen : (q : Str) (x : Lease) → s.task q ≡ read x → Seen s x

  task_set :
      (f : Str → Task) (p q : Str) (t : Task) (x : Lease)
      → set_at p t f q ≡ read x
      → (t ≡ read x) ⊎ (f q ≡ read x)
  task_set f p q t x h = ground arith

  look-Inv :
      (s : System sv) (p : Str) (x : Lease)
      → sv.get s.store ≡ some x
      → Inv s
      → Inv (record s { task = set_at p (read x) s.task })
  look-Inv s p x g v = record {
    held = v.held;
    seen = λ q z h. elim (task_set s.task p q (read x) z h) [
      | inl same ↦ (x, g, ground arith, λ e. ground arith)
      | inr old ↦ v.seen q z old
    ];
  }

  -- A task that reads nothing changes no claim.
  rest-Inv :
      (s : System sv) (p : Str) (t : Task)
      → ((x : Lease) → t ≢ read x)
      → Inv s
      → Inv (record s { task = set_at p t s.task })
  rest-Inv s p t n v = record {
    held = v.held;
    seen = λ q z h. elim (task_set s.task p q t z h) [
      | inl same ↦ absurd (n z same)
      | inr old ↦ v.seen q z old
    ];
  }

  write-Seen :
      (s : System sv) (p : Str) (x' : Lease) (st : sv.State) (f : Str → ℕ)
      → sv.update s.store x' ≡ some st
      → Inv s
      → (q : Str) (z : Lease) → set_at p idle s.task q ≡ read z
      → Seen (record s { store = st; task = set_at p idle s.task; until = f }) z
  write-Seen s p x' st f u v q z h =
      let law = sv.update_law s.store x' st u in
      let fact = v.seen q z (not_idle (task_set s.task p q idle z h)) in
      let present = some_inj (sym fact.1 ∙ law.1) in
      (
        with_version law.3.0 x',
        law.3.2,
        omega (arith, law.3.1, fact.2, ap (λ l. l.version) present, law.2),
        λ e. absurd (omega (arith, e, law.3.1, fact.2, ap (λ l. l.version) present, law.2)),
      )
    where
      not_idle : (idle ≡ read z) ⊎ (s.task q ≡ read z) → s.task q ≡ read z
      not_idle (inl e) = cc
      not_idle (inr e) = e

  mine_held :
      (clock : ℕ) (p q : Str) (x' : Lease) (f : Str → ℕ)
      → clock < set_at p (term p x') f q
      → (p == q) ≡ true
      → (holder_of x' ≡ q) × (set_at p (term p x') f q ≤ lease_end x')
  mine_held clock p q x' f h e = (
    ground (arith, (==_iff p q).0 e, (==_iff (holder_of x') p).0),
    ground (arith, (==_iff p q).0 e),
  )

  -- A lawful write leaves another pod's running term alone.
  other_held :
      (clock now end : ℕ) (p q : Str) (x x' : Lease)
      → Lawful p now x x'
      → now ≤ clock
      → clock < end
      → end ≤ lease_end x
      → holder_of x ≡ q
      → q ≢ []
      → p ≢ q
      → (holder_of x' ≡ q) × (end ≤ lease_end x')
  other_held clock now end p q x x' (keeps e f) le lt fits h n d =
      (ap or_empty_str e ∙ h, omega arith)
  other_held clock now end p q x x' (takes (inl free) e) le lt fits h n d =
      absurd (n (sym h ∙ empty_eq (holder_of x) free))
    where
      empty_eq : (w : Str) → is_empty w ≡ true → w ≡ []
      empty_eq [] z = refl
      empty_eq (c ∷ cs) z = cc
  other_held clock now end p q x x' (takes (inr (inl own)) e) le lt fits h n d =
      absurd (d (sym own ∙ h))
  other_held clock now end p q x x' (takes (inr (inr over)) e) le lt fits h n d =
      absurd (omega arith)
  other_held clock now end p q x x' (frees own e) le lt fits h n d = absurd (d (sym own ∙ h))

  write-held :
      (s : System sv) (p : Str) (now : ℕ) (x x' : Lease) (st : sv.State)
      → p ≢ []
      → now ≤ s.clock
      → Lawful p now x x'
      → sv.get s.store ≡ some x
      → sv.update s.store x' ≡ some st
      → Inv s
      → (q : Str) → s.clock < set_at p (term p x') s.until q
      → Holds
          (record s {
            store = st;
            task = set_at p idle s.task;
            until = set_at p (term p x') s.until;
          })
          q
  write-held s p now x x' st named le lawful g u v q h =
      let law = sv.update_law s.store x' st u in
      let now_at = with_version law.3.0 x' in
      elim (Bool-cases (p == q)) [
        | inl mine ↦
            let fact = mine_held s.clock p q x' s.until h mine in
            (now_at, law.3.2, fact.0, fact.1, subst (λ r. r ≢ []) ((==_iff p q).0 mine) named)
        | inr other ↦
            let kept : set_at p (term p x') s.until q ≡ s.until q = rw other in
            let old = v.held q (rw kept at h) in
            let same : old.0 ≡ x = some_inj (sym old.1 ∙ g) in
            let fact =
              other_held s.clock now (s.until q) p q x x' lawful le (rw kept at h)
                (rw same at old.3) (ap holder_of (sym same) ∙ old.2) old.4
                (λ e. cc ((==_iff p q).1 e)) in
            (now_at, law.3.2, fact.0, rw kept fact.1, old.4)
      ]

  -- An update that is accepted replaces the very Lease that the pod read.
  still :
      (s : System sv) (p : Str) (x x' : Lease) (st : sv.State)
      → s.task p ≡ read x
      → x'.version ≡ x.version
      → sv.update s.store x' ≡ some st
      → Inv s
      → sv.get s.store ≡ some x
  still s p x x' st r e u v =
      let law = sv.update_law s.store x' st u in
      let fact = v.seen p x r in
      let present = some_inj (sym fact.1 ∙ law.1) in
      let unchanged = fact.3 (sym e ∙ sym law.2 ∙ ap (λ l. l.version) (sym present)) in
      fact.1 ∙ ap some (sym unchanged)

  make-held :
      (s : System sv) (p : Str) (x' : Lease) (st : sv.State)
      → p ≢ []
      → sv.create s.store x' ≡ some st
      → Inv s
      → (q : Str) → s.clock < set_at p (term p x') s.until q
      → Holds
          (record s {
            store = st;
            task = set_at p idle s.task;
            until = set_at p (term p x') s.until;
          })
          q
  make-held s p x' st named u v q h =
      let law = sv.create_law s.store x' st u in
      elim (Bool-cases (p == q)) [
        | inl mine ↦
            let fact = mine_held s.clock p q x' s.until h mine in
            (
              with_version law.1.0 x',
              law.1.1,
              fact.0,
              fact.1,
              subst (λ r. r ≢ []) ((==_iff p q).0 mine) named,
            )
        | inr other ↦
            let kept : set_at p (term p x') s.until q ≡ s.until q = rw other in
            let old = v.held q (rw kept at h) in absurd (no_lease (sym law.0 ∙ old.1))
      ]
    where
      no_lease : {a : Lease} → none ≡ some a → ⊥
      no_lease e = cc

  make-Seen :
      (s : System sv) (p : Str) (x' : Lease) (st : sv.State) (f : Str → ℕ)
      → sv.create s.store x' ≡ some st
      → Inv s
      → (q : Str) (z : Lease) → set_at p idle s.task q ≡ read z
      → Seen (record s { store = st; task = set_at p idle s.task; until = f }) z
  make-Seen s p x' st f u v q z h =
      let law = sv.create_law s.store x' st u in
      let fact = v.seen q z (not_idle (task_set s.task p q idle z h)) in
      absurd (no_lease (sym law.0 ∙ fact.1))
    where
      no_lease : {a : Lease} → none ≡ some a → ⊥
      no_lease e = cc

      not_idle : (idle ≡ read z) ⊎ (s.task q ≡ read z) → s.task q ≡ read z
      not_idle (inl e) = cc
      not_idle (inr e) = e

  Step-Inv : {s t : System sv} → Step sv s t → Inv s → Inv t
  Step-Inv (tick s n) v = record { held = λ q h. v.held q (omega arith); seen = v.seen }
  Step-Inv (look s p x g) v = look-Inv s p x g v
  Step-Inv (look_missing s p) v = rest-Inv s p missed (λ x e. cc) v
  Step-Inv (leave s p) v = rest-Inv s p idle (λ x e. cc) v
  Step-Inv (write s c now x x' st named le r w u) v =
      let p = identity c in
      let (lawful, e) = client-Good c now x x' w in
      record {
        held = write-held s p now x x' st named le lawful (still s p x x' st r e u v) u v;
        seen = write-Seen s p x' st (set_at p (term p x') s.until) u v;
      }
  Step-Inv (make s c now x' st named le r w u) v = record {
    held = make-held s (identity c) x' st named u v;
    seen = make-Seen s (identity c) x' st (set_at (identity c) (term (identity c) x') s.until) u v;
  }

  Reach-Inv : {s t : System sv} → Inv s → Reach sv s t → Inv t
  Reach-Inv v here = v
  Reach-Inv v (next r st) = Step-Inv st (Reach-Inv v r)

  Initial-Inv : (s : System sv) → Initial sv s → Inv s
  Initial-Inv s i = record {
    held = λ q h. absurd (omega (arith, i.over q));
    seen = λ q x h. absurd (never (sym (i.quiet q) ∙ h));
  }
    where
      never : {x : Lease} → idle ≡ read x → ⊥
      never e = cc

  -- In a run from a state where nobody has begun, the terms of two pods are never running at once,
  -- and a pod whose term is running is the holder that the Lease names, until the end of that term
  -- at least.
  pub exclusion :
      {s t : System sv} (p q : Str)
      → Initial sv s
      → Reach sv s t
      → t.clock < t.until p
      → t.clock < t.until q
      → (p ≡ q)
        × ((x : Lease) × (sv.get t.store ≡ some x) × (holder_of x ≡ p) × (t.until p ≤ lease_end x))
  exclusion {s} {t} p q i r h k =
      let v = Reach-Inv (Initial-Inv s i) r in
      let a = v.held p h in
      let b = v.held q k in
      (sym a.2 ∙ ap holder_of (some_inj (sym a.1 ∙ b.1)) ∙ b.2, (a.0, a.1, a.2, a.3))
