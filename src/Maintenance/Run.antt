-- ===== src/Maintenance/Run.antt =====
-- Run attempts all of the plan, in whatever order its goroutines finish.
use mathlib.Core.List.{Perm, perm_middle, append-nil, append_assoc}
use mathlib.Core.List.Perm
use clusterplex.Prelude.{
  str_eq, ◌≡◌, ◌≢◌, refl, sym, Bool, true, not, Option, none, some, List, [], ◌∷◌, ◌++◌, arith,
  if◌then◌else◌, length, Str, All, keep_if, is_empty, inl, inr, Bool-cases,
}
use clusterplex.Sorted.{contains}
use clusterplex.Hashring.{new_ring}
use clusterplex.Hashring.Set.{members_named}
use clusterplex.Maintenance.{
  Task, Assignment, Result, Error, dispatches_failed, finish, finish_all, outcome, run,
}
use clusterplex.Maintenance.Plan.{work_of, plan-work_of}

abbrev started : Task → Result
started t = record { task = t.name; dispatched = []; failed = [] }

module _ (dispatch : Assignment → Bool) where
  abbrev refused : Assignment → Bool
  refused a = not (dispatch a)

  dispatched-finish_all :
      (r : Result) (items : List Assignment)
      → (finish_all dispatch r items).dispatched ≡ r.dispatched ++ keep_if dispatch items
  unfolding finish_all finish
  dispatched-finish_all r [] = sym (append-nil r.dispatched)
  dispatched-finish_all r (a ∷ items) = ground (
    arith,
    dispatched-finish_all (finish dispatch r a) items,
    append_assoc r.dispatched (a ∷ []) (keep_if dispatch items),
  )

  failed-finish_all :
      (r : Result) (items : List Assignment)
      → (finish_all dispatch r items).failed ≡ r.failed ++ keep_if refused items
  unfolding finish_all finish
  failed-finish_all r [] = sym (append-nil r.failed)
  failed-finish_all r (a ∷ items) = ground (
    arith,
    failed-finish_all (finish dispatch r a) items,
    append_assoc r.failed (a ∷ []) (keep_if refused items),
  )

  split-Perm :
      (items : List Assignment) → Perm (keep_if dispatch items ++ keep_if refused items) items
  split-Perm [] = Perm.nil
  split-Perm (a ∷ items) = elim (Bool-cases (dispatch a)) [
    | inl sent ↦ rw (sent) (Perm.cons a (split-Perm items))
    | inr failed ↦ rw failed (
        Perm.trans (perm_middle (keep_if dispatch items) (keep_if refused items))
          (Perm.cons a (split-Perm items)))
  ]

  keep_if-All :
      (p : Assignment → Bool) (items : List Assignment) → All (λ a. p a ≡ true) (keep_if p items)
  keep_if-All p [] = tt
  keep_if-All p (a ∷ items) = ground (arith, keep_if-All p items)

  -- What Run records of its work, whatever the order: everything was tried once, what is listed
  -- as dispatched was, what is listed as failed was not, and there is an error if something failed.
  pub record Reports (work : List Assignment) (r : Result × Option Error) : Type 0 where
    pub all : Perm (r.0.dispatched ++ r.0.failed) work
    pub sent : All (λ a. dispatch a ≡ true) r.0.dispatched
    pub refused_all : All (λ a. not (dispatch a) ≡ true) r.0.failed
    pub error : r.1 ≡ (
        if is_empty r.0.failed
        then none
        else some (dispatches_failed (length r.0.failed) (length work)))

  outcome_state : (work : List Assignment) (r : Result) → (outcome work r).0 ≡ r
  unfolding outcome
  outcome_state work r = ground arith

  outcome_error :
      (work : List Assignment) (r : Result) (fs : List Assignment)
      → r.failed ≡ fs
      → (outcome work r).1 ≡ (
          if is_empty r.failed
          then none
          else some (dispatches_failed (length r.failed) (length work)))
  unfolding outcome
  outcome_error work r [] e = ground arith
  outcome_error work r (a ∷ fs) e = ground arith

  outcome-Reports :
      (work items : List Assignment) (r : Result)
      → r.dispatched ≡ keep_if dispatch items
      → r.failed ≡ keep_if refused items
      → Perm items work
      → Reports work (outcome work r)
  outcome-Reports work items r d f done =
      rebuild (outcome work r) (outcome_state work r) (outcome_error work r r.failed refl)
    where
      rebuild :
          (o : Result × Option Error)
          → o.0 ≡ r
          → o.1 ≡ (
              if is_empty r.failed
              then none
              else some (dispatches_failed (length r.failed) (length work)))
          → Reports work o
      rebuild o s e = record {
        all = rw (s, d, f) (Perm.trans (split-Perm items) done);
        sent = rw (s, d) (keep_if-All dispatch items);
        refused_all = rw (s, f) (keep_if-All refused items);
        error = rw s e;
      }

  -- With a named pod and the libraries listed, Run tries all of its plan.
  pub run-Reports :
      (order : List Assignment → List Assignment) (t : Task) (ms ids : List Str) (m : Str)
      → ((work : List Assignment) → Perm (order work) work)
      → contains ms m ≡ true
      → m ≢ []
      → Reports (work_of t (new_ring ms) ids) (run (some ms) (some ids) dispatch order t)
  unfolding run
  run-Reports order t ms ids m shuffled named full =
      rw (members_named ms m named full, plan-work_of t (new_ring ms) ids)
        (outcome-Reports (work_of t (new_ring ms) ids) (order (work_of t (new_ring ms) ids))
          (finish_all dispatch (started t) (order (work_of t (new_ring ms) ids)))
          (dispatched-finish_all (started t) (order (work_of t (new_ring ms) ids)))
          (failed-finish_all (started t) (order (work_of t (new_ring ms) ids)))
          (shuffled (work_of t (new_ring ms) ids)))
