-- ===== src/Maintenance/Plan.antt =====
-- Where plan sends a task's work.
use clusterplex.Prelude.{
  ◌≡◌, ◌≢◌, refl, ap, Bool, true, false, some, List, [], ◌∷◌, map, arith, if◌then◌else◌, Str,
  str_eq, All,
}
use clusterplex.Sorted.{contains}
use clusterplex.Hashring.{Ring, new_ring, locate}
use clusterplex.Hashring.Stable.{locate-contains}
use clusterplex.Maintenance.{Task, Assignment, assign, plan}

-- A piece of work that goes to a named member of ms.
abbrev pub GoesTo : List Str → Assignment → Type 0
GoesTo ms a = (contains ms a.member ≡ true) × (a.member ≢ [])

module _ (ms : List Str) (m : Str) (named : contains ms m ≡ true) (full : m ≢ []) where
  assigned : (t : Task) (ids : List Str) → All (GoesTo ms) (map (assign t (new_ring ms)) ids)
  unfolding assign
  assigned t [] = tt
  assigned t (id ∷ ids) = (locate-contains ms id m named full, assigned t ids)

-- What the plan for a task covers: each library once, in the order listed; or one piece of work.
abbrev pub covered : Bool → List Str → List Str
covered true ids = ids
covered false ids = [] ∷ []

libraries_of :
    (t : Task) (r : Ring) (ids : List Str) → map (λ a. a.library) (map (assign t r) ids) ≡ ids
unfolding assign
libraries_of t r [] = refl
libraries_of t r (id ∷ ids) = ap (◌∷◌ id) (libraries_of t r ids)

-- The work of a task, once the libraries are listed.
pub work_of : Task → Ring → List Str → List Assignment
work_of t r ids =
    if t.per_library
    then map (assign t r) ids
    else record { member = locate r t.name; path = t.path; library = [] } ∷ []

pub plan-work_of :
    (t : Task) (r : Ring) (ids : List Str) → plan (some ids) t r ≡ some (work_of t r ids)
unfolding plan work_of
plan-work_of t r ids = ground arith

libraries-work_of :
    (b : Bool) (t : Task) (r : Ring) (ids : List Str)
    → t.per_library ≡ b
    → map (λ a. a.library) (work_of t r ids) ≡ covered b ids
unfolding work_of assign
libraries-work_of true t r ids e = rw e (libraries_of t r ids)
libraries-work_of false t r ids e = rw e

work_of-GoesTo :
    (b : Bool) (t : Task) (ms ids : List Str) (m : Str)
    → contains ms m ≡ true
    → m ≢ []
    → t.per_library ≡ b
    → All (GoesTo ms) (work_of t (new_ring ms) ids)
unfolding work_of assign
work_of-GoesTo true t ms ids m named full e = rw e (assigned ms m named full t ids)
work_of-GoesTo false t ms ids m named full e = rw e (locate-contains ms t.name m named full, tt)

-- With a named pod and a listing of the libraries there is a plan. It has one piece of work for
-- each library listed, in order (or a single piece, if the task is not per library), and each
-- piece goes to one of the named pods.
pub plan_covers :
    (t : Task) (ms ids : List Str) (m : Str)
    → contains ms m ≡ true
    → m ≢ []
    → (work : List Assignment) × (plan (some ids) t (new_ring ms) ≡ some work)
      × (map (λ a. a.library) work ≡ covered t.per_library ids)
      × All (GoesTo ms) work
plan_covers t ms ids m named full = (
  work_of t (new_ring ms) ids,
  plan-work_of t (new_ring ms) ids,
  libraries-work_of t.per_library t (new_ring ms) ids refl,
  work_of-GoesTo t.per_library t ms ids m named full refl,
)
