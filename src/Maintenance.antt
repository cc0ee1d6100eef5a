-- ===== src/Maintenance.antt =====
-- pkg/maintenance/maintenance.go: the tasks a CronJob may ask for, and their distribution over the
-- pods that run Plex. What the callbacks of Fanout answer are arguments: the members and libraries
-- listed, or none for an error, and whether each dispatch succeeds. The goroutines of Run finish
-- in an order that is an argument too. Durations are in nanoseconds.
pub mod Plan
pub mod Run
pub mod Table
pub mod Tests
use clusterplex.Prelude.{
  ℕ, zero, suc, ◌+◌, ◌-◌, ◌*◌, ◌≡◌, Bool, true, false, Option, none, some, List, [], ◌∷◌, ◌++◌, map,
  if◌then◌else◌, ◌==◌, length, ltb, ℤ, pos, positive_or, Str, str, str_eq, has_prefix, is_empty,
}
use clusterplex.Dict.{Dict, lookup}
use clusterplex.Sorted.{contains, sort}
use clusterplex.Sorted.Orders.{str_order}
use clusterplex.Hashring.{Ring, new_ring, locate}

abbrev pub second : ℕ
second = 1_000_000_000

abbrev pub default_timeout : ℕ
default_timeout = 30 * second

pub record Task : Type 0 where
  pub name : Str
  pub method : Str
  pub path : Str
  pub per_library : Bool
  pub butler : List Str
  pub timeout : ℤ

-- func (t Task) Deadline() time.Duration
pub deadline : Task → ℕ
deadline t = positive_or t.timeout default_timeout

-- strings.ReplaceAll, for old not empty: skip is what is left of a match.
unfoldable pub replace_from : ℕ → Str → Str → Str → Str
replace_from skip [] old new = []
replace_from (suc skip) (c ∷ s) old new = replace_from skip s old new
replace_from zero (c ∷ s) old new = elim (has_prefix (c ∷ s) old) [
  | true ↦ new ++ replace_from (length old - 1) s old new
  | false ↦ c ∷ replace_from 0 s old new
]

unfoldable pub replace_all : Str → Str → Str → Str
replace_all s old new = replace_from 0 s old new

pub record Assignment : Type 0 where
  pub member : Str
  pub path : Str
  pub library : Str

pub record Result : Type 0 where
  pub task : Str
  pub dispatched : List Assignment
  pub failed : List Assignment

pub data Error : Type 0 where
  list_pods no_pod list_libraries : Error
  dispatches_failed : ℕ → ℕ → Error

pub assign : Task → Ring → Str → Assignment
assign t ring id = record {
  member = locate ring id;
  path = replace_all t.path (str "{id}") id;
  library = id;
}

-- func (f *Fanout) plan
pub plan : Option (List Str) → Task → Ring → Option (List Assignment)
plan libraries t ring =
    if t.per_library
    then elim libraries [ none ↦ none | some ids ↦ some (map (assign t ring) ids) ]
    else some (record { member = locate ring t.name; path = t.path; library = [] } ∷ [])

-- One goroutine of Run, once its dispatch has answered.
pub finish : (Assignment → Bool) → Result → Assignment → Result
finish dispatch r item =
    if dispatch item
    then record r { dispatched = r.dispatched ++ item ∷ [] }
    else record r { failed = r.failed ++ item ∷ [] }

pub finish_all : (Assignment → Bool) → Result → List Assignment → Result
finish_all dispatch r [] = r
finish_all dispatch r (item ∷ items) = finish_all dispatch (finish dispatch r item) items

-- The end of Run: work was planned, and r is what its goroutines recorded.
pub outcome : List Assignment → Result → Result × Option Error
outcome work r =
    if ltb 0 (length r.failed)
    then (r, some (dispatches_failed (length r.failed) (length work)))
    else (r, none)

-- func (f *Fanout) Run: order gives the work in the order in which the goroutines finish.
pub run :
    Option (List Str)
    → Option (List Str)
    → (Assignment → Bool)
    → (List Assignment → List Assignment)
    → Task
    → Result × Option Error
run members libraries dispatch order t =
    let result : Result = record { task = t.name; dispatched = []; failed = [] } in
    elim members [
      | none ↦ (result, some list_pods)
      | some ms ↦
          if is_empty (new_ring ms).members
          then (result, some no_pod)
          else elim (plan libraries t (new_ring ms)) [
            | none ↦ (result, some list_libraries)
            | some work ↦ outcome work (finish_all dispatch result (order work))
          ]
    ]
