-- ===== src/Maintenance/Tests.antt =====
-- The fan-out at concrete inputs.
use mathlib.Core.List.Perm
use clusterplex.Prelude.{
  ◌≡◌, refl, true, false, some, List, [], ◌∷◌, map, Str, str, str_beq, str_eq, pos, All,
}
use clusterplex.Dict.{lookup}
use clusterplex.Sorted.{contains}
use clusterplex.Hashring.{new_ring}
use clusterplex.Hashring.Tests.{pods, pods_named}
use clusterplex.Maintenance.{Task, Assignment, plan, run, deadline}
use clusterplex.Maintenance.Plan.{plan_covers, GoesTo, work_of, plan-work_of}
use clusterplex.Maintenance.Run.{Reports, run-Reports}
use clusterplex.Maintenance.Table.{tasks, lookup_task, plan-IsAddressed, IsAddressed, replaces}

abbrev analyze : Task
analyze = record {
  name = str "analyze";
  method = str "PUT";
  path = str "/library/sections/{id}/analyze";
  per_library = true;
  butler = str "ButlerTaskAnalyzeMedia" ∷ str "ButlerTaskUpgradeMediaAnalysis" ∷ [];
  timeout = pos 0;
}

abbrev libraries : List Str
libraries = str "1" ∷ str "2" ∷ []

analyze_found : lookup_task (str "analyze") ≡ some analyze
unfolding lookup_task lookup tasks str_beq
analyze_found = refl

replaced :
    (replaces (str "ButlerTaskBackupDatabase") ≡ true)
    × (replaces (str "ButlerTaskGenerateAutoTags") ≡ false)
unfolding replaces contains str_beq
replaced = (refl, refl)

deadline_default : deadline analyze ≡ 30_000_000_000
unfolding deadline
deadline_default = refl

plan-IsAddressed_example : All IsAddressed (work_of analyze (new_ring pods) libraries)
plan-IsAddressed_example =
    plan-IsAddressed (str "analyze") libraries (new_ring pods) analyze
      (work_of analyze (new_ring pods) libraries) analyze_found refl
      (plan-work_of analyze (new_ring pods) libraries)

plan_covers_example :
    (work : List Assignment) × (plan (some libraries) analyze (new_ring pods) ≡ some work)
    × (map (λ a. a.library) work ≡ libraries)
    × All (GoesTo pods) work
plan_covers_example = plan_covers analyze pods libraries (str "plex-0") pods_named (λ e. cc)

run-Reports_example :
    Reports
      (λ a. contains (str "1" ∷ []) a.library)
      (work_of analyze (new_ring pods) libraries)
      (run (some pods) (some libraries) (λ a. contains (str "1" ∷ []) a.library) (λ w. w) analyze)
run-Reports_example =
    run-Reports (λ a. contains (str "1" ∷ []) a.library) (λ w. w) analyze pods libraries
      (str "plex-0") (λ w. Perm.refl w) pods_named (λ e. cc)
