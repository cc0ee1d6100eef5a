-- ===== src/Maintenance/Table.antt =====
-- The table of tasks, and what the endpoint reads of it.
use clusterplex.Prelude.{
  ℕ, ◌*◌, ◌≡◌, refl, Bool, true, false, Option, some, List, [], ◌∷◌, ◌++◌, map, pos, Str, str,
  str_eq, has_prefix, ◌||◌, All, arith, ==_refl, nat_eq, subst,
}
use clusterplex.Dict.{Dict, lookup, lookup-All}
use clusterplex.Sorted.{contains, sort}
use clusterplex.Sorted.Orders.{str_order}
use clusterplex.Hashring.{Ring}
use clusterplex.Maintenance.{Task, Assignment, assign, plan, second, replace_all, replace_from}

abbrev per_section : Str → Str → Str → List Str → ℕ → Str × Task
per_section name method path butler timeout = (
  name,
  record {
    name = name;
    method = method;
    path = path;
    per_library = true;
    butler = butler;
    timeout = pos timeout;
  },
)

abbrev server_wide : Str → Str → Str → List Str → Str × Task
server_wide name method path butler = (
  name,
  record {
    name = name;
    method = method;
    path = path;
    per_library = false;
    butler = butler;
    timeout = pos 0;
  },
)

-- var Tasks
unfoldable pub tasks : Dict Str Task
tasks =
    per_section (str "analyze") (str "PUT") (str "/library/sections/{id}/analyze")
      (str "ButlerTaskAnalyzeMedia" ∷ str "ButlerTaskUpgradeMediaAnalysis" ∷ []) 0
    ∷ per_section (str "deep-analyze") (str "PUT") (str "/library/sections/{id}/analyze?deep=1")
        (str "ButlerTaskDeepMediaAnalysis" ∷ []) 0
    ∷ per_section (str "refresh") (str "GET") (str "/library/sections/{id}/refresh")
        (str "ButlerTaskRefreshLocalMedia" ∷ str "ButlerTaskRefreshPeriodicMetadata" ∷ []) 0
    ∷ per_section (str "empty-trash") (str "PUT") (str "/library/sections/{id}/emptyTrash") []
        (1800 * second)
    ∷ server_wide (str "media-index") (str "POST") (str "/butler/GenerateMediaIndexFiles")
        (str "ButlerTaskGenerateMediaIndexFiles" ∷ [])
    ∷ server_wide (str "chapter-thumbs") (str "POST") (str "/butler/GenerateChapterThumbs")
        (str "ButlerTaskGenerateChapterThumbs" ∷ [])
    ∷ server_wide (str "backup-database") (str "POST") (str "/butler/BackupDatabase")
        (str "ButlerTaskBackupDatabase" ∷ [])
    ∷ server_wide (str "clean-bundles") (str "POST") (str "/butler/CleanOldBundles")
        (str "ButlerTaskCleanOldBundles" ∷ [])
    ∷ server_wide (str "clean-cache") (str "POST") (str "/butler/CleanOldCacheFiles")
        (str "ButlerTaskCleanOldCacheFiles" ∷ [])
    ∷ []

-- func Lookup(name string) (Task, bool)
unfoldable pub lookup_task : Str → Option Task
lookup_task name = lookup name tasks

replaces_in : Dict Str Task → Str → Bool
replaces_in [] b = false
replaces_in ((n, t) ∷ ts) b = contains t.butler b || replaces_in ts b

-- func Replaces(butlerTask string) bool
unfoldable pub replaces : Str → Bool
unfolding replaces_in tasks
replaces b = replaces_in tasks b

-- func Names() []string
unfoldable pub names : List Str
unfolding tasks
names = sort str_order (map (λ nt. nt.0) tasks)

abbrev pub section_path : Str → Str
section_path id = str "/library/sections/" ++ id ++ str "/"

-- A piece of work is addressed below its own library's section.
abbrev pub IsAddressed : Assignment → Type 0
IsAddressed a = has_prefix a.path (section_path a.library) ≡ true

abbrev Addresses : Task → Type 0
Addresses t = (ring : Ring) (id : Str) → t.per_library ≡ true → IsAddressed (assign t ring id)

below : (id s : Str) → has_prefix (id ++ 47 ∷ s) (id ++ 47 ∷ []) ≡ true
unfolding has_prefix
below [] s = refl
below (c ∷ id) s = ground (arith, below id s, ==_refl c)

not_per_library : {A : Type 0} → false ≡ true → A
not_per_library p = absurd (ground (arith, p))

tasks_address : All (λ nt. Addresses nt.1) tasks
unfolding tasks assign replace_all replace_from has_prefix
tasks_address = (
  λ r id p. below id (str "analyze"),
  (
    λ r id p. below id (str "analyze?deep=1"),
    (
      λ r id p. below id (str "refresh"),
      (
        λ r id p. below id (str "emptyTrash"),
        (
          λ r id p. not_per_library p,
          (
            λ r id p. not_per_library p,
            (
              λ r id p. not_per_library p,
              (λ r id p. not_per_library p, (λ r id p. not_per_library p, tt)),
            ),
          ),
        ),
      ),
    ),
  ),
)

all_assigned :
    (t : Task) (ring : Ring) (ids : List Str)
    → Addresses t
    → t.per_library ≡ true
    → All IsAddressed (map (assign t ring) ids)
all_assigned t ring [] a p = tt
all_assigned t ring (id ∷ ids) a p = (a ring id p, all_assigned t ring ids a p)

-- The plan for a per-library task of the table addresses each piece of work below the section of the
-- library it is for, whatever the libraries and the ring.
pub plan-IsAddressed :
    (name : Str) (ids : List Str) (ring : Ring) (t : Task) (work : List Assignment)
    → lookup_task name ≡ some t
    → t.per_library ≡ true
    → plan (some ids) t ring ≡ some work
    → All IsAddressed work
unfolding lookup_task plan
plan-IsAddressed name ids ring t work h p e =
    let addresses = lookup-All Addresses name tasks tasks_address h in
    let planned : map (assign t ring) ids ≡ work = ground (arith, e, p) in
    subst (All IsAddressed) planned (all_assigned t ring ids addresses p)
