-- ===== src/Scheduler/Pending.antt =====
-- When a folder's scan is due, as the scheduler's steps change it.
use clusterplex.Prelude.{
  ◌∙◌, ◌||◌, ℕ, ◌+◌, ◌≡◌, refl, Bool, true, false, ◌&&◌, Option, none, some, [], ◌∷◌, arith,
  if◌then◌else◌, ◌==◌, ==_iff, Eq, Str, str_eq, nat_eq, is_empty, positive_or, Bool-cases, inl, inr,
  ap,
}
use clusterplex.Dict.{Dict, lookup, insert, delete, lookup-insert, lookup-delete}
use clusterplex.Scheduler.{
  or_nothing, Config, Scheduler, Scan, folders_of, enqueue_scan, clear, clear_all, settle_scan,
  default_scan_delay,
}

-- When the scan of a folder is due, if one is queued.
unfoldable pub pending : Scheduler → Str → Str → Option ℕ
pending s section folder = lookup folder (folders_of s section)

-- What is left of a due time once the times that p names are cleared.
abbrev pub unless : (ℕ → Bool) → Option ℕ → Option ℕ
unless p none = none
unless p (some d) = if p d then none else some d

unless_twice : (p q : ℕ → Bool) (o : Option ℕ) → unless q (unless p o) ≡ unless (λ d. p d || q d) o
unless_twice p q none = refl
unless_twice p q (some d) = ground arith

pub lookup-clear {ℓ} :
    {K : Type ℓ} ⦃e : Eq K⦄ (k j : K) (due : ℕ) (m : Dict K ℕ)
    → lookup j (clear k due m) ≡ unless (λ d. k == j && d == due) (lookup j m)
unfolding clear
lookup-clear ⦃e⦄ k j due m = elim (Bool-cases (k == j)) [
  | inl hit ↦ ground (arith, ap (λ i. lookup i m) ((==_iff k j).0 hit), lookup-delete k j m)
  | inr miss ↦ ground (arith, lookup-delete k j m)
]

-- A send carries a folder with a due time.
unfoldable pub carries : Dict Str ℕ → Str → ℕ → Bool
carries [] folder d = false
carries ((k, due) ∷ m) folder d = (k == folder && d == due) || carries m folder d

lookup-clear_all :
    (dues m : Dict Str ℕ) (folder : Str)
    → lookup folder (clear_all dues m) ≡ unless (carries dues folder) (lookup folder m)
unfolding clear_all carries
lookup-clear_all [] m folder = ground arith
lookup-clear_all ((k, due) ∷ rest) m folder =
    lookup-clear_all rest (clear k due m) folder
    ∙ ap (unless (carries rest folder)) (lookup-clear k folder due m)
    ∙ unless_twice (λ d. k == folder && d == due) (carries rest folder) (lookup folder m)

lookup-is_empty : (m : Dict Str ℕ) (folder : Str) → is_empty m ≡ true → lookup folder m ≡ none
unfolding lookup
lookup-is_empty [] folder h = refl
lookup-is_empty (x ∷ m) folder h = cc

-- A scan covers a folder that is due at d.
abbrev pub covers : Scan → Str → Str → ℕ → Bool
covers sc section folder d = sc.section == section && carries sc.due folder d

store_folders :
    (scans : Dict Str (Dict Str ℕ)) (k section : Str) (folders : Dict Str ℕ) (folder : Str)
    → lookup folder (
        or_nothing
          (lookup section (if is_empty folders then delete k scans else insert k folders scans)))
      ≡ (if k == section
          then lookup folder folders
          else lookup folder (or_nothing (lookup section scans)))
unfolding lookup
store_folders scans k section [] folder = ground (arith, lookup-delete k section scans)
store_folders scans k section (x ∷ folders) folder =
    ground (arith, lookup-insert k section (x ∷ folders) scans)

pub pending-settle_scan :
    (sc : Scan) (s : Scheduler) (section folder : Str)
    → pending (settle_scan sc s) section folder
      ≡ unless (covers sc section folder) (pending s section folder)
unfolding pending settle_scan
pending-settle_scan sc s section folder = elim (Bool-cases (sc.section == section)) [
  | inl hit ↦ ground (
    arith,
    store_folders s.scans sc.section section (clear_all sc.due (folders_of s sc.section)) folder,
    lookup-clear_all sc.due (folders_of s sc.section) folder,
    ap (λ k. lookup folder (folders_of s k)) ((==_iff sc.section section).0 hit),
  )
  | inr miss ↦ ground (
    arith,
    store_folders s.scans sc.section section (clear_all sc.due (folders_of s sc.section)) folder,
  )
]

pub pending-enqueue_scan :
    (c : Config) (now : ℕ) (k j section folder : Str) (s : Scheduler)
    → pending (enqueue_scan c now k j s) section folder ≡ (
        if k == section && j == folder
        then some (now + positive_or c.scan_delay default_scan_delay)
        else pending s section folder)
unfolding pending enqueue_scan
pending-enqueue_scan c now k j section folder s = elim (Bool-cases (k == section)) [
  | inl hit ↦
      let due = now + positive_or c.scan_delay default_scan_delay in
      ground (
        arith,
        lookup-insert k section (insert j due (folders_of s k)) s.scans,
        lookup-insert j folder due (folders_of s k),
        ap (λ i. lookup folder (folders_of s i)) ((==_iff k section).0 hit),
      )
  | inr miss ↦
      let due = now + positive_or c.scan_delay default_scan_delay in
      ground (arith, lookup-insert k section (insert j due (folders_of s k)) s.scans)
]
