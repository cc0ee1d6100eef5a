-- ===== src/Scheduler/Collect.antt =====
-- What Flush collects: the folders that are due, and all of a section past the threshold.
use clusterplex.Prelude.{
  ℕ, ◌≡◌, refl, ap, Bool, true, false, ◌&&◌, ◌||◌, some, List, [], ◌∷◌, ◌++◌, map, arith, ◌==◌,
  ==_iff, Str, str_eq, nat_eq, length, ltb, leb, Bool-cases, inl, inr,
}
use clusterplex.Dict.{Dict, lookup, has, IsMap}
use clusterplex.Scheduler.{
  Scheduler, Scan, or_nothing, folders_of, ready, collect_section, collect_scans,
}
use clusterplex.Scheduler.Pending.{covers, carries, pending}

-- Some scan covers a folder that is due at d.
abbrev pub any_covers : List Scan → Str → Str → ℕ → Bool
any_covers [] section folder d = false
any_covers (sc ∷ scs) section folder d =
    covers sc section folder d || any_covers scs section folder d

any_covers-append :
    (xs ys : List Scan) (section folder : Str) (d : ℕ)
    → any_covers (xs ++ ys) section folder d
      ≡ any_covers xs section folder d || any_covers ys section folder d
any_covers-append [] ys section folder d = refl
any_covers-append (x ∷ xs) ys section folder d =
    ground (arith, any_covers-append xs ys section folder d)

carries_nil : (folder : Str) (d : ℕ) → carries [] folder d ≡ false
unfolding carries
carries_nil folder d = refl

carries_absent :
    (m : Dict Str ℕ) (folder : Str) (d : ℕ) → has folder m ≡ false → carries m folder d ≡ false
unfolding has carries
carries_absent [] folder d h = refl
carries_absent ((k, due) ∷ m) folder d h = ground (arith, carries_absent m folder d)

carries-lookup :
    (m : Dict Str ℕ) (folder : Str) (d : ℕ) → lookup folder m ≡ some d → carries m folder d ≡ true
unfolding lookup carries
carries-lookup [] folder d h = cc
carries-lookup ((k, due) ∷ m) folder d h = ground (arith, carries-lookup m folder d)

carries-ready :
    (now : ℕ) (m : Dict Str ℕ) (folder : Str) (d : ℕ)
    → carries (ready now m) folder d ≡ carries m folder d && leb d now
unfolding carries
carries-ready now [] folder d = refl
carries-ready now ((k, due) ∷ m) folder d = ground (arith, carries-ready now m folder d)

any_covers-single :
    (k : Str) (m : Dict Str ℕ) (section folder : Str) (d : ℕ)
    → any_covers
        (map (λ fd. record { section = k; folder = fd.0; due = fd ∷ [] }) m)
        section
        folder
        d
      ≡ k == section && carries m folder d
unfolding carries
any_covers-single k [] section folder d = ground arith
any_covers-single k ((f, due) ∷ m) section folder d =
    ground (arith, any_covers-single k m section folder d)

any_covers-collect_section :
    (th now : ℕ) (k : Str) (m : Dict Str ℕ) (section folder : Str) (d : ℕ)
    → any_covers (collect_section th now k m) section folder d
      ≡ k == section && carries m folder d && (ltb th (length m) || leb d now)
unfolding collect_section
any_covers-collect_section th now k m section folder d =
    ground (arith, any_covers-single k (ready now m) section folder d, carries-ready now m folder d)

any_covers_absent :
    (th now : ℕ) (scans : Dict Str (Dict Str ℕ)) (section folder : Str) (d : ℕ)
    → has section scans ≡ false
    → any_covers (collect_scans th now scans) section folder d ≡ false
unfolding has collect_scans
any_covers_absent th now [] section folder d h = refl
any_covers_absent th now ((k, m) ∷ scans) section folder d h = ground (
  arith,
  any_covers-append (collect_section th now k m) (collect_scans th now scans) section folder d,
  any_covers-collect_section th now k m section folder d,
  any_covers_absent th now scans section folder d,
)

-- Exactly the queued folders that are due, or whose section is past the threshold, are covered.
pub any_covers-collect_scans :
    (th now : ℕ) (scans : Dict Str (Dict Str ℕ)) (section folder : Str) (d : ℕ)
    → IsMap scans
    → any_covers (collect_scans th now scans) section folder d
      ≡ carries (or_nothing (lookup section scans)) folder d
        && (ltb th (length (or_nothing (lookup section scans))) || leb d now)
unfolding lookup collect_scans
any_covers-collect_scans th now [] section folder d h = rw (carries_nil folder d)
any_covers-collect_scans th now ((k, m) ∷ scans) section folder d h =
    elim (Bool-cases (k == section)) [
      | inl hit ↦ ground (
        arith,
        hit,
        any_covers-append (collect_section th now k m) (collect_scans th now scans) section folder
            d,
        any_covers-collect_section th now k m section folder d,
        any_covers_absent th now scans section folder d,
        ap (λ i. has i scans) ((==_iff k section).0 hit),
      )
      | inr miss ↦ ground (
        arith,
        any_covers-append (collect_section th now k m) (collect_scans th now scans) section folder
            d,
        any_covers-collect_section th now k m section folder d,
        any_covers-collect_scans th now scans section folder d h.1,
      )
    ]

-- A folder that is queued, and when, is covered under the same condition.
pub pending_covered :
    (th now : ℕ) (s : Scheduler) (section folder : Str) (d : ℕ)
    → IsMap s.scans
    → pending s section folder ≡ some d
    → any_covers (collect_scans th now s.scans) section folder d
      ≡ ltb th (length (folders_of s section)) || leb d now
unfolding pending
pending_covered th now s section folder d h e = ground (
  arith,
  any_covers-collect_scans th now s.scans section folder d h,
  carries-lookup (folders_of s section) folder d e,
)
