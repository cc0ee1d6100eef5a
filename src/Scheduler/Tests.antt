-- ===== src/Scheduler/Tests.antt =====
-- One section with two folders, flushed.
use clusterplex.Prelude.{
  ℕ, ◌≡◌, refl, true, false, some, none, List, [], ◌∷◌, str, str_eq, str_beq, nat_eq, pos, length,
  ◌||◌, if◌then◌else◌, ltb, leb,
}
use clusterplex.Dict.{lookup, has, IsMap}
use clusterplex.Scheduler.{
  Config, Scheduler, Scan, Reply, Call, scan_call, refresh_id_call, folders_of, flush, send_scans,
}
use clusterplex.Scheduler.Pending.{pending, carries}
use clusterplex.Scheduler.Collect.{any_covers}
use clusterplex.Scheduler.Flush.{pending-flush}
use clusterplex.Scheduler.Requeue.{send_scans_requeued}

abbrev config : Config
config = record {
  scan_delay = pos 10;
  refresh_delay = pos 20;
  threshold = pos 2;
  by_id_sent = true;
}

abbrev queued : Scheduler
queued = record {
  scans = (str "tv", (str "a", 5) ∷ (str "b", 50) ∷ []) ∷ [];
  refreshes = [];
  by_id = (7, 3) ∷ [];
  id_fails = (7, 4) ∷ [];
}

abbrev sent {ℓ} : {A : Type ℓ} → A → Reply
sent a = record { meanwhile = []; ok = true }

pending_a : pending queued (str "tv") (str "a") ≡ some 5
unfolding pending lookup str_beq
pending_a = refl

queued-IsMap : IsMap queued.scans
unfolding has
queued-IsMap = (refl, tt)

pending-flush_example :
    pending (flush config 30 sent sent sent queued) (str "tv") (str "a")
    ≡ (if ltb 2 (length (folders_of queued (str "tv"))) || leb 5 30 then none else some 5)
pending-flush_example =
    pending-flush config 30 sent sent sent true queued (str "tv") (str "a") 5 queued-IsMap
      (λ x. refl) (λ x. refl) (λ x. refl) (λ x. refl) pending_a

abbrev scan_a : Scan
scan_a = record { section = str "tv"; folder = str "a"; due = (str "a", 5) ∷ [] }

abbrev requeues : Scan → Reply
requeues x = record { meanwhile = scan_call 30 (str "tv") (str "a") ∷ []; ok = true }

fresh : any_covers (scan_a ∷ []) (str "tv") (str "a") 40 ≡ false
unfolding carries str_beq
fresh = refl

send_scans_requeued_example :
    (d : ℕ) × (pending (send_scans config requeues queued (scan_a ∷ [])) (str "tv") (str "a")
      ≡ some d)
send_scans_requeued_example =
    send_scans_requeued config requeues queued scan_a [] [] [] 30 (str "tv") (str "a")
      (λ x. (fresh, tt)) refl

abbrev failing : List (ℕ × List Call)
failing =
    (3, [])
    ∷ (3, refresh_id_call 40 7 ∷ [])
    ∷ (60, [])
    ∷ (60, [])
    ∷ (60, refresh_id_call 90 7 ∷ [])
    ∷ []

abbrev unfailed : Scheduler
unfailed = record queued { id_fails = [] }
