-- ===== src/Scheduler.antt =====
-- pkg/clustarrwatch/scheduler.go: scans and refreshes that are sent once their target has been
-- quiet. Times are nanoseconds. Flush collects what is due under the lock, and sends without it,
-- so calls of the enqueue methods may come during a send: `Reply` has those calls, in order, and
-- whether the send succeeded. The nil maps of a new scheduler are empty ones.
pub mod Pending
pub mod Collect
pub mod Flush
pub mod Requeue
pub mod Attempts
pub mod Tests
use clusterplex.Prelude.{
  ℕ, zero, suc, ◌+◌, ◌*◌, Bool, true, false, Option, none, some, List, [], ◌∷◌, ◌++◌, map,
  if◌then◌else◌, ◌==◌, length, ltb, leb, ℤ, positive_or, Str, str_eq, nat_eq, is_empty, keep_if, Eq,
}
use clusterplex.Dict.{Dict, lookup, insert, delete}

abbrev pub default_scan_delay : ℕ
default_scan_delay = 30_000_000_000

abbrev pub default_refresh_delay : ℕ
default_refresh_delay = 60_000_000_000

abbrev pub default_threshold : ℕ
default_threshold = 50

abbrev pub max_refresh_attempts : ℕ
max_refresh_attempts = 5

-- The fields that do not change.
pub record Config : Type 0 where
  pub scan_delay : ℤ
  pub refresh_delay : ℤ
  pub threshold : ℤ
  -- RefreshID is set.
  pub by_id_sent : Bool

pub record Scheduler : Type 0 where
  pub scans : Dict Str (Dict Str ℕ)
  pub refreshes : Dict Str ℕ
  pub by_id : Dict ℕ ℕ
  pub id_fails : Dict ℕ ℕ

abbrev pub or_nothing {ℓ} : {A : Type ℓ} → Option (List A) → List A
or_nothing none = []
or_nothing (some m) = m

-- s.scans[section]
abbrev pub folders_of : Scheduler → Str → Dict Str ℕ
folders_of s section = or_nothing (lookup section s.scans)

-- func (s *Scheduler) EnqueueScan
pub enqueue_scan : Config → ℕ → Str → Str → Scheduler → Scheduler
enqueue_scan c now section folder s = record s {
  scans =
      insert section
        (insert folder (now + positive_or c.scan_delay default_scan_delay) (folders_of s section))
        s.scans;
}

-- func (s *Scheduler) EnqueueRefresh
pub enqueue_refresh : Config → ℕ → Str → Scheduler → Scheduler
enqueue_refresh c now guid s = record s {
  refreshes = insert guid (now + positive_or c.refresh_delay default_refresh_delay) s.refreshes;
}

-- func (s *Scheduler) EnqueueRefreshID
pub enqueue_refresh_id : Config → ℕ → ℕ → Scheduler → Scheduler
enqueue_refresh_id c now id s = record s {
  by_id = insert id (now + positive_or c.refresh_delay default_refresh_delay) s.by_id;
}

-- A call of an enqueue method, with the clock's reading.
pub data Call : Type 0 where
  scan_call : ℕ → Str → Str → Call
  refresh_call : ℕ → Str → Call
  refresh_id_call : ℕ → ℕ → Call

pub enqueue : Config → Scheduler → Call → Scheduler
enqueue c s (scan_call now section folder) = enqueue_scan c now section folder s
enqueue c s (refresh_call now guid) = enqueue_refresh c now guid s
enqueue c s (refresh_id_call now id) = enqueue_refresh_id c now id s

pub enqueue_all : Config → Scheduler → List Call → Scheduler
enqueue_all c s [] = s
enqueue_all c s (e ∷ es) = enqueue_all c (enqueue c s e) es

-- A send as collected: its folders with their due times.
pub record Scan : Type 0 where
  pub section : Str
  pub folder : Str
  pub due : Dict Str ℕ

pub record Reply : Type 0 where
  pub meanwhile : List Call
  pub ok : Bool

-- The entries that are due.
abbrev pub ready {ℓ} : {K : Type ℓ} → ℕ → Dict K ℕ → Dict K ℕ
ready now m = keep_if (λ kd. leb kd.1 now) m

-- The scans of one section.
unfoldable pub collect_section : ℕ → ℕ → Str → Dict Str ℕ → List Scan
collect_section threshold now section folders =
    if ltb threshold (length folders)
    then record { section = section; folder = []; due = folders } ∷ []
    else map (λ fd. record { section = section; folder = fd.0; due = fd ∷ [] }) (ready now folders)

unfoldable pub collect_scans : ℕ → ℕ → Dict Str (Dict Str ℕ) → List Scan
collect_scans threshold now [] = []
collect_scans threshold now ((section, folders) ∷ m) =
    collect_section threshold now section folders ++ collect_scans threshold now m

-- Deletes an entry that still carries the due time it was collected with.
pub clear {ℓ} : {K : Type ℓ} ⦃e : Eq K⦄ → K → ℕ → Dict K ℕ → Dict K ℕ
clear k due m = elim (lookup k m) [ none ↦ m | some cur ↦ if cur == due then delete k m else m ]

pub clear_all : Dict Str ℕ → Dict Str ℕ → Dict Str ℕ
clear_all [] m = m
clear_all ((folder, due) ∷ rest) m = clear_all rest (clear folder due m)

-- After a scan that succeeded.
pub settle_scan : Scan → Scheduler → Scheduler
settle_scan sc s =
    let folders = clear_all sc.due (folders_of s sc.section) in
    record s {
      scans =
          if is_empty folders then delete sc.section s.scans else insert sc.section folders s.scans;
    }

-- The loop over the scans.
pub send_scans : Config → (Scan → Reply) → Scheduler → List Scan → Scheduler
send_scans c reply s [] = s
send_scans c reply s (sc ∷ scs) =
    let later = enqueue_all c s (reply sc).meanwhile in
    send_scans c reply (if (reply sc).ok then settle_scan sc later else later) scs

pub settle_refresh : Str → ℕ → Scheduler → Scheduler
settle_refresh guid due s = record s { refreshes = clear guid due s.refreshes }

-- The loop over the refreshes.
pub send_refreshes : Config → (Str → Reply) → Scheduler → Dict Str ℕ → Scheduler
send_refreshes c reply s [] = s
send_refreshes c reply s ((guid, due) ∷ rest) =
    let later = enqueue_all c s (reply guid).meanwhile in
    send_refreshes c reply (if (reply guid).ok then settle_refresh guid due later else later) rest

abbrev pub or_zero : Option ℕ → ℕ
or_zero none = 0
or_zero (some n) = n

-- After a refresh by id that failed.
pub fail_id : ℕ → Scheduler → Scheduler
fail_id id s =
    let fails = or_zero (lookup id s.id_fails) + 1 in
    if leb max_refresh_attempts fails
    then record s { by_id = delete id s.by_id; id_fails = delete id s.id_fails }
    else record s { id_fails = insert id fails s.id_fails }

-- After a refresh by id that succeeded.
pub settle_id : ℕ → ℕ → Scheduler → Scheduler
settle_id id due s = record s { by_id = clear id due s.by_id; id_fails = delete id s.id_fails }

-- The loop over the refreshes by id.
pub send_ids : Config → (ℕ → Reply) → Scheduler → Dict ℕ ℕ → Scheduler
send_ids c reply s [] = s
send_ids c reply s ((id, due) ∷ rest) =
    let later = enqueue_all c s (reply id).meanwhile in
    send_ids c reply (if (reply id).ok then settle_id id due later else fail_id id later) rest

-- func (s *Scheduler) Flush
pub flush : Config → ℕ → (Scan → Reply) → (Str → Reply) → (ℕ → Reply) → Scheduler → Scheduler
flush c now on_scan on_refresh on_id s =
    let scans = collect_scans (positive_or c.threshold default_threshold) now s.scans in
    let refreshes = ready now s.refreshes in
    let ids = ready now s.by_id in
    let s' = send_refreshes c on_refresh (send_scans c on_scan s scans) refreshes in
    if c.by_id_sent then send_ids c on_id s' ids else s'
