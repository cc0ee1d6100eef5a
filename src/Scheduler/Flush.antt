-- ===== src/Scheduler/Flush.antt =====
-- Flush sends what is due, keeps what failed, and keeps what was queued again during a send.
use clusterplex.Prelude.{
  ℕ, ◌≡◌, refl, ◌∙◌, Bool, true, false, ◌&&◌, ◌||◌, none, some, List, [], ◌∷◌, arith, if◌then◌else◌,
  Str, str_eq, nat_eq, length, ltb, leb, positive_or, Bool-cases, inl, inr,
}
use clusterplex.Dict.{Dict, IsMap}
use clusterplex.Scheduler.{
  Config, Scheduler, Scan, Reply, folders_of, ready, collect_scans, enqueue_all, settle_scan,
  send_scans, send_refreshes, settle_refresh, send_ids, settle_id, fail_id, flush,
  default_threshold, clear,
}
use clusterplex.Scheduler.Pending.{pending, unless, pending-settle_scan}
use clusterplex.Scheduler.Collect.{any_covers, pending_covered}

-- No call comes while the sends run.
abbrev pub Quiet {ℓ} : {A : Type ℓ} → (A → Reply) → Type ℓ
Quiet reply = (a : _) → (reply a).meanwhile ≡ []

scans_of_refresh :
    (c : Config) (reply : Str → Reply) (s : Scheduler) (m : Dict Str ℕ)
    → Quiet reply
    → (send_refreshes c reply s m).scans ≡ s.scans
unfolding send_refreshes settle_refresh enqueue_all
scans_of_refresh c reply s [] q = refl
scans_of_refresh c reply s ((guid, due) ∷ m) q = ground (
  arith,
  q guid,
  scans_of_refresh c reply s m q,
  scans_of_refresh c reply (record s { refreshes = clear guid due s.refreshes }) m q,
)

pub scans-fail_id : (id : ℕ) (s : Scheduler) → (fail_id id s).scans ≡ s.scans
unfolding fail_id
scans-fail_id id s = ground arith

scans_of_ids :
    (c : Config) (reply : ℕ → Reply) (s : Scheduler) (m : Dict ℕ ℕ)
    → Quiet reply
    → (send_ids c reply s m).scans ≡ s.scans
unfolding send_ids settle_id enqueue_all
scans_of_ids c reply s [] q = refl
scans_of_ids c reply s ((id, due) ∷ m) q = elim (Bool-cases (reply id).ok) [
  | inl sent ↦
      ground (arith, q id, sent, scans_of_ids c reply (unfold settle_id in settle_id id due s) m q)
  | inr failed ↦
      ground (arith, q id, failed, scans-fail_id id s, scans_of_ids c reply (fail_id id s) m q)
]

-- What a quiet loop over the scans clears, if all the sends answer alike.
pending-send_scans :
    (c : Config) (reply : Scan → Reply) (b : Bool) (s : Scheduler) (scs : List Scan)
    (section folder : Str)
    → Quiet reply
    → ((sc : Scan) → (reply sc).ok ≡ b)
    → pending (send_scans c reply s scs) section folder
      ≡ unless (λ d. b && any_covers scs section folder d) (pending s section folder)
unfolding send_scans enqueue_all
pending-send_scans c reply b s [] section folder q o = ground arith
pending-send_scans c reply true s (sc ∷ scs) section folder q o = ground (
  arith,
  q sc,
  o sc,
  pending-send_scans c reply true (settle_scan sc s) scs section folder q o,
  pending-settle_scan sc s section folder,
)
pending-send_scans c reply false s (sc ∷ scs) section folder q o =
    ground (arith, q sc, o sc, pending-send_scans c reply false s scs section folder q o)

scans_of_flush :
    (c : Config) (now : ℕ) (on_scan : Scan → Reply) (on_refresh : Str → Reply) (on_id : ℕ → Reply)
    (s : Scheduler)
    → Quiet on_refresh
    → Quiet on_id
    → (flush c now on_scan on_refresh on_id s).scans
      ≡ (send_scans c on_scan s
          (collect_scans (positive_or c.threshold default_threshold) now s.scans)).scans
unfolding flush
scans_of_flush c now on_scan on_refresh on_id s q r =
    let scs = collect_scans (positive_or c.threshold default_threshold) now s.scans in
    let sent = send_scans c on_scan s scs in
    let refreshed = send_refreshes c on_refresh sent (ready now s.refreshes) in
    ground (
      arith,
      scans_of_ids c on_id refreshed (ready now s.by_id) r,
      scans_of_refresh c on_refresh sent (ready now s.refreshes) q,
    )

pub pending_scans :
    (s u : Scheduler) (section folder : Str)
    → u.scans ≡ s.scans
    → pending u section folder ≡ pending s section folder
unfolding pending
pending_scans s u section folder e = rw e

-- A quiet Flush whose scans all answer alike: if they succeed, a queued folder is cleared exactly
-- if it is due or its section has more than threshold folders; if they fail, nothing is cleared.
pub pending-flush :
    (c : Config) (now : ℕ) (on_scan : Scan → Reply) (on_refresh : Str → Reply) (on_id : ℕ → Reply)
    (b : Bool) (s : Scheduler) (section folder : Str) (d : ℕ)
    → IsMap s.scans
    → Quiet on_scan
    → Quiet on_refresh
    → Quiet on_id
    → ((sc : Scan) → (on_scan sc).ok ≡ b)
    → pending s section folder ≡ some d
    → pending (flush c now on_scan on_refresh on_id s) section folder ≡ (
        if b
          && (ltb (positive_or c.threshold default_threshold) (length (folders_of s section))
              || leb d now)
        then none
        else some d)
pending-flush c now on_scan on_refresh on_id b s section folder d m qs qr qi o e =
    let th = positive_or c.threshold default_threshold in
    let scs = collect_scans th now s.scans in
    pending_scans (send_scans c on_scan s scs) (flush c now on_scan on_refresh on_id s) section
      folder (scans_of_flush c now on_scan on_refresh on_id s qr qi)
    ∙ ground (
      arith,
      e,
      pending-send_scans c on_scan b s scs section folder qs o,
      pending_covered th now s section folder d m e,
    )
