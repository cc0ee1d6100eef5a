-- ===== src/Scheduler/Requeue.antt =====
-- A folder that is queued again during a send stays queued.
use clusterplex.Prelude.{
  subst, ℕ, ◌+◌, ◌≡◌, refl, sym, ◌∙◌, Bool, true, false, ◌&&◌, some, List, [], ◌∷◌, ◌++◌, arith,
  if◌then◌else◌, ◌==◌, ==_iff, ==_refl, Str, str_eq, nat_eq, positive_or, Bool-cases, inl, inr, All,
}
use clusterplex.Scheduler.{
  Config, Scheduler, Scan, Reply, Call, scan_call, refresh_call, refresh_id_call, enqueue,
  enqueue_all, enqueue_scan, enqueue_refresh, enqueue_refresh_id, settle_scan, send_scans,
  default_scan_delay,
}
use clusterplex.Scheduler.Pending.{pending, pending-settle_scan, pending-enqueue_scan}
use clusterplex.Scheduler.Collect.{any_covers}
use clusterplex.Scheduler.Flush.{pending_scans}

-- A folder stays queued, for a time that no send of a Flush carries.
abbrev pub Safe : List Scan → Scheduler → Str → Str → Type 0
Safe scs s section folder =
    (d : ℕ) × (pending s section folder ≡ some d) × (any_covers scs section folder d ≡ false)

-- A call queues no folder for a time that a send carries.
abbrev pub IsFresh : Config → List Scan → Call → Type 0
IsFresh c scs (scan_call t section folder) =
    any_covers scs section folder (t + positive_or c.scan_delay default_scan_delay) ≡ false
IsFresh c scs (refresh_call t guid) = Unit
IsFresh c scs (refresh_id_call t id) = Unit

enqueue-Safe :
    (c : Config) (scs : List Scan) (s : Scheduler) (call : Call) (section folder : Str)
    → IsFresh c scs call
    → Safe scs s section folder
    → Safe scs (enqueue c s call) section folder
unfolding enqueue
enqueue-Safe c scs s (refresh_call t guid) section folder f h = (
  h.0,
  pending_scans s (enqueue_refresh c t guid s) section folder (unfold enqueue_refresh in refl)
      ∙ h.1,
  h.2,
)
enqueue-Safe c scs s (refresh_id_call t id) section folder f h = (
  h.0,
  pending_scans s (enqueue_refresh_id c t id s) section folder (unfold enqueue_refresh_id in refl)
      ∙ h.1,
  h.2,
)
enqueue-Safe c scs s (scan_call t k j) section folder f h =
    elim (Bool-cases (k == section && j == folder)) [
      | inl hit ↦ (
        t + positive_or c.scan_delay default_scan_delay,
        pending-enqueue_scan c t k j section folder s ∙ rw hit,
        ground (arith, (==_iff k section).0, (==_iff j folder).0),
      )
      | inr miss ↦ (h.0, pending-enqueue_scan c t k j section folder s ∙ rw miss h.1, h.2)
    ]

enqueue_all-Safe :
    (c : Config) (scs : List Scan) (s : Scheduler) (calls : List Call) (section folder : Str)
    → All (IsFresh c scs) calls
    → Safe scs s section folder
    → Safe scs (enqueue_all c s calls) section folder
unfolding enqueue_all
enqueue_all-Safe c scs s [] section folder f h = h
enqueue_all-Safe c scs s (e ∷ es) section folder f h =
    enqueue_all-Safe c scs (enqueue c s e) es section folder f.1
      (enqueue-Safe c scs s e section folder f.0 h)

-- Queueing a folder again makes it safe, whatever it was.
requeue-Safe :
    (c : Config) (scs : List Scan) (s : Scheduler) (before after : List Call) (t : ℕ)
    (section folder : Str)
    → All (IsFresh c scs) (before ++ scan_call t section folder ∷ after)
    → Safe scs (enqueue_all c s (before ++ scan_call t section folder ∷ after)) section folder
unfolding enqueue_all enqueue
requeue-Safe c scs s [] after t section folder f =
    enqueue_all-Safe c scs (enqueue_scan c t section folder s) after section folder f.1 (
      t + positive_or c.scan_delay default_scan_delay,
      pending-enqueue_scan c t section folder section folder s
          ∙ rw (==_refl section, ==_refl folder),
      f.0,
    )
requeue-Safe c scs s (e ∷ before) after t section folder f =
    requeue-Safe c scs (enqueue c s e) before after t section folder f.1

settle_scan-Safe :
    (sc : Scan) (scs : List Scan) (s : Scheduler) (section folder : Str)
    → Safe (sc ∷ scs) s section folder
    → Safe (sc ∷ scs) (settle_scan sc s) section folder
settle_scan-Safe sc scs s section folder h =
    (h.0, ground (arith, h.1, h.2, pending-settle_scan sc s section folder), h.2)

fewer-Safe :
    (sc : Scan) (scs : List Scan) (s : Scheduler) (section folder : Str)
    → Safe (sc ∷ scs) s section folder
    → Safe scs s section folder
fewer-Safe sc scs s section folder h = (h.0, h.1, ground (arith, h.2))

fewer-IsFresh :
    (c : Config) (sc : Scan) (scs : List Scan) (call : Call)
    → IsFresh c (sc ∷ scs) call
    → IsFresh c scs call
fewer-IsFresh c sc scs (scan_call t section folder) f = ground arith
fewer-IsFresh c sc scs (refresh_call t guid) f = tt
fewer-IsFresh c sc scs (refresh_id_call t id) f = tt

fewer-All :
    (c : Config) (sc : Scan) (scs : List Scan) (calls : List Call)
    → All (IsFresh c (sc ∷ scs)) calls
    → All (IsFresh c scs) calls
fewer-All c sc scs [] f = tt
fewer-All c sc scs (e ∷ es) f = (fewer-IsFresh c sc scs e f.0, fewer-All c sc scs es f.1)

if-Safe :
    (b : Bool) (scs : List Scan) (s u : Scheduler) (section folder : Str)
    → Safe scs s section folder
    → Safe scs u section folder
    → Safe scs (if b then s else u) section folder
if-Safe true scs s u section folder h k = h
if-Safe false scs s u section folder h k = k

send_scans-Safe :
    (c : Config) (reply : Scan → Reply) (s : Scheduler) (scs : List Scan) (section folder : Str)
    → ((sc : Scan) → All (IsFresh c scs) (reply sc).meanwhile)
    → Safe scs s section folder
    → Safe [] (send_scans c reply s scs) section folder
unfolding send_scans
send_scans-Safe c reply s [] section folder f h = h
send_scans-Safe c reply s (sc ∷ scs) section folder f h =
    let later = enqueue_all c s (reply sc).meanwhile in
    let kept = enqueue_all-Safe c (sc ∷ scs) s (reply sc).meanwhile section folder (f sc) h in
    send_scans-Safe c reply (if (reply sc).ok then settle_scan sc later else later) scs section
      folder (λ x. fewer-All c sc scs (reply x).meanwhile (f x))
      (if-Safe (reply sc).ok scs (settle_scan sc later) later section folder
        (fewer-Safe sc scs (settle_scan sc later) section folder
          (settle_scan-Safe sc scs later section folder kept))
        (fewer-Safe sc scs later section folder kept))

-- If a folder is queued again during a send, for times that the sends collected do not carry, then
-- after that send and the rest of the loop, whether they succeed or fail, the folder is queued.
pub send_scans_requeued :
    (c : Config) (reply : Scan → Reply) (s : Scheduler) (sc : Scan) (scs : List Scan)
    (before after : List Call) (t : ℕ) (section folder : Str)
    → ((x : Scan) → All (IsFresh c (sc ∷ scs)) (reply x).meanwhile)
    → (reply sc).meanwhile ≡ before ++ scan_call t section folder ∷ after
    → (d : ℕ) × (pending (send_scans c reply s (sc ∷ scs)) section folder ≡ some d)
unfolding send_scans
send_scans_requeued c reply s sc scs before after t section folder f e =
    let later = enqueue_all c s (reply sc).meanwhile in
    let fresh = subst (All (IsFresh c (sc ∷ scs))) e (f sc) in
    let kept =
      subst (λ calls. Safe (sc ∷ scs) (enqueue_all c s calls) section folder) (sym e)
        (requeue-Safe c (sc ∷ scs) s before after t section folder fresh) in
    let end =
      send_scans-Safe c reply (if (reply sc).ok then settle_scan sc later else later) scs section
        folder (λ x. fewer-All c sc scs (reply x).meanwhile (f x))
        (if-Safe (reply sc).ok scs (settle_scan sc later) later section folder
          (fewer-Safe sc scs (settle_scan sc later) section folder
            (settle_scan-Safe sc scs later section folder kept))
          (fewer-Safe sc scs later section folder kept)) in
    (end.0, end.1)
