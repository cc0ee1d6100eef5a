-- ===== src/Lease/System.antt =====
-- Any number of pods on one Lease, on a common clock. A call reads the Lease and writes it, and
-- between the two the others may do anything. A step `write` or `make` is a call's write that the
-- server accepts, at a reading of the clock that is not in the future.
use clusterplex.Prelude.{ℕ, ◌+◌, ◌≤◌, ◌≡◌, ◌≢◌, some, [], if◌then◌else◌, ◌==◌, Str, str_eq}
use clusterplex.Lease.Client.{Client, identity, writes, creates}
use clusterplex.Lease.{Lease, Server, lease_end, holder_of}

abbrev pub with_version : ℕ → Lease → Lease
with_version v l = record l { version = v }

pub data Task : Type 0 where
  idle : Task
  missed : Task
  read : Lease → Task

abbrev pub set_at {ℓ} : {A : Type ℓ} → Str → A → (Str → A) → Str → A
set_at p a f q = if p == q then a else f q

-- The end of the term that a Lease gives a pod.
abbrev pub term : Str → Lease → ℕ
term p l = if holder_of l == p then lease_end l else 0

module _ (sv : Server) where
  -- until is the end of the term that a pod last wrote for itself.
  pub record System : Type 0 where
    pub store : sv.State
    pub clock : ℕ
    pub task : Str → Task
    pub until : Str → ℕ

  pub data Step : System → System → Type 0 where
    tick : (s : System) (n : ℕ) → Step s (record s { clock = s.clock + n })
    look :
        (s : System) (p : Str) (x : Lease)
        → sv.get s.store ≡ some x
        → Step s (record s { task = set_at p (read x) s.task })
    look_missing : (s : System) (p : Str) → Step s (record s { task = set_at p missed s.task })
    leave : (s : System) (p : Str) → Step s (record s { task = set_at p idle s.task })
    write :
        (s : System) (c : Client) (now : ℕ) (x x' : Lease) (st : sv.State)
        → identity c ≢ []
        → now ≤ s.clock
        → s.task (identity c) ≡ read x
        → writes c now x ≡ some x'
        → sv.update s.store x' ≡ some st
        → Step s (record s {
          store = st;
          task = set_at (identity c) idle s.task;
          until = set_at (identity c) (term (identity c) x') s.until;
        })
    make :
        (s : System) (c : Client) (now : ℕ) (x' : Lease) (st : sv.State)
        → identity c ≢ []
        → now ≤ s.clock
        → s.task (identity c) ≡ missed
        → creates c now ≡ some x'
        → sv.create s.store x' ≡ some st
        → Step s (record s {
          store = st;
          task = set_at (identity c) idle s.task;
          until = set_at (identity c) (term (identity c) x') s.until;
        })

  pub data Reach (s : System) : System → Type 0 where
    here : Reach s s
    next : {t u : System} → Reach s t → Step t u → Reach s u

  -- Nobody has begun: no pod is at work, and no term is running.
  pub record Initial (s : System) : Type 0 where
    pub quiet : (p : Str) → s.task p ≡ idle
    pub over : (p : Str) → s.until p ≤ s.clock
