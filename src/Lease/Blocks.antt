-- ===== src/Lease/Blocks.antt =====
-- pkg/plex/livetv/leases.go: one Lease per Live TV block, held by a PMS machine identifier.
use clusterplex.Prelude.{
  ℕ, ◌+◌, ◌*◌, ◌/◌, Bool, true, false, not, ◌&&◌, Option, none, some, [], ◌∷◌, if◌then◌else◌, ◌==◌,
  leb, Str, str, is_empty, str_eq, nat_eq, ℤ, positive_or,
}
use clusterplex.Dict.{Dict, insert, delete}
use clusterplex.Lease.{Lease, Server, Reply, found, not_found, failed, second, holder_of}

abbrev pub default_lease_duration : ℕ
default_lease_duration = 600 * second

abbrev pub annotation_saved : Str
annotation_saved = str "livetv.clusterplex.io/saved"

-- The package's Lease: what Acquire answers.
pub record Held : Type 0 where
  pub held : Bool
  pub holder : Str
  pub annotations : Dict Str Str

pub data Result : Type 0 where
  answer : Held → Result
  get_error : Result
  create_error : Result
  update_error : Result
  not_held : Result

pub data Plan : Type 0 where
  stop : Result → Plan
  create : Lease → Result → Plan
  update : Lease → Result → Plan

abbrev pub lapsed : Option ℕ → Option ℕ → ℕ → Bool
lapsed none s now = true
lapsed (some r) none now = true
lapsed (some r) (some s) now = leb (r + s * second) now

-- func expired(lease *coordinationv1.Lease, now time.Time) bool
unfoldable pub expired : Lease → ℕ → Bool
expired l now = lapsed l.renewed l.seconds now

-- maps.Copy
unfoldable pub copy_into : Dict Str Str → Dict Str Str → Dict Str Str
copy_into m [] = m
copy_into m ((k, v) ∷ more) = copy_into (insert k v m) more

abbrev pub or_zero : Option ℕ → ℕ
or_zero none = 0
or_zero (some n) = n

-- The fields of a takeover: the old holder's note goes, and the change is counted.
abbrev pub hand_over : ℕ → Lease → Lease
hand_over t l = record l {
  annotations = delete annotation_saved l.annotations;
  acquired = some t;
  transitions = some (or_zero l.transitions + 1);
}

abbrev pub renewal : Str → ℕ → ℕ → Dict Str Str → Lease → Lease
renewal identity t secs labels l = record l {
  holder = some identity;
  renewed = some t;
  seconds = some secs;
  labels = copy_into l.labels labels;
}

-- What Acquire does with a Lease that it finds.
unfoldable pub acquire_found : Str → ℕ → ℕ → Dict Str Str → Lease → Plan
acquire_found identity t secs labels l =
    if not (is_empty (holder_of l)) && not (holder_of l == identity) && not (expired l t)
    then stop (answer (record { held = false; holder = holder_of l; annotations = [] }))
    else let l' = if holder_of l == identity then l else hand_over t l in
      update (renewal identity t secs labels l')
        (answer (record { held = true; holder = identity; annotations = l'.annotations }))

-- func (l *Leases) Acquire: a write that is accepted has the result beside it.
unfoldable pub acquire_plan : ℤ → ℕ → Str → Dict Str Str → Reply → Plan
acquire_plan duration t identity labels not_found =
    create
      (record {
        version = 0;
        annotations = [];
        labels = labels;
        holder = some identity;
        seconds = some (positive_or duration default_lease_duration / second);
        acquired = some t;
        renewed = some t;
        transitions = none;
      })
      (answer (record { held = true; holder = identity; annotations = [] }))
acquire_plan duration t identity labels failed = stop get_error
acquire_plan duration t identity labels (found l) =
    acquire_found identity t (positive_or duration default_lease_duration / second) labels l

-- HolderIdentity is set, and is identity.
abbrev pub is_holder : Option Str → Str → Bool
is_holder none identity = false
is_holder (some h) identity = h == identity

-- func (l *Leases) Annotate
unfoldable pub annotate_plan : Str → Dict Str Str → Reply → Plan
annotate_plan identity annotations not_found = stop get_error
annotate_plan identity annotations failed = stop get_error
annotate_plan identity annotations (found l) =
    if is_holder l.holder identity
    then update (record l { annotations = copy_into l.annotations annotations })
        (answer (record { held = true; holder = identity; annotations = [] }))
    else stop not_held

module _ (sv : Server) where
  -- The write of a plan, at the state in which it reaches the server.
  unfoldable pub perform : Plan → sv.State → sv.State × Result
  perform (stop r) s = (s, r)
  perform (create l r) s = elim (sv.create s l) [ none ↦ (s, create_error) | some s' ↦ (s', r) ]
  perform (update l r) s = elim (sv.update s l) [ none ↦ (s, update_error) | some s' ↦ (s', r) ]
