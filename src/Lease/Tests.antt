-- ===== src/Lease/Tests.antt =====
-- An API server and an encoding of the targets, and the calls on them.
use clusterplex.Prelude.{
  true, ℕ, ◌+◌, ◌≤◌, ◌<◌, ◌≡◌, ◌≢◌, refl, ap, ◌∙◌, false, Option, none, some, [], ◌∷◌, ◌++◌, arith,
  if◌then◌else◌, ◌==◌, nat_eq, Str, str, str_eq, str_beq, length, take, drop, Bool-cases, ==_iff,
  inl, inr, ltb→lt,
}
use clusterplex.Lease.{Lease, Server, holder_of, lease_end}
use clusterplex.Lease.Elector.{Elector, seconds, new_lease, acquire_plan, renew_plan, held_by}
use clusterplex.Lease.Retry.{Accepts, SettledBy, update-SettledBy}
use clusterplex.Lease.Route.{
  publish_change, update, Target, Codec, IsAscii, Faults, expired, evaluate,
}
use clusterplex.Lease.Client.{acquires, renews, identity, writes, creates, Good}
use clusterplex.Lease.Lawful.{client-Good}
use clusterplex.Lease.System.{
  System, idle, missed, look_missing, make, Reach, here, next, Initial, set_at, term,
}
use clusterplex.Lease.Exclusion.{exclusion}
use clusterplex.Lease.Availability.{published, cleared, evaluate-published, evaluate-cleared}

abbrev create_in : Option Lease → Lease → Option (Option Lease)
create_in none l = some (some (record l { version = 1 }))
create_in (some x) l = none

abbrev update_in : Option Lease → Lease → Option (Option Lease)
update_in none l = none
update_in (some x) l =
    if x.version == l.version then some (some (record l { version = l.version + 1 })) else none

update_in_lem :
    (s : Option Lease) (l : Lease) (s' : Option Lease)
    → update_in s l ≡ some s'
    → (x : Lease) × (s ≡ some x)
      × (x.version ≡ l.version)
      × ((v : ℕ) × (l.version < v) × (s' ≡ some (record l { version = v })))
update_in_lem none l s' h = absurd (ground arith)
update_in_lem (some x) l s' h = elim (Bool-cases (x.version == l.version)) [
  | inl e ↦ (x, refl, (==_iff x.version l.version).0 e, (l.version + 1, omega arith, ground arith))
  | inr e ↦ absurd (ground arith)
]

create_in_lem :
    (s : Option Lease) (l : Lease) (s' : Option Lease)
    → create_in s l ≡ some s'
    → (s ≡ none) × ((v : ℕ) × (s' ≡ some (record l { version = v })))
create_in_lem none l s' h = (refl, (1, ground arith))
create_in_lem (some x) l s' h = absurd (ground arith)

abbrev server : Server
server = record {
  State = Option Lease;
  get = λ s. s;
  create = create_in;
  update = update_in;
  create_law = create_in_lem;
  update_law = update_in_lem;
}

-- The targets as numbers: each field but the last after its length.
abbrev encode : Target → Str
encode t = length t.pod ∷ (t.pod ++ (length t.address ∷ (t.address ++ t.manager)))

abbrev decode_rest : Str → Str → Option Target
decode_rest p [] = none
decode_rest p (n ∷ xs) = some (record { pod = p; address = take n xs; manager = drop n xs })

abbrev decode : Str → Option Target
decode [] = none
decode (n ∷ xs) = decode_rest (take n xs) (drop n xs)

take-append : (a b : Str) → take (length a) (a ++ b) ≡ a
take-append [] b = refl
take-append (x ∷ a) b = ap (λ r. x ∷ r) (take-append a b)

drop-append : (a b : Str) → drop (length a) (a ++ b) ≡ b
drop-append [] b = refl
drop-append (x ∷ a) b = drop-append a b

decode-encode : (t : Target) → decode (encode t) ≡ some t
decode-encode t = both t.pod t.address t.manager
  where
    rest :
        (p a m : Str)
        → decode_rest p (length a ∷ (a ++ m)) ≡ some (record { pod = p; address = a; manager = m })
    rest p a m = rw (take-append a m, drop-append a m) refl

    both :
        (p a m : Str)
        → decode (length p ∷ (p ++ (length a ∷ (a ++ m))))
          ≡ some (record { pod = p; address = a; manager = m })
    both p a m =
        ap (λ x. decode_rest x (drop (length p) (p ++ (length a ∷ (a ++ m)))))
          (take-append p (length a ∷ (a ++ m)))
        ∙ ap (decode_rest p) (drop-append p (length a ∷ (a ++ m)))
        ∙ rest p a m

abbrev codec : Codec
codec = record {
  marshal = encode;
  unmarshal = decode;
  round_trip = λ t a. decode-encode t;
  marshal_full = λ t. refl;
}

abbrev pod_a : Str
pod_a = str "pod-a"

abbrev elector : Elector
elector = record { identity = pod_a; duration = 0 }

abbrev start : System server
start = record { store = none; clock = 100_000_000; task = λ p. idle; until = λ p. 0 }

start-Initial : Initial server start
start-Initial = record { quiet = λ p. refl; over = λ p. omega arith }

abbrev made : Lease
made = new_lease elector 100_000_000

abbrev looked : System server
looked = record start { task = set_at pod_a missed start.task }

abbrev leading : System server
leading = record {
  store = some (record made { version = 1 });
  clock = 100_000_000;
  task = set_at pod_a idle looked.task;
  until = set_at pod_a (term pod_a made) start.until;
}

named : identity (acquires elector) ≢ []
unfolding identity
named e = absurd (never e)
  where
    never : {x : ℕ} {xs : Str} → x ∷ xs ≡ [] → ⊥
    never e = ground arith

to_leading : Reach server start leading
unfolding creates acquire_plan str_beq identity
to_leading = next (next here (look_missing start pod_a)) (
    make looked (acquires elector) 100_000_000 made (some (record made { version = 1 })) named
      (omega arith) refl refl refl)

running : leading.clock < leading.until pod_a
unfolding seconds str_beq
running = ltb→lt leading.clock (leading.until pod_a) refl

exclusion_example :
    (pod_a ≡ pod_a)
    × ((x : Lease) × (server.get leading.store ≡ some x)
        × (holder_of x ≡ pod_a)
        × (leading.until pod_a ≤ lease_end x))
exclusion_example = exclusion server pod_a pod_a start-Initial to_leading running running

renewal :
    writes (renews elector) 105_000_000 made ≡ some (record made { renewed = some 105_000_000 })
unfolding writes renew_plan held_by str_beq
renewal = refl

client-Good_example : Good pod_a 105_000_000 made (record made { renewed = some 105_000_000 })
unfolding seconds identity
client-Good_example =
    client-Good (renews elector) 105_000_000 made (record made { renewed = some 105_000_000 })
      renewal

abbrev target : Target
target = record { pod = pod_a; address = str "10.0.0.1:32400"; manager = str "10.0.0.1:9000" }

live : expired made 105_000_000 ≡ false
unfolding expired seconds
live = refl

target_IsAscii : IsAscii target
target_IsAscii = record { pod = omega arith; address = omega arith; manager = omega arith }

evaluate-published_example : evaluate codec 105_000_000 (published codec target made) ≡ some target
evaluate-published_example =
    evaluate-published codec 105_000_000 target made target_IsAscii refl refl refl live

evaluate-cleared_example :
    evaluate codec 105_000_000 (cleared codec pod_a (published codec target made))
    ≡ elim (evaluate codec 105_000_000 (published codec target made)) [
      | none ↦ none
      | some t ↦ if t.pod == pod_a then none else some t
    ]
evaluate-cleared_example = evaluate-cleared codec 105_000_000 pod_a (published codec target made)

takes : Accepts server
takes none l x g v = absurd (ground arith)
takes (some y) l x g v = (some (record l { version = l.version + 1 }), taken)
  where
    same : y ≡ x
    same = cc

    current : (y.version == l.version) ≡ true
    current = (==_iff y.version l.version).1 (ap (λ z. z.version) same ∙ v)

    taken : update_in (some y) l ≡ some (some (record l { version = l.version + 1 }))
    taken = rw current refl

-- Get and Update never fail; another pod takes the Lease to the next version in the first attempt.
abbrev sound : Faults
sound = record { get_ok = λ i. true; update_ok = λ i. true }

abbrev bumped : Option Lease → Option Lease
bumped none = none
bumped (some l) = some (record l { version = l.version + 1 })

abbrev renewed_once : ℕ → Option Lease → Option Lease
renewed_once i s = if i == 0 then bumped s else s

update-SettledBy_example :
    SettledBy server
      (publish_change codec target)
      renewed_once
      sound
      (update server (publish_change codec target) renewed_once sound 5 0 (some made))
      1
      0
      (some made)
update-SettledBy_example =
    update-SettledBy server (publish_change codec target) renewed_once sound 1 5 0 (some made) takes
      (omega arith) (λ t. refl)
