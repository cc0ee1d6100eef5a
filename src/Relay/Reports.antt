-- ===== src/Relay/Reports.antt =====
-- What reaches Plex of the reports that are sent.
use mathlib.Core.List.{append_assoc, append-nil}
use clusterplex.Prelude.{
  ◌≡◌, refl, sym, ap, ◌∙◌, Bool, true, false, ◌&&◌, Option, none, some, List, [], ◌∷◌, ◌++◌, arith,
  Str, str_eq, Bool-cases, Option-cases, inl, inr, ◌⊎◌,
}
use clusterplex.Relay.{
  Report, Reporter, Answer, new_reporter, periodic, last, set_last, send, take_report, answered,
  held,
}

-- The calls on a reporter: a report sent, and the two halves of run's loop.
pub data Op : Type 0 where
  sends : Str → Str → Op
  takes : Op
  answers : Answer → Op
  asks_held : Op

-- A history: the reporter, the reports sent that are not periodic, and those that Plex was asked.
pub record History : Type 0 where
  pub reporter : Reporter
  pub sent : List (Str × Str)
  pub asked : List (Str × Str)

abbrev pub one_if : Bool → Str → Str → List (Str × Str)
one_if true path query = []
one_if false path query = (path, query) ∷ []

abbrev pub plain_of : Option Report → List (Str × Str)
plain_of none = []
plain_of (some r) = one_if (periodic r.path r.query) r.path r.query

unfoldable pub plain : List Report → List (Str × Str)
plain [] = []
plain (r ∷ rs) = plain_of (some r) ++ plain rs

unfoldable pub step : History → Op → History
step h (sends path query) = record h {
  reporter = (send h.reporter path query).reporter;
  sent = h.sent ++ one_if (periodic path query) path query;
}
step h takes =
    let t = take_report h.reporter in record h { reporter = t.0; asked = h.asked ++ plain_of t.1 }
step h (answers a) = record h { reporter = (answered h.reporter a).0 }
step h asks_held = record h { reporter = (held h.reporter).0 }

unfoldable pub run : History → List Op → History
run h [] = h
run h (o ∷ os) = run (step h o) os

abbrev pub begin : History
begin = record { reporter = new_reporter; sent = []; asked = [] }

plain-append :
    (xs : List Report) (r : Report) → plain (xs ++ r ∷ []) ≡ plain xs ++ plain_of (some r)
unfolding plain
plain-append [] r = append-nil (plain_of (some r))
plain-append (x ∷ xs) r =
    ap (λ rest. plain_of (some x) ++ rest) (plain-append xs r)
    ∙ sym (append_assoc (plain_of (some x)) (plain xs) (plain_of (some r)))

plain-set_last :
    (query : Str) (xs : List Report) (r : Report)
    → last xs ≡ some r
    → periodic r.path r.query ≡ true
    → periodic r.path query ≡ true
    → plain (set_last query xs) ≡ plain xs
unfolding plain set_last last
plain-set_last query [] r h old new = refl
plain-set_last query (x ∷ []) r h old new = same (some_same h)
  where
    some_same : some x ≡ some r → x ≡ r
    some_same e = cc

    same : x ≡ r → plain_of (some (record x { query = query })) ++ [] ≡ plain_of (some x) ++ []
    same e = rw (e, old, new) refl
plain-set_last query (x ∷ y ∷ xs) r h old new =
    ap (λ rest. plain_of (some x) ++ rest) (plain-set_last query (y ∷ xs) r h old new)

List-cases :
    (xs : List Report) → (xs ≡ []) ⊎ ((x : Report) × (rest : List Report) × (xs ≡ x ∷ rest))
List-cases [] = inl refl
List-cases (x ∷ rest) = inr (x, rest, refl)

periodic_path :
    (path query p q : Str)
    → periodic path query ≡ true
    → periodic p q ≡ true
    → periodic p query ≡ true
unfolding periodic
periodic_path path query p q h k = ground arith

plain-send :
    (p : Reporter) (path query : Str)
    → plain (send p path query).reporter.q ≡ plain p.q ++ one_if (periodic path query) path query
unfolding send
plain-send p path query = elim (Option-cases (last p.q)) [
  | inl e ↦ rw (send, e) (plain-append p.q added)
  | inr (r, e) ↦ elim (Bool-cases (periodic path query && periodic r.path r.query)) [
    | inl both ↦
        let new : periodic path query ≡ true = ground arith in
        let old : periodic r.path r.query ≡ true = ground arith in
        rw (send, e, new, old)
          (plain-set_last query p.q r e old (periodic_path path query r.path r.query new old)
            ∙ sym (append-nil (plain p.q)))
    | inr other ↦ rw (send, e, other) (plain-append p.q added)
  ]
]
  where
    added : Report
    added = record { path = path; query = query; id = p.next }

plain-take_report :
    (p : Reporter) → plain_of (take_report p).1 ++ plain (take_report p).0.q ≡ plain p.q
unfolding take_report plain
plain-take_report p = elim (Option-cases p.in_flight) [
  | inl free ↦ elim (List-cases p.q) [
    | inl e ↦ rw (free, e) refl
    | inr (r, rs, e) ↦ rw (free, e) refl
  ]
  | inr (r, e) ↦ rw e refl
]

q-answered : (p : Reporter) (a : Answer) → (answered p a).0.q ≡ p.q
unfolding answered
q-answered p a = elim (Option-cases p.in_flight) [ inl e ↦ rw e refl | inr (r, e) ↦ rw e refl ]

q-held : (p : Reporter) → (held p).0.q ≡ p.q
unfolding held
q-held p = elim (Bool-cases p.throttled) [ inl e ↦ rw e refl | inr e ↦ rw e refl ]

-- What is asked so far and what is queued, next to what was sent.
abbrev Kept : History → Type 0
Kept h = h.asked ++ plain h.reporter.q ≡ h.sent

step-Kept : (h : History) (o : Op) → Kept h → Kept (step h o)
unfolding step
step-Kept h (sends path query) k =
    ap (λ x. h.asked ++ x) (plain-send h.reporter path query)
    ∙ sym (append_assoc h.asked (plain h.reporter.q) (one_if (periodic path query) path query))
    ∙ ap (λ x. x ++ one_if (periodic path query) path query) k
step-Kept h takes k =
    append_assoc h.asked (plain_of (take_report h.reporter).1) (plain (take_report h.reporter).0.q)
    ∙ ap (λ x. h.asked ++ x) (plain-take_report h.reporter)
    ∙ k
step-Kept h (answers a) k = ap (λ x. h.asked ++ plain x) (q-answered h.reporter a) ∙ k
step-Kept h asks_held k = ap (λ x. h.asked ++ plain x) (q-held h.reporter) ∙ k

run-Kept : (h : History) (os : List Op) → Kept h → Kept (run h os)
unfolding run
run-Kept h [] k = k
run-Kept h (o ∷ os) k = run-Kept (step h o) os (step-Kept h o k)

-- Through any calls, the reports that are not periodic reach Plex in the order in which they were
-- sent, each once: those asked so far, followed by those still queued, are those sent.
pub run_in_order :
    (os : List Op) → (run begin os).asked ++ plain (run begin os).reporter.q ≡ (run begin os).sent
unfolding new_reporter plain
run_in_order os = run-Kept begin os refl
