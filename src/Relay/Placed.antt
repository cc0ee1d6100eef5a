-- ===== src/Relay/Placed.antt =====
-- A placement that is removed.
use clusterplex.Prelude.{
  ◌≡◌, refl, sym, ap, ◌∙◌, Bool, false, ◌||◌, none, some, List, [], ◌∷◌, arith, if◌then◌else◌, Str,
  str_eq, ◌==◌, ==_refl, ==_iff, Bool-cases, Option-cases, inl, inr,
}
use clusterplex.Dict.{lookup, lookup-insert, lookup-delete}
use clusterplex.Relay.{Placement, Placements, get, set, started, remove}

-- The calls on the placements that come late for a session: all but set of that session.
pub data Call : Type 0 where
  sets : Str → Placement → Call
  starts : Str → Str → Str → Call
  removes : Str → Call

unfoldable pub apply : Placements → Call → Placements
apply p (sets session pl) = set p session pl
apply p (starts session encoder decoder) = started p session encoder decoder
apply p (removes session) = remove p session

unfoldable pub apply_all : Placements → List Call → Placements
apply_all p [] = p
apply_all p (c ∷ cs) = apply_all (apply p c) cs

abbrev pub sets_it : Str → Call → Bool
sets_it session (sets s pl) = s == session
sets_it session (starts s encoder decoder) = false
sets_it session (removes s) = false

unfoldable pub any_sets : Str → List Call → Bool
any_sets session [] = false
any_sets session (c ∷ cs) = sets_it session c || any_sets session cs

get-apply :
    (p : Placements) (session : Str) (c : Call)
    → sets_it session c ≡ false
    → get p session ≡ none
    → get (apply p c) session ≡ none
unfolding apply get set started remove
get-apply none session (sets s pl) h k = refl
get-apply none session (starts s encoder decoder) h k = refl
get-apply none session (removes s) h k = refl
get-apply (some m) session (sets s pl) h k = ground (arith, lookup-insert s session pl m)
get-apply (some m) session (removes s) h k = ground (arith, lookup-delete s session m)
get-apply (some m) session (starts s encoder decoder) h k = elim (Option-cases (lookup s m)) [
  | inl e ↦ rw e k
  | inr (pl, e) ↦ rw e (
      lookup-insert s session (record pl { encoder = encoder; decoder = decoder }) m
      ∙ unchanged (record pl { encoder = encoder; decoder = decoder })
          (elim (Bool-cases (s == session)) [
            | inl same ↦
                absurd
                  (none_some (sym k ∙ ap (λ j. lookup j m) (sym ((==_iff s session).0 same)) ∙ e))
            | inr other ↦ other
          ]))
]
  where
    none_some : {x : Placement} → none ≡ some x → ⊥
    none_some e = cc

    unchanged :
        (x : Placement)
        → (s == session) ≡ false
        → (if s == session then some x else lookup session m) ≡ none
    unchanged x other = rw other k

get-apply_all :
    (p : Placements) (session : Str) (cs : List Call)
    → any_sets session cs ≡ false
    → get p session ≡ none
    → get (apply_all p cs) session ≡ none
unfolding apply_all any_sets
get-apply_all p session [] h k = k
get-apply_all p session (c ∷ cs) h k =
    get-apply_all (apply p c) session cs (ground arith) (get-apply p session c (ground arith) k)

get-remove : (p : Placements) (session : Str) → get (remove p session) session ≡ none
unfolding get remove
get-remove none session = refl
get-remove (some m) session = ground (arith, lookup-delete session session m, ==_refl session)

-- Once a conversion's placement is removed it stays so, whatever is reported of any session, until
-- it is set again: a report that comes late does not bring it back.
pub remove_stays :
    (p : Placements) (session : Str) (cs : List Call)
    → any_sets session cs ≡ false
    → get (apply_all (remove p session) cs) session ≡ none
remove_stays p session cs h = get-apply_all (remove p session) session cs h (get-remove p session)
