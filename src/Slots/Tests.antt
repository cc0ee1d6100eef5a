-- ===== src/Slots/Tests.antt =====
-- A pool of two slots, run.
use clusterplex.Prelude.{
  ◌+◌, ◌≤◌, ◌≡◌, refl, true, some, none, List, [], ◌∷◌, str, str_eq, str_beq, length, ◌⊎◌, ◌==◌,
  if◌then◌else◌,
}
use clusterplex.Dict.{lookup, insert}
use clusterplex.Slots.{hls, file, new_slots, acquire, release, owns, taken_over, hold, slot_key}
use clusterplex.Slots.Bounds.{
  Op, acquires, step, run, run-le-max, acquire_fresh, Fits, Holds, run-IsValid, new_slots-IsValid,
}
use clusterplex.Slots.Release.{ticket_of, acquire_takes_over, release_frees}

abbrev watching : List Op
watching = acquires (str "a") hls ∷ []

run-le-max_example :
    length (run (new_slots 1) (acquires (str "a") hls ∷ acquires (str "b") hls ∷ [])).held ≤ 1
run-le-max_example = run-le-max 1 (acquires (str "a") hls ∷ acquires (str "b") hls ∷ [])

none_held : taken_over (run (new_slots 2) watching) (str "b") ≡ none
unfolding taken_over run step acquire hold slot_key new_slots lookup insert str_beq
none_held = refl

acquire_fresh_example :
    let s = run (new_slots 2) watching in
    (Fits file (length s.held) s.max × Holds s (acquire s (str "b") file))
    ⊎ ((¬ Fits file (length s.held) s.max)
        × (acquire s (str "b") file ≡ record { slots = s; cancelled = none; ticket = none }))
acquire_fresh_example = acquire_fresh (run (new_slots 2) watching) (str "b") file none_held

one_held : taken_over (run (new_slots 2) watching) (str "a") ≡ some 1
unfolding taken_over run step acquire hold slot_key new_slots lookup insert str_beq
one_held = refl

acquire_takes_over_example :
    let s = run (new_slots 2) watching in
    let a = acquire s (str "a") file in
    (a.cancelled ≡ some 1)
    × (a.ticket ≡ some (ticket_of (str "a") (s.next + 1)))
    × (length a.slots.held ≡ length s.held)
    × (owns a.slots (ticket_of (str "a") (s.next + 1)) ≡ true)
    × ((release a.slots (ticket_of (str "a") 1)).0 ≡ a.slots)
acquire_takes_over_example = acquire_takes_over 2 watching (str "a") file 1 one_held

owned : owns (run (new_slots 2) watching) (ticket_of (str "a") 1) ≡ true
unfolding owns run step acquire hold slot_key new_slots taken_over lookup insert str_beq
owned = refl

release_frees_example :
    let s = run (new_slots 2) watching in
    (length s.held ≡ length (release s (ticket_of (str "a") 1)).0.held + 1)
    × (lookup (str "a") (release s (ticket_of (str "a") 1)).0.held
        ≡ (if str "a" == str "a" then none else lookup (str "a") s.held))
    × ((release (new_slots 3) (release s (ticket_of (str "a") 1)).1).0 ≡ new_slots 3)
release_frees_example =
    release_frees (run (new_slots 2) watching) (new_slots 3) (ticket_of (str "a") 1) (str "a")
      (run-IsValid (new_slots 2) watching (new_slots-IsValid 2)) refl owned
