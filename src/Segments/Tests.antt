-- ===== src/Segments/Tests.antt =====
-- Two segments listed.
use clusterplex.Prelude.{
  ℕ, ◌+◌, ◌*◌, ◌^◌, true, false, ◌≡◌, ◌≢◌, ap, refl, none, some, List, [], ◌∷◌, ◌++◌, length, pos,
  Str, str_eq, str_beq, ◌==◌, ==_refl, arith,
}
use clusterplex.Segments.{
  SegmentTimes, Report, new_lister, out_of_order, keyframe_due, first_forced,
}
use clusterplex.Segments.Order.{
  InOrder, list_all, posts_from, list_all-posts_from, list_all-out_of_order,
}

abbrev media : ℕ → Str
media n = 109 ∷ (48 + n) ∷ []

abbrev segment : ℕ → SegmentTimes
segment n = record {
  name = media n;
  start = pos (n * 8_000_000_000);
  end_at = pos ((n + 1) * 8_000_000_000);
  streams = record { stream = 0; start = pos 0; end_at = pos 8_000_000_000 } ∷ [];
}

abbrev reports : List Report
reports =
    record {
      times = segment 0;
      next_start = some (pos 8_000_000_000);
      first_ok = true;
      second_ok = true;
    }
    ∷ record { times = segment 1; next_start = none; first_ok = true; second_ok = true }
    ∷ []

reports-InOrder : InOrder media 0 reports
reports-InOrder = (refl, refl, refl, (refl, refl, refl, tt))

list_all-posts_from_example :
    let r = list_all media (new_lister 2 0) reports in
    (r.err ≡ none)
    × (r.posts ≡ posts_from media 1 [] 0 reports)
    × (r.lister.next ≡ 0 + length reports)
    × (r.lister.count ≡ length reports)
list_all-posts_from_example = list_all-posts_from media 2 0 reports reports-InOrder

abbrev late : Report
late = record { times = segment 5; next_start = none; first_ok = true; second_ok = true }

apart : (media 5 == media 2) ≡ false
unfolding str_beq
apart = refl

not_media_2 : media 5 ≢ media 2
not_media_2 e = absurd (ground (arith, ==_refl (media 2), ap (λ s. s == media 2) e, apart))

list_all-out_of_order_example :
    let r = list_all media (new_lister 2 0) (reports ++ late ∷ []) in
    (r.err ≡ some out_of_order)
    × (r.posts ≡ posts_from media 1 [] 0 reports)
    × (r.lister.count ≡ length reports)
list_all-out_of_order_example =
    list_all-out_of_order media 2 0 reports [] late reports-InOrder not_media_2

-- A grid of 8 s, whose second keyframe of a job that starts at 20 s is due; and a count whose product
-- with the grid wraps.
grid_due :
    (keyframe_due (pos 20_000_000_000) 2 (pos 8_000_000_000) ≡ true)
    × (first_forced (pos 20_000_000_000) (pos 8_000_000_000) ≡ 2)
    × (keyframe_due (pos 0) (2 ^ 62) (pos 2) ≡ true)
unfolding keyframe_due first_forced
grid_due = (refl, refl, refl)
