-- ===== src/Relay/Tests.antt =====
-- A relay's reports and placements.
use clusterplex.Prelude.{
  map, keep_if, not, inl, ◌≡◌, refl, true, false, some, none, List, [], ◌∷◌, ◌++◌, Str, str, str_eq,
  ◌==◌,
}
use clusterplex.Relay.{Placements, get, remove}
use clusterplex.Relay.Reports.{Op, sends, takes, begin, run, plain, run_in_order}
use clusterplex.Relay.Sloth.{
  answer, put, logged, key_of, sloth, sloth_query, sloth_message, work_message, split_fields,
  throttled_turns, times, sloth_holds,
}
use clusterplex.Relay.Query.{or_one_empty, sent_as, split_fields-sloth_query}
use clusterplex.Relay.Placed.{Call, starts, apply_all, any_sets, remove_stays}

abbrev sent_two : List Op
sent_two = sends [] (str "duration=60") ∷ sends [] (str "progress=1") ∷ takes ∷ []

run_in_order_example :
    (run begin sent_two).asked ++ plain (run begin sent_two).reporter.q ≡ (run begin sent_two).sent
run_in_order_example = run_in_order sent_two

abbrev running : Placements
running =
    some ((str "s1", record { worker = str "w"; node = str "n"; encoder = []; decoder = [] }) ∷ [])

abbrev late : List Call
late = starts (str "s1") (str "h264_qsv") (str "vaapi") ∷ []

none_set : any_sets (str "s1") late ≡ false
unfolding any_sets
none_set = refl

remove_stays_example : get (apply_all (remove running (str "s1")) late) (str "s1") ≡ none
remove_stays_example = remove_stays running (str "s1") late none_set

abbrev progress_query : Str
progress_query = str "progress=1&remaining=5&speed=2"

sloth_holds_example :
    ((sloth progress_query (throttled_turns 2 [])).end_of ≡ none)
    × (sloth progress_query (throttled_turns 2 (answer false ∷ [])) ≡ record {
      effects =
          logged sloth_message
          ∷ times 2
              (put (sloth_query progress_query) ∷ [])
              (put (sloth_query progress_query) ∷ logged work_message ∷ []);
      end_of = some true;
    })
sloth_holds_example = sloth_holds progress_query 2 (answer false) [] (inl refl)

split_fields-sloth_query_example :
    split_fields (sloth_query progress_query)
    ≡ or_one_empty
        (map sent_as (keep_if (λ kv. not (key_of kv == str "speed")) (split_fields progress_query)))
split_fields-sloth_query_example = split_fields-sloth_query progress_query
