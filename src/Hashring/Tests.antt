-- ===== src/Hashring/Tests.antt =====
-- The ring over two pods, run.
use clusterplex.Prelude.{
  ◌≡◌, ◌≢◌, refl, true, false, List, [], ◌∷◌, arith, Str, str, str_eq, ==_iff, str_beq, sym, ◌∙◌,
}
use clusterplex.Dict.{lookup, insert, has}
use clusterplex.Sorted.{contains, sort, SameMembers}
use clusterplex.Sorted.Orders.{str_lt}
use clusterplex.Hashring.{
  point, collect, place, place_from, place_all, new_ring, kept_of, locate, search_from, next_point,
  crc32, itoa,
}
use clusterplex.Hashring.Set.{new_ring_same}
use clusterplex.Hashring.Stable.{without, locate-without, locate-contains}

abbrev pub pods : List Str
pods = str "plex-1" ∷ str "plex-0" ∷ []

movie_at : locate (new_ring pods) (str "movie") ≡ str "plex-0"
unfolding locate new_ring kept_of collect place_all place_from place point next_point search_from
    sort lookup insert has contains crc32 itoa str_lt str_beq
movie_at = refl

differ : str "plex-0" ≢ str "plex-1"
unfolding str_beq
differ e = elim_false ((==_iff (str "plex-0") (str "plex-1")).1 e)
  where
    elim_false : false ≡ true → ⊥
    elim_false p = cc

locate-without_example :
    locate (new_ring (without (str "plex-1") pods)) (str "movie")
    ≡ locate (new_ring pods) (str "movie")
locate-without_example =
    locate-without pods (str "plex-1") (str "movie") (λ e. differ (sym movie_at ∙ e))

pub pods_named : contains pods (str "plex-0") ≡ true
unfolding contains str_beq
pods_named = refl

locate-contains_example :
    (contains pods (locate (new_ring pods) (str "show")) ≡ true)
    × (locate (new_ring pods) (str "show") ≢ [])
locate-contains_example = locate-contains pods (str "show") (str "plex-0") pods_named (λ e. cc)

swapped : SameMembers pods (str "plex-0" ∷ str "plex-1" ∷ str "plex-0" ∷ [])
unfolding contains
swapped a = ground arith

new_ring_same_example : new_ring pods ≡ new_ring (str "plex-0" ∷ str "plex-1" ∷ str "plex-0" ∷ [])
new_ring_same_example = new_ring_same pods (str "plex-0" ∷ str "plex-1" ∷ str "plex-0" ∷ []) swapped
