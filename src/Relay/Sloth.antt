-- ===== src/Relay/Sloth.antt =====
-- pkg/video/relay/throttle.go: what a throttled conversion does until Plex lets it go on. Whether an
-- answer throttles is read from it by encoding/xml, and is an argument here.
use clusterplex.Prelude.{
  ℕ, zero, suc, ◌≡◌, refl, ap, ◌∙◌, Bool, true, false, Option, none, some, List, [], ◌∷◌, ◌++◌,
  if◌then◌else◌, ◌==◌, Str, str, str_eq, nat_eq, ℤ, positive_or, inl, inr, ◌⊎◌,
}

abbrev pub sloth_message : Str
sloth_message = str "Throttle - Going into sloth mode."

abbrev pub work_message : Str
work_message = str "Throttle - Getting back to work."

abbrev pub sloth_remaining : Str
sloth_remaining = str "2147483647"

-- Nanoseconds.
abbrev pub default_throttle_poll : ℕ
default_throttle_poll = 500_000_000

-- func (r *Relay) throttlePoll() time.Duration
unfoldable pub throttle_poll : ℤ → ℕ
throttle_poll poll = positive_or poll default_throttle_poll

abbrev pub onto_first : ℕ → List Str → List Str
onto_first c [] = (c ∷ []) ∷ []
onto_first c (s ∷ ss) = (c ∷ s) ∷ ss

-- strings.Split(s, "&")
unfoldable pub split_fields : Str → List Str
split_fields [] = [] ∷ []
split_fields (c ∷ s) = let rest = split_fields s in if c == 38 then [] ∷ rest else onto_first c rest

-- strings.Cut(kv, "="), its first result.
unfoldable pub key_of : Str → Str
key_of [] = []
key_of (c ∷ s) = if c == 61 then [] else c ∷ key_of s

-- The loop of slothQuery.
unfoldable pub sloth_fields : List Str → List Str
sloth_fields [] = []
sloth_fields (kv ∷ rest) =
    let out = sloth_fields rest in
    if key_of kv == str "speed"
    then out
    else if key_of kv == str "remaining"
    then (str "remaining=" ++ sloth_remaining) ∷ out
    else kv ∷ out

-- strings.Join(out, "&")
unfoldable pub join_fields : List Str → Str
join_fields [] = []
join_fields (s ∷ []) = s
join_fields (s ∷ t ∷ ss) = s ++ str "&" ++ join_fields (t ∷ ss)

-- func slothQuery(query string) string
unfoldable pub sloth_query : Str → Str
sloth_query query = join_fields (sloth_fields (split_fields query))

pub data Effect : Type 0 where
  logged put : Str → Effect

-- One turn of the loop: the context ends while it waits, or Plex is asked, and then the context has
-- ended, or the request fails, or there is an answer, which throttles or does not.
pub data Turn : Type 0 where
  over_waiting over_asking ask_failed : Turn
  answer : Bool → Turn

-- What is done, and the end: true is nil, false the context's error, none that the hold goes on.
pub record Hold : Type 0 where
  pub effects : List Effect
  pub end_of : Option Bool

abbrev pub held_after : List Effect → Hold → Hold
held_after es h = record h { effects = es ++ h.effects }

unfoldable pub turns : Str → List Turn → Hold
turns q [] = record { effects = []; end_of = none }
turns q (over_waiting ∷ ts) = record { effects = []; end_of = some false }
turns q (over_asking ∷ ts) = record { effects = put q ∷ []; end_of = some false }
turns q (ask_failed ∷ ts) = record {
  effects = put q ∷ logged work_message ∷ [];
  end_of = some true;
}
turns q (answer throttles ∷ ts) =
    let rest = turns q ts in
    if throttles
    then held_after (put q ∷ []) rest
    else record { effects = put q ∷ logged work_message ∷ []; end_of = some true }

-- func (r *Relay) sloth
unfoldable pub sloth : Str → List Turn → Hold
sloth query ts = held_after (logged sloth_message ∷ []) (turns (sloth_query query) ts)

unfoldable pub times : ℕ → List Effect → List Effect → List Effect
times zero es rest = rest
times (suc n) es rest = es ++ times n es rest

unfoldable pub throttled_turns : ℕ → List Turn → List Turn
throttled_turns zero ts = ts
throttled_turns (suc n) ts = answer true ∷ throttled_turns n ts

turns_held :
    (q : Str) (n : ℕ) (ts : List Turn)
    → turns q (throttled_turns n ts)
      ≡ record { effects = times n (put q ∷ []) (turns q ts).effects; end_of = (turns q ts).end_of }
unfolding turns times throttled_turns
turns_held q zero ts = refl
turns_held q (suc n) ts = ap (held_after (put q ∷ [])) (turns_held q n ts)

turns_end :
    (q : Str) (t : Turn) (ts : List Turn)
    → (t ≡ answer false) ⊎ (t ≡ ask_failed)
    → turns q (t ∷ ts) ≡ record { effects = put q ∷ logged work_message ∷ []; end_of = some true }
unfolding turns
turns_end q t ts (inl e) = rw e refl
turns_end q t ts (inr e) = rw e refl

-- While Plex throttles, the hold goes on with one PUT a turn. It ends at the first answer that does
-- not throttle, or the first request that fails, with the message that work goes on.
pub sloth_holds :
    (query : Str) (n : ℕ) (t : Turn) (ts : List Turn)
    → (t ≡ answer false) ⊎ (t ≡ ask_failed)
    → ((sloth query (throttled_turns n [])).end_of ≡ none)
      × (sloth query (throttled_turns n (t ∷ ts)) ≡ record {
        effects =
            logged sloth_message
            ∷ times n
                (put (sloth_query query) ∷ [])
                (put (sloth_query query) ∷ logged work_message ∷ []);
        end_of = some true;
      })
unfolding sloth turns
sloth_holds query n t ts e = (
  ap (λ h. h.end_of) (turns_held (sloth_query query) n []),
  ap (held_after (logged sloth_message ∷ [])) (turns_held (sloth_query query) n (t ∷ ts))
      ∙ ap
          (λ h. record {
            effects = logged sloth_message ∷ times n (put (sloth_query query) ∷ []) h.effects;
            end_of = h.end_of;
          })
          (turns_end (sloth_query query) t ts e),
)
