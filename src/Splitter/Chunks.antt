-- ===== src/Splitter/Chunks.antt =====
-- However a muxer's output is cut into writes, the splitter makes the same of it.
use clusterplex.Prelude.{
  ++-[], ++_assoc, ℕ, zero, suc, ◌+◌, ◌≤◌, ◌<◌, ◌≡◌, ◌≢◌, refl, sym, ap, subst, ◌∙◌, Bool, true,
  false, some, List, [], ◌∷◌, ◌++◌, nat_eq, ltb, length, take, drop, length-append, length-drop,
  take_append, drop_append, str_eq, arith, Bool-cases, inl, inr, ◌⊎◌,
}
use clusterplex.Dict.{is_some}
use clusterplex.Splitter.{
  Bytes, Event, Fault, Splitter, big_endian, Next, waits, faulty, box, sized, by_header, next_box,
  take_box, front, drain, write, write_all,
}

-- What is found at the front stays found when more comes.
abbrev Settled : Bytes → Bytes → Next → Type 0
Settled b q r = (r ≡ waits) ⊎ (next_box (b ++ q) ≡ r)

sized-settled :
    (size hdr n more : ℕ)
    → (sized size hdr n ≡ waits) ⊎ (sized size hdr (n + more) ≡ sized size hdr n)
sized-settled size hdr n more = ground arith

long_header :
    (s l l' n more : ℕ)
    → ltb n 8 ≡ false
    → (16 ≤ n → l' ≡ l)
    → (by_header s l n ≡ waits) ⊎ (by_header s l' (n + more) ≡ by_header s l n)
long_header s l l' n more enough hl = elim (Bool-cases (ltb n 16)) [
  | inl few ↦ ground (arith, enough, few, sized-settled s 8 n more)
  | inr long ↦
      let same = hl (ground (arith, long)) in
      ground (arith, enough, long, same, sized-settled s 8 n more, sized-settled l 16 n more)
]

by_header-settled :
    (s s' l l' n more : ℕ)
    → (8 ≤ n → s' ≡ s)
    → (16 ≤ n → l' ≡ l)
    → (by_header s l n ≡ waits) ⊎ (by_header s' l' (n + more) ≡ by_header s l n)
by_header-settled s s' l l' n more hs hl = elim (Bool-cases (ltb n 8)) [
  | inl few ↦ inl (rw few refl)
  | inr enough ↦
      let short_same = hs (ground (arith, enough)) in
      let enough' : ltb (n + more) 8 ≡ false = ground (arith, enough) in
      subst (λ t. (by_header s l n ≡ waits) ⊎ (by_header t l' (n + more) ≡ by_header s l n))
        (sym short_same) (long_header s l l' n more enough hl)
]

long_same : (b q : Bytes) → 16 ≤ length b → take 8 (drop 8 (b ++ q)) ≡ take 8 (drop 8 b)
long_same b q h =
    ap (take 8) (drop_append 8 b q (omega arith))
    ∙ take_append 8 (drop 8 b) q (omega (arith, length-drop 8 b))

next_box-Settled : (b q : Bytes) → Settled b q (next_box b)
unfolding next_box
next_box-Settled b q =
    subst
      (λ n.
        (next_box b ≡ waits)
        ⊎ (by_header (big_endian 0 (take 4 (b ++ q))) (big_endian 0 (take 8 (drop 8 (b ++ q)))) n
            ≡ next_box b))
      (sym (length-append b q))
      (by_header-settled (big_endian 0 (take 4 b)) (big_endian 0 (take 4 (b ++ q)))
        (big_endian 0 (take 8 (drop 8 b))) (big_endian 0 (take 8 (drop 8 (b ++ q)))) (length b)
        (length q) (λ h. ap (big_endian 0) (take_append 4 b q (omega arith)))
        (λ h. ap (big_endian 0) (long_same b q h)))

sized-fits : (size hdr n k : ℕ) → sized size hdr n ≡ box k → (hdr ≤ k) × (k ≤ n)
sized-fits size hdr n k e = ground (arith, e)

-- A box is at least as long as its header and is in the buffer.
next_box-fits : (b : Bytes) (size : ℕ) → next_box b ≡ box size → (8 ≤ size) × (size ≤ length b)
unfolding next_box
next_box-fits b size e = ground (
  arith,
  e,
  sized-fits (big_endian 0 (take 8 (drop 8 b))) 16 (length b) size,
  sized-fits (big_endian 0 (take 4 b)) 8 (length b) size,
)

Next-cases : (r : Next) → (r ≡ waits) ⊎ ((f : Fault) × (r ≡ faulty f)) ⊎ ((k : ℕ) × (r ≡ box k))
Next-cases waits = inl refl
Next-cases (faulty f) = inr (inl (f, refl))
Next-cases (box k) = inr (inr (k, refl))

short-waits : (b : Bytes) → length b < 8 → next_box b ≡ waits
unfolding next_box
short-waits b h = ground (arith, h)

-- The bytes of some writes together.
unfoldable pub joined : List Bytes → Bytes
joined [] = []
joined (p ∷ ps) = p ++ joined ps

module _ (refuses : List Event → Event → Bool) where
  abbrev past : ℕ → Splitter → Splitter
  past k s = record (front refuses k s) { buf = drop k s.buf }

  drain-waits : (n : ℕ) (s : Splitter) → next_box s.buf ≡ waits → drain refuses n s ≡ s
  unfolding drain
  drain-waits zero s e = refl
  drain-waits (suc n) s e = ground (arith, e)

  drain-faulty :
      (n : ℕ) (s : Splitter) (f : Fault)
      → next_box s.buf ≡ faulty f
      → drain refuses (suc n) s ≡ record s { err = some f }
  unfolding drain
  drain-faulty n s f e = ground (arith, e)

  drain_stops :
      (n : ℕ) (s : Splitter) (k : ℕ)
      → next_box s.buf ≡ box k
      → is_some (front refuses k s).err ≡ true
      → drain refuses (suc n) s ≡ front refuses k s
  unfolding drain
  drain_stops n s k e h = ground (arith, e, h)

  drain_goes :
      (n : ℕ) (s : Splitter) (k : ℕ)
      → next_box s.buf ≡ box k
      → is_some (front refuses k s).err ≡ false
      → drain refuses (suc n) s ≡ drain refuses n (past k s)
  unfolding drain
  drain_goes n s k e h = ground (arith, e, h)

  -- More fuel than the buffer is long changes nothing.
  drain_enough :
      (n m : ℕ) (s : Splitter)
      → length s.buf ≤ n
      → length s.buf ≤ m
      → drain refuses n s ≡ drain refuses m s
  drain_enough zero m s hn hm =
      let short = short-waits s.buf (omega arith) in
      drain-waits zero s short ∙ sym (drain-waits m s short)
  drain_enough (suc n) zero s hn hm =
      let short = short-waits s.buf (omega arith) in
      drain-waits (suc n) s short ∙ sym (drain-waits zero s short)
  drain_enough (suc n) (suc m) s hn hm = elim (Next-cases (next_box s.buf)) [
    | inl w ↦ drain-waits (suc n) s w ∙ sym (drain-waits (suc m) s w)
    | inr (inl (f, w)) ↦ drain-faulty n s f w ∙ sym (drain-faulty m s f w)
    | inr (inr (k, w)) ↦ elim (Bool-cases (is_some (front refuses k s).err)) [
      | inl stops ↦ drain_stops n s k w stops ∙ sym (drain_stops m s k w stops)
      | inr goes ↦
          let fits = next_box-fits s.buf k w in
          let less = length-drop k s.buf in
          drain_goes n s k w goes
          ∙ drain_enough n m (past k s) (omega (arith, fits.0, less)) (omega (arith, fits.0, less))
          ∙ sym (drain_goes m s k w goes)
    ]
  ]

  abbrev with_buf : Bytes → Splitter → Splitter
  with_buf b s = record s { buf = b }

  -- More bytes after those in the buffer.
  abbrev extended : Bytes → Splitter → Splitter
  extended q s = record s { buf = s.buf ++ q }

  take_box-buf :
      (typ b x : Bytes) (s : Splitter)
      → take_box refuses typ b (record s { buf = x })
        ≡ record (take_box refuses typ b s) { buf = x }
  unfolding take_box
  take_box-buf typ b x s = ground arith

  take_box-keeps : (typ b : Bytes) (s : Splitter) → (take_box refuses typ b s).buf ≡ s.buf
  unfolding take_box
  take_box-keeps typ b s = ground arith

  front-extended :
      (k : ℕ) (q : Bytes) (s : Splitter)
      → k ≤ length s.buf
      → front refuses k (extended q s) ≡ record (front refuses k s) { buf = s.buf ++ q }
  front-extended k q s h =
      ap (λ b. take_box refuses (take 4 (drop 4 b)) b (extended q s)) (take_append k s.buf q h)
      ∙ take_box-buf (take 4 (drop 4 (take k s.buf))) (take k s.buf) (s.buf ++ q) s

  settled_more : (b q : Bytes) (r : Next) → next_box b ≡ r → r ≢ waits → next_box (b ++ q) ≡ r
  settled_more b q r e n = elim (next_box-Settled b q) [
    | inl w ↦ absurd (n (sym e ∙ w))
    | inr same ↦ same ∙ e
  ]

  past-extended :
      (k : ℕ) (q : Bytes) (s : Splitter)
      → k ≤ length s.buf
      → past k (extended q s) ≡ extended q (past k s)
  past-extended k q s h =
      ap (with_buf (drop k (s.buf ++ q))) (front-extended k q s h)
      ∙ ap (λ b. with_buf b (front refuses k s)) (drop_append k s.buf q h)

  same_after :
      (m l : ℕ) (q : Bytes) (s t : Splitter)
      → t ≡ s
      → length s.buf + length q ≤ m
      → length t.buf + length q ≤ l
      → drain refuses m (extended q s) ≡ drain refuses l (extended q t)
  same_after m l q s t e hm hl =
      subst
        (λ x.
          length x.buf + length q ≤ l
          → drain refuses m (extended q s) ≡ drain refuses l (extended q x))
        (sym e)
        (λ h.
          drain_enough m l (extended q s) (omega (arith, length-append s.buf q))
            (omega (arith, length-append s.buf q, h)))
        hl

  fault_shows : (s t : Splitter) (f : Fault) → t ≡ record s { err = some f } → is_some t.err ≢ false
  fault_shows s t f e h = ground (arith, sym (ap (λ x. is_some x.err) e) ∙ h)

  stop_shows : {s t : Splitter} → t ≡ s → is_some s.err ≡ true → is_some t.err ≢ false
  stop_shows e stops h = ground (arith, sym (ap (λ x. is_some x.err) e) ∙ h, stops)

  -- A round over a longer buffer, with the fuel that is left.
  goes_extended :
      (m k : ℕ) (q : Bytes) (s : Splitter)
      → next_box s.buf ≡ box k
      → is_some (front refuses k s).err ≡ false
      → length s.buf + length q ≤ m
      → (j : ℕ) × (length (drop k s.buf) + length q ≤ j)
        × (drain refuses m (extended q s) ≡ drain refuses j (extended q (past k s)))
  goes_extended zero k q s w goes hm = let fits = next_box-fits s.buf k w in absurd (omega arith)
  goes_extended (suc m) k q s w goes hm =
      let fits = next_box-fits s.buf k w in
      let found = settled_more s.buf q (box k) w (λ e. ground (arith, e)) in
      let no_fault : is_some (front refuses k (extended q s)).err ≡ false =
        ap (λ x. is_some x.err) (front-extended k q s fits.1) ∙ goes in
      let moved =
        drain_goes m (extended q s) k found no_fault
        ∙ ap (drain refuses m) (past-extended k q s fits.1) in
      (m, omega (arith, length-drop k s.buf), moved)

  -- What is drained before more bytes come need not be drained again.
  drain-extended :
      (n m l : ℕ) (q : Bytes) (s : Splitter)
      → length s.buf ≤ n
      → length s.buf + length q ≤ m
      → is_some (drain refuses n s).err ≡ false
      → length (drain refuses n s).buf + length q ≤ l
      → drain refuses m (extended q s) ≡ drain refuses l (extended q (drain refuses n s))
  drain-extended zero m l q s hn hm ok_after hl =
      let short = short-waits s.buf (omega arith) in
      same_after m l q s (drain refuses zero s) (drain-waits zero s short) hm hl
  drain-extended (suc n) m l q s hn hm ok_after hl = elim (Next-cases (next_box s.buf)) [
    | inl w ↦ same_after m l q s (drain refuses (suc n) s) (drain-waits (suc n) s w) hm hl
    | inr (inl (f, w)) ↦
        absurd (fault_shows s (drain refuses (suc n) s) f (drain-faulty n s f w) ok_after)
    | inr (inr (k, w)) ↦ elim (Bool-cases (is_some (front refuses k s).err)) [
      | inl stops ↦ absurd (stop_shows (drain_stops n s k w stops) stops ok_after)
      | inr goes ↦
          let fits = next_box-fits s.buf k w in
          let (j, fuel, moved) = goes_extended m k q s w goes hm in
          let round = drain_goes n s k w goes in
          let shorter : length (drop k s.buf) ≤ n = omega (arith, length-drop k s.buf) in
          let ok_later = sym (ap (λ x. is_some x.err) round) ∙ ok_after in
          moved
          ∙ drain-extended n j l q (past k s) shorter fuel ok_later
              (subst (λ x. length x.buf + length q ≤ l) round hl)
          ∙ ap (λ x. drain refuses l (extended q x)) (sym round)
    ]
  ]

  write-open :
      (p : Bytes) (s : Splitter)
      → is_some s.err ≡ false
      → write refuses p s ≡ drain refuses (length (s.buf ++ p)) (extended p s)
  unfolding write
  write-open p s h = rw h refl

  write-failed : (p : Bytes) (s : Splitter) → is_some s.err ≡ true → write refuses p s ≡ s
  unfolding write
  write-failed p s h = rw h refl

  -- Two writes, the first of which succeeds, are one write.
  write-append :
      (p q : Bytes) (s : Splitter)
      → is_some (write refuses p s).err ≡ false
      → write refuses q (write refuses p s) ≡ write refuses (p ++ q) s
  write-append p q s h = elim (Bool-cases (is_some s.err)) [
    | inl bad ↦ absurd (stop_shows (write-failed p s bad) bad h)
    | inr fine ↦
        let first = write-open p s fine in
        let whole = write-open (p ++ q) s fine in
        let drained = drain refuses (length (s.buf ++ p)) (extended p s) in
        let no_fault : is_some drained.err ≡ false = sym (ap (λ x. is_some x.err) first) ∙ h in
        let sizes : length (s.buf ++ p) + length q ≤ length (s.buf ++ (p ++ q)) =
          omega (arith, length-append s.buf p, length-append s.buf (p ++ q), length-append p q) in
        let again =
          drain-extended (length (s.buf ++ p)) (length (s.buf ++ (p ++ q)))
            (length (drained.buf ++ q)) q (extended p s) (omega arith) sizes no_fault
            (omega (arith, length-append drained.buf q)) in
        ap (write refuses q) first
        ∙ write-open q drained no_fault
        ∙ sym again
        ∙ ap (λ b. drain refuses (length (s.buf ++ (p ++ q))) (with_buf b s)) (++_assoc s.buf p q)
        ∙ sym whole
  ]

  write_all-failed :
      (ps : List Bytes) (s : Splitter) → is_some s.err ≡ true → write_all refuses ps s ≡ s
  unfolding write_all
  write_all-failed [] s h = refl
  write_all-failed (p ∷ ps) s h =
      ap (write_all refuses ps) (write-failed p s h) ∙ write_all-failed ps s h

  -- However the bytes are cut into writes, if no write fails the splitter ends as one write of all of
  -- them leaves it: with the same calls of OnInit and OnFragment in the same order.
  pub write_all-write :
      (p : Bytes) (ps : List Bytes) (s : Splitter)
      → is_some (write_all refuses (p ∷ ps) s).err ≡ false
      → write_all refuses (p ∷ ps) s ≡ write refuses (joined (p ∷ ps)) s
  unfolding write_all joined
  write_all-write p [] s h = ap (λ b. write refuses b s) (sym (++-[] p))
  write_all-write p (q ∷ ps) s h = elim (Bool-cases (is_some (write refuses p s).err)) [
    | inl bad ↦ absurd (stop_shows (write_all-failed (q ∷ ps) (write refuses p s) bad) bad h)
    | inr fine ↦
        write_all-write q ps (write refuses p s) h ∙ write-append p (joined (q ∷ ps)) s fine
  ]
