-- ===== src/Segments/Order.antt =====
-- A worker's segments are listed in order, each once.
use mathlib.Core.List.{append-nil, append_assoc}
use clusterplex.Prelude.{
  ℕ, ◌+◌, ◌-◌, ◌≡◌, ◌≢◌, refl, sym, ap, ◌∙◌, true, Option, none, some, List, [], ◌∷◌, ◌++◌, arith,
  Str, str_eq, ℤ, ◌==◌, ==_iff, length, Bool-cases, Option-cases, inl, inr,
}
use clusterplex.Segments.{
  SegmentList, Lister, Listed, Report, Error, out_of_order, list_finished, new_lister,
  new_segment_list, segment_list_line, concat, open_line, add_line, finished, opened,
}
use clusterplex.Segments.Window.{
  newest, beside_open, window-beside_open, add_line-newest, newest_of_none,
}

-- A worker's reports until one fails: the lister, what was posted, and the error or none.
pub record Run : Type 0 where
  pub lister : Lister
  pub posts : List Str
  pub err : Option Error

abbrev pub posted_before : List Str → Run → Run
posted_before ps r = record r { posts = ps ++ r.posts }

max-add_line : (l : SegmentList) (line : Str) → (add_line l line).max ≡ l.max
unfolding add_line
max-add_line l line = refl

opened-beside :
    (k : ℕ) (l : SegmentList) (xs : List Str) (name : Str) (t : ℤ) (n : ℕ)
    → l.max ≡ k
    → l.lines ≡ newest k xs
    → opened l name t n ≡ concat (beside_open k xs) ++ open_line name t n
unfolding opened
opened-beside k l xs name t n same h =
    ap (λ w. concat w ++ open_line name t n)
      (window-beside_open l xs (h ∙ ap (λ j. newest j xs) (sym same))
        ∙ ap (λ j. beside_open j xs) same)

-- A report's outcome, and what the later ones would come to.
abbrev pub go_on : Listed → Run → Run
go_on step rest = elim step.err [
  | none ↦ posted_before step.posts rest
  | some e ↦ record { lister = step.lister; posts = step.posts; err = some e }
]

abbrev listed : Lister → List Str → Listed
listed l ps = record { lister = l; posts = ps; err = none }

module _ (name_of : ℕ → Str) where
  unfoldable pub list_all : Lister → List Report → Run
  list_all l [] = record { lister = l; posts = []; err = none }
  list_all l (r ∷ rs) = let step = list_finished name_of l r in go_on step (list_all step.lister rs)

  -- The reports name the segments from n on, and their POSTs succeed.
  abbrev pub InOrder : ℕ → List Report → Type 0
  InOrder n [] = Unit
  InOrder n (r ∷ rs) =
      (r.times.name ≡ name_of n) × (r.first_ok ≡ true) × (r.second_ok ≡ true) × InOrder (n + 1) rs

  -- The POSTs that follow the finished lines xs when segment n finishes: the newest lines, k at
  -- most, and then those beside the next segment's entry, if that is open.
  abbrev pub posts_of : ℕ → List Str → ℕ → Report → List Str
  posts_of k xs n r = concat (newest k xs) ∷ elim r.next_start [
    | none ↦ []
    | some t ↦
        (concat (beside_open k xs) ++ open_line (name_of (n + 1)) t (length r.times.streams)) ∷ []
  ]

  unfoldable pub posts_from : ℕ → List Str → ℕ → List Report → List Str
  posts_from k xs n [] = []
  posts_from k xs n (r ∷ rs) =
      let ys = xs ++ segment_list_line r.times ∷ [] in
      posts_of k ys n r ++ posts_from k ys (n + 1) rs

  -- What the lister is after reports in order.
  after : Lister → List Report → Lister
  after l [] = l
  after l (r ∷ rs) =
      after
        (record {
          list = add_line l.list (segment_list_line r.times);
          next = l.next + 1;
          count = l.count + 1;
        })
        rs

  list_finished_lem :
      (l : Lister) (xs : List Str) (r : Report)
      → l.list.lines ≡ newest l.list.max xs
      → r.times.name ≡ name_of l.next
      → r.first_ok ≡ true
      → r.second_ok ≡ true
      → list_finished name_of l r ≡ record {
        lister = record {
          list = add_line l.list (segment_list_line r.times);
          next = l.next + 1;
          count = l.count + 1;
        };
        posts = posts_of l.list.max (xs ++ segment_list_line r.times ∷ []) l.next r;
        err = none;
      }
  unfolding list_finished finished
  list_finished_lem l xs r h name first second =
      let list = add_line l.list (segment_list_line r.times) in
      let ys = xs ++ segment_list_line r.times ∷ [] in
      let lister : Lister = record { list = list; next = l.next + 1; count = l.count + 1 } in
      let lines = add_line-newest l.list xs (segment_list_line r.times) h in
      let named : (r.times.name == name_of l.next) ≡ true =
        (==_iff r.times.name (name_of l.next)).1 name in
      elim (Option-cases r.next_start) [
        | inl e ↦
            rw (named, first, e, list_finished) (ap (λ b. listed lister (b ∷ [])) (ap concat lines))
        | inr (t, e) ↦
            rw (named, first, e, second, list_finished)
              (ap
                  (λ b.
                    listed lister
                      (b ∷ opened list (name_of (l.next + 1)) t (length r.times.streams) ∷ []))
                  (ap concat lines)
                ∙ ap (λ b. listed lister (concat (newest l.list.max ys) ∷ b ∷ []))
                    (opened-beside l.list.max list ys (name_of (l.next + 1)) t
                      (length r.times.streams) (max-add_line l.list (segment_list_line r.times))
                      lines))
      ]

  -- Reports in order are listed, each once, and what follows them goes on from there.
  list_all-after :
      (l : Lister) (xs : List Str) (rs more : List Report)
      → l.list.lines ≡ newest l.list.max xs
      → InOrder l.next rs
      → list_all l (rs ++ more)
        ≡ posted_before (posts_from l.list.max xs l.next rs) (list_all (after l rs) more)
  unfolding list_all posts_from after
  list_all-after l xs [] more h o = refl
  list_all-after l xs (r ∷ rs) more h (name, first, second, o) =
      let ys = xs ++ segment_list_line r.times ∷ [] in
      let step = list_finished_lem l xs r h name first second in
      let list = add_line l.list (segment_list_line r.times) in
      let one : Lister = record { list = list; next = l.next + 1; count = l.count + 1 } in
      let same = max-add_line l.list (segment_list_line r.times) in
      let kept = add_line-newest l.list xs (segment_list_line r.times) h in
      let rest = list_all-after one ys rs more (kept ∙ ap (λ k. newest k ys) (sym same)) o in
      let ps = posts_of l.list.max ys l.next r in
      ap (λ st. go_on st (list_all st.lister (rs ++ more))) step
      ∙ (ap (posted_before ps) (
            rest
            ∙ ap
                (λ k.
                  posted_before (posts_from k ys (l.next + 1) rs) (list_all (after one rs) more))
                same)
          ∙ ap (λ qs. record (list_all (after one rs) more) { posts = qs })
              (sym (
                append_assoc ps (posts_from l.list.max ys (l.next + 1) rs)
                  (list_all (after one rs) more).posts)))

  next-after : (l : Lister) (rs : List Report) → (after l rs).next ≡ l.next + length rs
  unfolding after
  next-after l [] = omega arith
  next-after l (r ∷ rs) =
      next-after
        (record {
          list = add_line l.list (segment_list_line r.times);
          next = l.next + 1;
          count = l.count + 1;
        })
        rs
      ∙ omega arith

  count-after : (l : Lister) (rs : List Report) → (after l rs).count ≡ l.count + length rs
  unfolding after
  count-after l [] = omega arith
  count-after l (r ∷ rs) =
      count-after
        (record {
          list = add_line l.list (segment_list_line r.times);
          next = l.next + 1;
          count = l.count + 1;
        })
        rs
      ∙ omega arith

  from_new :
      (size start : ℕ) (rs more : List Report)
      → InOrder start rs
      → list_all (new_lister size start) (rs ++ more)
        ≡ posted_before
            (posts_from (size - 1) [] start rs)
            (list_all (after (new_lister size start) rs) more)
  unfolding new_lister new_segment_list
  from_new size start rs more o =
      list_all-after (new_lister size start) [] rs more (newest_of_none (size - 1)) o

  -- If a worker's reports name the segments in order and the POSTs succeed, each segment is listed:
  -- after each, the lines of the newest segments are posted, one fewer than the list size, and if
  -- the next is open the lines of one segment fewer with its entry (of all segments each time, if
  -- the size is 0 or 1). The count and the next number go up with each.
  pub list_all-posts_from :
      (size start : ℕ) (rs : List Report)
      → InOrder start rs
      → let r = list_all (new_lister size start) rs in
        (r.err ≡ none)
        × (r.posts ≡ posts_from (size - 1) [] start rs)
        × (r.lister.next ≡ start + length rs)
        × (r.lister.count ≡ length rs)
  unfolding list_all new_lister
  list_all-posts_from size start rs o =
      let l = new_lister size start in
      let e = ap (list_all l) (sym (append-nil rs)) ∙ from_new size start rs [] o in
      (
        ap (λ r. r.err) e,
        ap (λ r. r.posts) e ∙ append-nil (posts_from (size - 1) [] start rs),
        ap (λ r. r.lister.next) e ∙ next-after l rs,
        ap (λ r. r.lister.count) e ∙ count-after l rs ∙ omega arith,
      )

  refused :
      (l : Lister) (r : Report)
      → r.times.name ≢ name_of l.next
      → list_finished name_of l r ≡ record { lister = l; posts = []; err = some out_of_order }
  unfolding list_finished
  refused l r h = elim (Bool-cases (r.times.name == name_of l.next)) [
    | inl same ↦ absurd (h ((==_iff r.times.name (name_of l.next)).0 same))
    | inr other ↦ rw (list_finished, other) refl
  ]

  -- After reports in order, one that does not name the next segment ends the run with an error. No
  -- more is posted, and neither it nor a later one is counted.
  pub list_all-out_of_order :
      (size start : ℕ) (rs more : List Report) (bad : Report)
      → InOrder start rs
      → bad.times.name ≢ name_of (start + length rs)
      → let r = list_all (new_lister size start) (rs ++ bad ∷ more) in
        (r.err ≡ some out_of_order)
        × (r.posts ≡ posts_from (size - 1) [] start rs)
        × (r.lister.count ≡ length rs)
  unfolding list_all new_lister list_finished
  list_all-out_of_order size start rs more bad o h =
      let l = new_lister size start in
      let e = from_new size start rs (bad ∷ more) o in
      let l' = after l rs in
      let other = λ (x : bad.times.name ≡ name_of l'.next). h (x ∙ ap name_of (next-after l rs)) in
      let stop = ap (λ st. go_on st (list_all st.lister more)) (refused l' bad other) in
      let f = e ∙ ap (posted_before (posts_from (size - 1) [] start rs)) stop in
      (
        ap (λ r. r.err) f,
        ap (λ r. r.posts) f ∙ append-nil (posts_from (size - 1) [] start rs),
        ap (λ r. r.lister.count) f ∙ count-after l rs ∙ omega arith,
      )
