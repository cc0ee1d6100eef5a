-- ===== src/Cache/Kept.antt =====
-- A segment that was put is what Segment answers from then on.
use clusterplex.Prelude.{
  Bool-cases, ℕ, ◌≡◌, refl, sym, ap, subst, ◌∙◌, Bool, true, false, Option, none, some, [], ◌∷◌,
  ◌++◌, ◌==◌, ==_refl, length, arith, Option-cases, ◌⊎◌, inl, inr, ℤ, int_eq, int_beq_iff,
}
use clusterplex.Dict.{Dict, lookup, insert, has, lookup-insert}
use clusterplex.Cache.{
  Span, Index, holds, Segment, Entry, Append, written, failed_after, done, append_to, read_at, save,
  failed, Opening, load, open_entry, Inits, inits, same_inits, empty_index, touched, opened,
  marked_loaded,
}
use clusterplex.Cache.Writes.{
  append_both, Faults, set_init, record_of, Found, missing, unreadable, found, read_both,
  read_record, segment_at, segment, put, put_written, set_last, used_at,
}
use clusterplex.Cache.Spans.{read_at-append_to}
use clusterplex.Cache.Entries.{
  Grows, Reads, IsKept, append_both-Grows, append_both-keeps, save-IsKept, saved-IsKept,
  grown-IsKept, unchanged,
}

lookup-has : {V : Type 0} (n : ℤ) (v : V) (m : Dict ℤ V) → lookup n m ≡ some v → has n m ≡ true
unfolding lookup has
lookup-has n v [] e = absurd (ground (arith, e))
lookup-has n v ((j, w) ∷ m) e = ground (arith, e, lookup-has n v m)

Reads-has : (n : ℤ) (s : Segment) (e : Entry) → Reads n s e e.idx → has n e.idx.segments ≡ true
Reads-has n s e r = elim (Option-cases (lookup n e.idx.segments)) [
  | inl gone ↦ absurd (ground (arith, sym (ap (read_record e n) gone) ∙ r))
  | inr (x, held) ↦ lookup-has n x e.idx.segments held
]

-- The entry after the appends of a put, whose segment it did not hold.
put_written-IsKept :
    (saves : Bool) (now : ℕ) (s x : Segment) (n : ℤ) (e g : Entry) (spans : Option (Span × Span))
    → Grows e g
    → g.idx ≡ e.idx
    → g.saved ≡ e.saved
    → has x.n e.idx.segments ≡ false
    → IsKept n s e
    → IsKept n s (put_written saves now x (g, spans)).0
put_written-IsKept saves now s x n e g none grows same disk fresh k =
    grown-IsKept n s e g grows (ap (λ i. lookup n i.segments) same) disk k
put_written-IsKept saves now s x n e g (some (vs, as_)) grows same disk fresh k =
    let other : (x.n == n) ≡ false =
      ground (arith, Reads-has n s e k.in_memory, fresh, int_beq_iff x.n n) in
    let stays : lookup n (insert x.n (record_of x vs as_) g.idx.segments)
        ≡ lookup n e.idx.segments =
      ground (
        arith,
        lookup-insert x.n n (record_of x vs as_) g.idx.segments,
        other,
        ap (λ i. lookup n i.segments) same,
      ) in
    save-IsKept saves n s _ (grown-IsKept n s e _ grows stays disk k)

put-ways :
    (max : ℤ) (f : Faults) (now : ℕ) (x : Segment) (e : Entry)
    → ((put max f now x e).0 ≡ e)
      ⊎ (has x.n e.idx.segments ≡ false)
        × (put max f now x e
            ≡ put_written f.saves now x
                (append_both f.video f.audio x.video.data_bytes x.audio.data_bytes e))
unfolding put
put-ways max f now x e = ground arith

put-IsKept :
    (max : ℤ) (f : Faults) (now : ℕ) (x s : Segment) (n : ℤ) (e : Entry)
    → IsKept n s e
    → IsKept n s (put max f now x e).0
put-IsKept max f now x s n e k = elim (put-ways max f now x e) [
  | inl same ↦ subst (IsKept n s) (sym same) k
  | inr (fresh, wrote) ↦
      let appended = append_both f.video f.audio x.video.data_bytes x.audio.data_bytes e in
      let keeps = append_both-keeps f.video f.audio x.video.data_bytes x.audio.data_bytes e in
      let grows = append_both-Grows f.video f.audio x.video.data_bytes x.audio.data_bytes e in
      subst (λ r. IsKept n s r.0) (sym wrote)
        (put_written-IsKept f.saves now s x n e appended.0 appended.1 grows keeps.0 keeps.1 fresh k)
]

reads_new :
    (g : Entry) (s : Segment) (vs as_ : Span)
    → read_at g.video vs ≡ some s.video.data_bytes
    → read_at g.audio as_ ≡ some s.audio.data_bytes
    → read_record g s.n (some (record_of s vs as_)) ≡ found s
reads_new g s vs as_ video audio =
    ap (λ o. read_both s.n (record_of s vs as_) o (read_at g.audio as_)) video
    ∙ ap (λ o. read_both s.n (record_of s vs as_) (some s.video.data_bytes) o) audio

lookup_inserted : {V : Type 0} (n : ℤ) (v : V) (m : Dict ℤ V) → lookup n (insert n v m) ≡ some v
lookup_inserted n v m = ground (arith, lookup-insert n n v m, ==_refl n)

-- The segment that a successful put recorded reads back.
written-IsKept :
    (wv wa : Append) (saves : Bool) (now : ℕ) (s : Segment) (e : Entry)
    → (put_written saves now s (append_both wv wa s.video.data_bytes s.audio.data_bytes e)).1 ≡ done
    → IsKept s.n s
        (put_written saves now s (append_both wv wa s.video.data_bytes s.audio.data_bytes e)).0
unfolding append_both append_to save
written-IsKept written written true now s e d =
    let vs : Span = record { off = length e.video; len = length s.video.data_bytes } in
    let as_ : Span = record { off = length e.audio; len = length s.audio.data_bytes } in
    let g : Entry = record e {
      video = e.video ++ s.video.data_bytes;
      audio = e.audio ++ s.audio.data_bytes;
    } in
    let video = read_at-append_to e.video s.video.data_bytes in
    let audio = read_at-append_to e.audio s.audio.data_bytes in
    let h : Entry = record g {
      idx = record (e.idx) {
        segments = insert s.n (record_of s vs as_) e.idx.segments;
        used = now;
      };
    } in
    saved-IsKept s.n s h (
      ap (read_record h s.n) (lookup_inserted s.n (record_of s vs as_) e.idx.segments)
      ∙ reads_new h s vs as_ video audio)
written-IsKept written written false now s e d = absurd (ground (arith, d))
written-IsKept written (failed_after k) saves now s e d = absurd (ground (arith, d))
written-IsKept (failed_after k) wa saves now s e d = absurd (ground (arith, d))

put-written :
    (max : ℤ) (f : Faults) (now : ℕ) (s : Segment) (e : Entry)
    → (put max f now s e).1 ≡ done
    → has s.n e.idx.segments ≡ false
    → put max f now s e
      ≡ put_written f.saves now s
          (append_both f.video f.audio s.video.data_bytes s.audio.data_bytes e)
unfolding put
put-written max f now s e d fresh = ground (arith, d, fresh)

put-done :
    (max : ℤ) (f : Faults) (now : ℕ) (s : Segment) (e : Entry)
    → (put max f now s e).1 ≡ done
    → has s.n e.idx.segments ≡ false
    → IsKept s.n s (put max f now s e).0
put-done max f now s e d fresh =
    let written_so = put-written max f now s e d fresh in
    subst (λ r. IsKept s.n s r.0) (sym written_so)
      (written-IsKept f.video f.audio f.saves now s e (sym (ap (λ r. r.1) written_so) ∙ d))

-- A restarted worker: nothing is in memory.
abbrev pub restarted : Entry → Entry
restarted e = record e { idx = empty_index 0; loaded = false }

-- What can happen to an entry while its inits stay: puts of other segments and of the same, reads,
-- the last segment's number, the same inits again, another job's Open, and a restart with the first Open after it that reads the index.
pub data Step (max : ℤ) : Entry → Entry → Type 0 where
  putting : {e : Entry} (f : Faults) (now : ℕ) (s : Segment) → Step max e (put max f now s e).0
  reading : {e : Entry} (now : ℕ) (n : ℤ) → Step max e (segment now n e).0
  noting_last : {e : Entry} (saves : Bool) (n : ℤ) → Step max e (set_last saves n e).0
  setting_init :
      {e : Entry} (f : Faults) (now : ℕ) (i : Inits)
      → e.idx.has_init ≡ true
      → same_inits e.idx.timescales (inits e) i ≡ true
      → Step max e (set_init f now i e).0
  opening :
      {e : Entry} (o : Opening) (now : ℕ) → e.loaded ≡ true → Step max e (open_entry o now e).0
  restarting :
      {e : Entry} (o : Opening) (now : ℕ)
      → o.makes ≡ true
      → o.reads ≡ true
      → Step max e (open_entry o now (restarted e)).0

pub data Steps (max : ℤ) : Entry → Entry → Type 0 where
  none_left : {e : Entry} → Steps max e e
  then_more : {e f g : Entry} → Step max e f → Steps max f g → Steps max e g

same_files : (e : Entry) → Grows e e
same_files e = (unchanged e.video, unchanged e.audio)

used_at-IsKept :
    (now : ℕ) (n : ℤ) (s : Segment) (e : Entry) (r : Found)
    → IsKept n s e
    → IsKept n s (used_at now e r)
used_at-IsKept now n s e missing k = k
used_at-IsKept now n s e unreadable k = k
used_at-IsKept now n s e (found x) k = grown-IsKept n s e _ (same_files e) refl refl k

pub set_init-same :
    (f : Faults) (now : ℕ) (i : Inits) (e : Entry)
    → e.idx.has_init ≡ true
    → same_inits e.idx.timescales (inits e) i ≡ true
    → set_init f now i e ≡ save f.saves (record e { idx = record (e.idx) { info = i.info } })
unfolding set_init
set_init-same f now i e has_one same = ground (arith, has_one, same)

open-loaded :
    (o : Opening) (now : ℕ) (e : Entry)
    → e.loaded ≡ true
    → o.makes ≡ true
    → open_entry o now e ≡ save o.saves (touched now e)
unfolding open_entry
open-loaded o now e ready made = ground (arith, ready, made)

open-no_directory :
    (o : Opening) (now : ℕ) (e : Entry) → o.makes ≡ false → open_entry o now e ≡ (e, failed)
unfolding open_entry
open-no_directory o now e none_made = ground (arith, none_made)

abbrev reopened : ℕ → Entry → Index → Entry
reopened now e i = record e { idx = record i { used = now }; loaded = true }

open-restarted :
    (o : Opening) (now : ℕ) (e : Entry) (i : Index)
    → o.makes ≡ true
    → o.reads ≡ true
    → e.saved ≡ holds i
    → open_entry o now (restarted e) ≡ save o.saves (reopened now e i)
unfolding open_entry load
open-restarted o now e i made readable held =
    rw (open_entry, made)
      (ap (λ b. opened o.saves now (marked_loaded (load b o.removed now e.saved (restarted e))))
          readable
        ∙ ap (λ x. opened o.saves now (marked_loaded (load true o.removed now x (restarted e))))
            held)

Step-IsKept :
    {max : ℤ} {e f : Entry} (n : ℤ) (s : Segment) → Step max e f → IsKept n s e → IsKept n s f
unfolding segment set_last set_init open_entry load
Step-IsKept {max} {e} n s (putting f now x) k = put-IsKept max f now x s n e k
Step-IsKept {e = e} n s (reading now m) k = used_at-IsKept now n s e (segment_at m e) k
Step-IsKept {e = e} n s (noting_last saves m) k =
    save-IsKept saves n s _ (grown-IsKept n s e _ (same_files e) refl refl k)
Step-IsKept {e = e} n s (setting_init f now i has_one same) k =
    subst (λ r. IsKept n s r.0) (sym (set_init-same f now i e has_one same))
      (save-IsKept f.saves n s _ (grown-IsKept n s e _ (same_files e) refl refl k))
Step-IsKept {e = e} n s (opening o now ready) k = elim (Bool-cases o.makes) [
  | inl made ↦
      subst (λ r. IsKept n s r.0) (sym (open-loaded o now e ready made))
        (save-IsKept o.saves n s _ (grown-IsKept n s e _ (same_files e) refl refl k))
  | inr none_made ↦ subst (λ r. IsKept n s r.0) (sym (open-no_directory o now e none_made)) k
]
Step-IsKept {e = e} n s (restarting o now made readable) k =
    let (i, held, reads) = k.on_disk in
    subst (λ x. IsKept n s x.0) (sym (open-restarted o now e i made readable held))
      (save-IsKept o.saves n s (reopened now e i)
        (record { in_memory = reads; on_disk = (i, held, reads) }))

Steps-IsKept :
    {max : ℤ} {e f : Entry} (n : ℤ) (s : Segment) → Steps max e f → IsKept n s e → IsKept n s f
Steps-IsKept n s none_left k = k
Steps-IsKept n s (then_more d ds) k = Steps-IsKept n s ds (Step-IsKept n s d k)

-- Once Put has stored a segment that the entry did not hold, Segment answers exactly that segment,
-- whatever puts, failed appends and saves, reads, Opens and restarts follow (a restart with the first
-- Open after it that reads the index), while no other inits are set.
pub put_kept :
    (max : ℤ) (f : Faults) (now : ℕ) (s : Segment) (e after : Entry)
    → has s.n e.idx.segments ≡ false
    → (put max f now s e).1 ≡ done
    → Steps max (put max f now s e).0 after
    → segment_at s.n after ≡ found s
unfolding segment_at
put_kept max f now s e after fresh d steps =
    let kept = Steps-IsKept s.n s steps (put-done max f now s e d fresh) in kept.in_memory
