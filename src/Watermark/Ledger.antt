-- ===== src/Watermark/Ledger.antt =====
-- The watermark against the Begins and Dones that `process` worked off, under any interleaving.
use pri_zzl_badger.Base.{
  ℕ, ◌≤◌, ◌<◌, ◌≡◌, refl, Bool, true, ◌&&◌, ◌||◌, none, some, List, [], ◌∷◌, inl, inr, arith, subst,
  ltb, leb, ◌==◌, NatMap, if◌then◌else◌, lookup, is_some, Bool-cases, Option-cases, eq_of_some,
  elem,
}
use pri_zzl_badger.Watermark.{
  Chan, Mark, WaterMark, or_zero, init, begin, begin_many, done, done_many, wait_for_mark,
  process_one, process_each, process_head, process_indices, process_mark, process_next,
  process_waiter, add_waiter, is_empty,
}
use pri_zzl_badger.Watermark.Heap.{Above, le_of_elem}
use pri_zzl_badger.Watermark.Progress.{
  IsValid, IsValid-init, IsValid-count, process_one-eq, process_one-Processed,
  process_head-Processed,
}
use pri_zzl_badger.Watermark.Runs.{
  Step, begins, begins_many, finishes, finishes_many, waits, processes, Reach, here, next,
  Reach-IsValid,
}
use pri_zzl_badger.Watermark.Counts
use pri_zzl_badger.Watermark.Counts.{Log, IsBracketed, IsCounted, settle-IsCounted}

-- What a mark that is worked off adds to the log: its index, if it has one, and its indices.
abbrev log_each : List ℕ → Bool → Log → Log
log_each [] done log = log
log_each (i ∷ is) done log = log_each is done ((i, done) ∷ log)

abbrev log_head : Mark → Log → Log
log_head m log =
    if ltb 0 m.index || m.index == 0 && is_empty m.indices then (m.index, m.done) ∷ log else log

abbrev log_mark : Mark → Log → Log
log_mark m log = elim m.waiter [ some ch ↦ log | none ↦ log_each m.indices m.done (log_head m log) ]

abbrev log_queue : List Mark → Log → Log
log_queue [] log = log
log_queue (m ∷ q) log = log_mark m log

abbrev log_step : {w u : WaterMark} → Step w u → Log → Log
log_step (begins i) log = log
log_step (begins_many is e) log = log
log_step (finishes i) log = log
log_step (finishes_many is) log = log
log_step (waits i ch) log = log
log_step {w} (processes e) log = log_queue w.mark_ch log

-- The log of a run.
abbrev pub log_of : {w u : WaterMark} → Reach w u → Log
log_of here = []
log_of (next r s) = log_step s (log_of r)

process_one-IsCounted :
    (i : ℕ) (done : Bool) (log : Log) (w u : WaterMark)
    → IsValid w
    → IsCounted log w
    → process_one i done w ≡ some u
    → IsCounted ((i, done) ∷ log) u
process_one-IsCounted i done log w u v c e =
    let (le, same) = process_one-eq i done w u e in
    subst (IsCounted ((i, done) ∷ log)) same
      (settle-IsCounted i done log w v (IsValid-count i done w v le) c)

process_each-IsCounted :
    (is : List ℕ) (done : Bool) (log : Log) (w u : WaterMark)
    → IsValid w
    → IsCounted log w
    → process_each is done w ≡ some u
    → IsCounted (log_each is done log) u
unfolding process_each
process_each-IsCounted [] done log w u v c e = subst (IsCounted log) (eq_of_some e) c
process_each-IsCounted (i ∷ is) done log w u v c e = elim (Option-cases (process_one i done w)) [
  | inl failed ↦ absurd (cc (rw (failed, process_each) at e))
  | inr (t, first) ↦
      process_each-IsCounted is done ((i, done) ∷ log) t u
        (process_one-Processed i done w t v first).valid
        (process_one-IsCounted i done log w t v c first) (rw (first, process_each) at e)
]

process_head-IsCounted :
    (m : Mark) (log : Log) (w u : WaterMark)
    → IsValid w
    → IsCounted log w
    → process_head m w ≡ some u
    → IsCounted (log_head m log) u
unfolding process_head
process_head-IsCounted m log w u v c e =
    elim (Bool-cases (ltb 0 m.index || m.index == 0 && is_empty m.indices)) [
      | inl one ↦ rw one (process_one-IsCounted m.index m.done log w u v c (rw one at e))
      | inr skip ↦ rw skip (subst (IsCounted log) (eq_of_some (rw skip at e)) c)
    ]

-- Neither the queue nor the waiters have part in the counts.
kept-IsCounted :
    (log : Log) (w : WaterMark) (l : ℕ) (q : List Mark) (ws : NatMap (List Chan)) (cl : List Chan)
    → IsCounted log w
    → IsCounted log (record w { last_index = l; mark_ch = q; waiters = ws; closed = cl })
kept-IsCounted log w l q ws cl c = record {
  at_least = c.at_least;
  at_most = c.at_most;
  met = c.met;
  head_open = c.head_open;
}

process_waiter-IsCounted :
    (index : ℕ) (ch : Chan) (log : Log) (w : WaterMark)
    → IsCounted log w
    → IsCounted log (process_waiter index ch w)
unfolding process_waiter add_waiter
process_waiter-IsCounted index ch log w c = elim (Bool-cases (leb index w.done_until)) [
  | inl low ↦ rw low (kept-IsCounted log w w.last_index w.mark_ch w.waiters _ c)
  | inr high ↦ rw high (kept-IsCounted log w w.last_index w.mark_ch _ w.closed c)
]

process_mark-IsCounted :
    (m : Mark) (log : Log) (w u : WaterMark)
    → IsValid w
    → IsCounted log w
    → process_mark m w ≡ some u
    → IsCounted (log_mark m log) u
unfolding process_mark process_indices
process_mark-IsCounted m log w u v c e = elim (Option-cases m.waiter) [
  | inr (ch, waiting) ↦ rw waiting (
      subst (IsCounted log) (eq_of_some (rw (waiting, process_mark) at e))
        (process_waiter-IsCounted m.index ch log w c))
  | inl plain ↦ elim (Option-cases (process_head m w)) [
    | inl failed ↦ absurd (cc (rw (plain, failed, process_mark, process_indices) at e))
    | inr (t, first) ↦ rw plain (
        process_each-IsCounted m.indices m.done (log_head m log) t u
          (process_head-Processed m w t v first).valid (process_head-IsCounted m log w t v c first)
          (rw (plain, first, process_mark, process_indices) at e))
  ]
]

process_next-IsCounted :
    (q : List Mark) (log : Log) (w u : WaterMark)
    → IsValid w
    → IsCounted log w
    → process_next (record w { mark_ch = q }) ≡ some u
    → IsCounted (log_queue q log) u
unfolding process_next
process_next-IsCounted [] log w u v c e =
    subst (IsCounted log) (eq_of_some e) (kept-IsCounted log w w.last_index [] w.waiters w.closed c)
process_next-IsCounted (m ∷ q) log w u v c e =
    process_mark-IsCounted m log (record w { mark_ch = q }) u
      (record { above = v.above; tracked = v.tracked; one_entry = v.one_entry; asleep = v.asleep })
      (kept-IsCounted log w w.last_index q w.waiters w.closed c) e

Step-IsCounted :
    {w u : WaterMark} (s : Step w u) (log : Log)
    → IsValid w
    → IsCounted log w
    → IsCounted (log_step s log) u
unfolding begin begin_many done done_many wait_for_mark
Step-IsCounted {w} (begins i) log v c = kept-IsCounted log w i _ w.waiters w.closed c
Step-IsCounted {w} (begins_many [] e) log v c = absurd (cc)
Step-IsCounted {w} (begins_many (i ∷ is) e) log v c =
    subst (IsCounted log) (eq_of_some e) (kept-IsCounted log w _ _ w.waiters w.closed c)
Step-IsCounted {w} (finishes i) log v c = kept-IsCounted log w w.last_index _ w.waiters w.closed c
Step-IsCounted {w} (finishes_many is) log v c =
    kept-IsCounted log w w.last_index _ w.waiters w.closed c
Step-IsCounted {w} (waits i ch) log v c = elim (Bool-cases (leb i w.done_until)) [
  | inl passed ↦ rw passed c
  | inr ahead ↦ rw ahead (kept-IsCounted log w w.last_index _ w.waiters w.closed c)
]
Step-IsCounted {w} {u} (processes e) log v c = process_next-IsCounted w.mark_ch log w u v c e

IsCounted-init : IsCounted [] init
unfolding lookup Counts.begins Counts.dones
IsCounted-init = record {
  at_least = λ j. omega arith;
  at_most = λ b j. omega arith;
  met = λ j h. absurd (omega arith);
  head_open = λ m r e. absurd (cc);
}

Reach-IsCounted : {u : WaterMark} (r : Reach init u) → IsCounted (log_of r) u
Reach-IsCounted here = IsCounted-init
Reach-IsCounted (next r s) =
    Step-IsCounted s (log_of r) (Reach-IsValid IsValid-init r).0 (Reach-IsCounted r)

-- Whatever the callers did since Init: an index of which `process` has worked off more Begins than
-- Dones is not below the mark, and a channel sleeps only at an index above the mark.
pub begun_not_passed :
    (w : WaterMark) (r : Reach init w)
    → ((j : ℕ) → Counts.dones j (log_of r) < Counts.begins j (log_of r) → w.done_until ≤ j)
      × ((j : ℕ) → is_some (lookup j w.waiters) ≡ true → w.done_until < j)
begun_not_passed w r =
    let v = (Reach-IsValid IsValid-init r).0 in
    let c = Reach-IsCounted r in
    (
      λ j more.
          let open_ =
            Counts.is_positive-AtLeast (or_zero (lookup j w.pending)) _ _ (c.at_least j) more in
          le_of_elem w.done_until j w.heap v.above (v.tracked j (ground (arith, open_))),
      v.asleep,
    )

-- Liveness of the mark, where no Done was worked off before its Begin: an index that was begun, of
-- which as of every index below it `process` has worked off as many Dones as Begins, lies at or
-- below the mark.
pub finished_passed :
    (w : WaterMark) (r : Reach init w) (j : ℕ)
    → IsBracketed (log_of r)
    → 0 < Counts.begins j (log_of r)
    → ((k : ℕ) → k ≤ j → Counts.begins k (log_of r) ≤ Counts.dones k (log_of r))
    → j ≤ w.done_until
finished_passed w r j b begun even =
    let v = (Reach-IsValid IsValid-init r).0 in
    let c = Reach-IsCounted r in
    elim (c.met j begun) [ inl low ↦ low | inr inside ↦ absurd (head_is_open w.heap refl inside) ]
  where
    head_is_open : (h : List ℕ) → w.heap ≡ h → elem j h ≡ true → ⊥
    head_is_open [] e inside = absurd (cc)
    head_is_open (m ∷ rest) e inside =
        let v = (Reach-IsValid IsValid-init r).0 in
        let c = Reach-IsCounted r in
        let low : m ≤ j =
          le_of_elem m j (m ∷ rest) (omega arith, (subst (Above w.done_until) e v.above).1)
            inside in
        let more =
          Counts.AtMost-positive (or_zero (lookup m w.pending)) _ _ (c.at_most b m)
            (c.head_open m rest e) in
        absurd (omega (arith, more, even m low))
