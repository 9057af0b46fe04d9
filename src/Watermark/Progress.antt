-- ===== src/Watermark/Progress.antt =====
-- What holds of a watermark after any marks: the mark only grows, the heap has all counted indices,
-- and a waiter sleeps only above the mark.
use pri_zzl_badger.Base.{
  ℕ, ◌≤◌, ◌<◌, ◌≡◌, refl, Bool, true, ◌||◌, ◌&&◌, Option, some, List, [], ◌∷◌, inl, inr, arith,
  subst, ◌∙◌, Option-cases, ltb, leb, ◌==◌, if◌then◌else◌, lookup, is_some, IsMap, insert-IsMap,
  lookup-insert, elem, Bool-cases,
}
use pri_zzl_badger.Base.Int.{ℤ, suc_ℤ, pred_ℤ}
use pri_zzl_badger.Watermark.{
  Chan, Mark, WaterMark, or_zero, count, settle, process_one, process_each, process_mark,
  add_waiter, joined, is_empty, process_waiter, process_head, process_indices, done, init,
}
use pri_zzl_badger.Watermark.Heap.{
  Above, Tracked, Above-heap_push, elem-heap_push, Advanced, advance-Advanced,
}
use pri_zzl_badger.Watermark.Wake.{Woken, notify-Woken}

pub record IsValid (w : WaterMark) : Type 0 where
  pub above : Above w.done_until w.heap
  pub tracked : Tracked w.pending w.heap
  pub one_entry : IsMap w.waiters
  pub asleep : (j : ℕ) → is_some (lookup j w.waiters) ≡ true → w.done_until < j

pub IsValid-init : IsValid init
unfolding lookup
IsValid-init = record { above = tt; tracked = λ j e. cc; one_entry = tt; asleep = λ j e. cc }

-- The new count of an index.
abbrev recount : Bool → Option ℤ → ℤ
recount done prev = if done then pred_ℤ (or_zero prev) else suc_ℤ (or_zero prev)

pub IsValid-count :
    (index : ℕ) (done : Bool) (w : WaterMark)
    → IsValid w
    → w.done_until ≤ index
    → IsValid (count index done w)
unfolding count
IsValid-count index done w v le = record {
  above = ground (arith, Above-heap_push w.done_until index w.heap, v.above);
  tracked = λ j. ground (
    arith,
    elem-heap_push j index w.heap,
    v.tracked j,
    v.tracked index,
    lookup-insert index j (recount done (lookup index w.pending)) w.pending,
  );
  one_entry = v.one_entry;
  asleep = v.asleep;
}

-- The state that `settle` leaves, part by part.
record Settled (w w' : WaterMark) : Type 0 where
  advanced :
      Advanced w.done_until (record { until = w'.done_until; pending = w'.pending; heap = w'.heap })
  woken :
      Woken
        (λ j. leb j w'.done_until)
        (record { waiters = w.waiters; closed = w.closed })
        (record { waiters = w'.waiters; closed = w'.closed })

settle-Settled : (w : WaterMark) → IsValid w → Settled w (settle w)
unfolding settle
settle-Settled w v =
    let a = advance-Advanced w.done_until w.pending w.heap v.above v.tracked in
    record { advanced = a; woken = notify-Woken w.done_until _ _ v.one_entry a.grows v.asleep }

IsValid-settle : (w : WaterMark) → IsValid w → IsValid (settle w)
IsValid-settle w v =
    let s = settle-Settled w v in
    record {
      above = s.advanced.above;
      tracked = s.advanced.tracked;
      one_entry = s.woken.mapped v.one_entry;
      asleep = λ j e. ground (arith, s.woken.lookups j);
    }

-- What one processed mark does to a valid state: it stays valid, the mark does not fall, and of
-- the sleeping channels exactly those at indices up to the new mark are closed and gone.
pub record Processed (w w' : WaterMark) : Type 0 where
  pub valid : IsValid w'
  pub grows : w.done_until ≤ w'.done_until
  pub queue : w'.mark_ch ≡ w.mark_ch
  pub wakes :
      (j : ℕ) (chans : List Chan) (ch : Chan)
      → lookup j w.waiters ≡ some chans
      → elem ch chans ≡ true
      → j ≤ w'.done_until
      → elem ch w'.closed ≡ true
  pub sleeps :
      (j : ℕ) (chans : List Chan)
      → lookup j w.waiters ≡ some chans
      → w'.done_until < j
      → lookup j w'.waiters ≡ some chans
  pub closed_stays : (ch : Chan) → elem ch w.closed ≡ true → elem ch w'.closed ≡ true

pub process_one-eq :
    (index : ℕ) (done : Bool) (w w' : WaterMark)
    → process_one index done w ≡ some w'
    → (w.done_until ≤ index) × (settle (count index done w) ≡ w')
unfolding process_one
process_one-eq index done w w' e = elim (Bool-cases (ltb index w.done_until)) [
  | inl low ↦ absurd (cc (rw low at e))
  | inr high ↦ (ground arith, cc (rw high at e))
]

settle-Processed :
    (index : ℕ) (done : Bool) (w : WaterMark)
    → IsValid w
    → w.done_until ≤ index
    → Processed w (settle (count index done w))
settle-Processed index done w v le =
    let c = IsValid-count index done w v le in
    let s = settle-Settled (count index done w) c in
    unfold count in
    record {
      valid = IsValid-settle (count index done w) c;
      grows = s.advanced.grows;
      queue = unfold settle in refl;
      wakes = λ j chans ch l e le'. s.woken.woken j chans ch l (ground arith) e;
      sleeps = λ j chans l lt. ground (arith, s.woken.lookups j);
      closed_stays = λ ch e. s.woken.keeps ch e;
    }

pub process_one-Processed :
    (index : ℕ) (done : Bool) (w w' : WaterMark)
    → IsValid w
    → process_one index done w ≡ some w'
    → Processed w w'
process_one-Processed index done w w' v e =
    let (le, same) = process_one-eq index done w w' e in
    subst (Processed w) same (settle-Processed index done w v le)

Processed-refl : (w : WaterMark) → IsValid w → Processed w w
Processed-refl w v = record {
  valid = v;
  grows = omega arith;
  queue = refl;
  wakes = λ j chans ch l e le. absurd (ground (arith, v.asleep j));
  sleeps = λ j chans l lt. l;
  closed_stays = λ ch e. e;
}

Processed-trans : (a b c : WaterMark) → Processed a b → Processed b c → Processed a c
Processed-trans a b c f g = record {
  valid = g.valid;
  grows = omega (arith, f.grows, g.grows);
  queue = g.queue ∙ f.queue;
  wakes = λ j chans ch l e le. elim (Bool-cases (leb j b.done_until)) [
    | inl early ↦ g.closed_stays ch (f.wakes j chans ch l e (ground arith))
    | inr late ↦ g.wakes j chans ch (f.sleeps j chans l (ground arith)) e le
  ];
  sleeps = λ j chans l lt. g.sleeps j chans (f.sleeps j chans l (omega (arith, g.grows))) lt;
  closed_stays = λ ch e. g.closed_stays ch (f.closed_stays ch e);
}

pub process_each-Processed :
    (indices : List ℕ) (done : Bool) (w w' : WaterMark)
    → IsValid w
    → process_each indices done w ≡ some w'
    → Processed w w'
unfolding process_each
process_each-Processed [] done w w' v e = subst (Processed w) (cc) (Processed-refl w v)
process_each-Processed (i ∷ is) done w w' v e = elim (Option-cases (process_one i done w)) [
  | inl failed ↦ absurd (cc (rw (failed, process_each) at e))
  | inr (u, first) ↦
      let f = process_one-Processed i done w u v first in
      Processed-trans w u w' f
        (process_each-Processed is done u w' f.valid (rw (first, process_each) at e))
]

add_waiter-IsValid :
    (index : ℕ) (ch : Chan) (w : WaterMark)
    → IsValid w
    → w.done_until < index
    → IsValid (add_waiter index ch w)
unfolding add_waiter
add_waiter-IsValid index ch w v lt =
    let chans = joined (lookup index w.waiters) ch in
    record {
      above = v.above;
      tracked = v.tracked;
      one_entry = insert-IsMap index chans w.waiters v.one_entry;
      asleep = λ j. ground (arith, v.asleep j, lookup-insert index j chans w.waiters);
    }

pub process_head-Processed :
    (m : Mark) (w w' : WaterMark) → IsValid w → process_head m w ≡ some w' → Processed w w'
unfolding process_head
process_head-Processed m w w' v e =
    elim (Bool-cases (ltb 0 m.index || m.index == 0 && is_empty m.indices)) [
      | inl one ↦ process_one-Processed m.index m.done w w' v (rw one at e)
      | inr skip ↦ subst (Processed w) (cc (rw skip at e)) (Processed-refl w v)
    ]

-- A mark without a waiter, worked off from a state with the invariant, when no assertion fails: the
-- invariant stays, the mark does not fall, the queue is left alone, every channel that waits at an
-- index up to the new mark is closed, those above it wait on, and no closed channel is forgotten.
pub process_indices-Processed :
    (m : Mark) (w w' : WaterMark) → IsValid w → process_indices m w ≡ some w' → Processed w w'
unfolding process_indices
process_indices-Processed m w w' v e = elim (Option-cases (process_head m w)) [
  | inl failed ↦ absurd (cc (rw (failed, process_indices) at e))
  | inr (u, first) ↦
      let f = process_head-Processed m w u v first in
      Processed-trans w u w' f
        (process_each-Processed m.indices m.done u w' f.valid (rw (first, process_indices) at e))
]

process_waiter-IsValid :
    (index : ℕ) (ch : Chan) (w : WaterMark) → IsValid w → IsValid (process_waiter index ch w)
unfolding process_waiter
process_waiter-IsValid index ch w v = elim (Bool-cases (leb index w.done_until)) [
  | inl passed ↦
      rw passed (record {
        above = v.above;
        tracked = v.tracked;
        one_entry = v.one_entry;
        asleep = v.asleep;
      })
  | inr ahead ↦ rw ahead (add_waiter-IsValid index ch w v (ground arith))
]

-- Whatever the mark, a round that ends keeps the invariant, and the mark does not fall.
pub process_mark-IsValid :
    (m : Mark) (w w' : WaterMark)
    → IsValid w
    → process_mark m w ≡ some w'
    → IsValid w' × (w.done_until ≤ w'.done_until)
unfolding process_mark
process_mark-IsValid m w w' v e = elim (Option-cases m.waiter) [
  | inl plain ↦
      let p = process_indices-Processed m w w' v (rw (plain, process_mark) at e) in
      (p.valid, p.grows)
  | inr (ch, waits) ↦
      subst (λ u. IsValid u × (w.done_until ≤ u.done_until)) (cc (rw (waits, process_mark) at e))
        (process_waiter-IsValid m.index ch w v, unfold process_waiter add_waiter in ground arith)
]
