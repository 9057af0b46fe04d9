-- ===== src/Watermark/Bounds.antt =====
-- Indices below a bound: the mark never passes the indices that it was told of.
use pri_zzl_badger.Base.{
  ℕ, ◌<◌, ◌≤◌, ◌≡◌, refl, subst, Bool, some, List, [], ◌∷◌, inl, inr, arith, Bool-cases,
  Option-cases, NatMap, lookup, remove, All, All-append, All-mono, eq_of_some, ltb, leb,
}
use pri_zzl_badger.Base.Int.{ℤ, is_positive}
use pri_zzl_badger.Watermark.{
  Chan, Mark, WaterMark, or_zero, heap_push, advance, count, settle, process_one, process_each,
  process_waiter, add_waiter, process_head, process_indices, process_mark, process_next, begin,
  done,
}

pub record MarkBelow (n : ℕ) (m : Mark) : Type 0 where
  pub index : m.index < n
  pub indices : All (λ i. i < n) m.indices

pub record Below (n : ℕ) (w : WaterMark) : Type 0 where
  pub mark : w.done_until < n
  pub heap : All (λ i. i < n) w.heap
  pub queue : All (MarkBelow n) w.mark_ch

heap_push-All :
    (n x : ℕ) (xs : List ℕ) → x < n → All (λ i. i < n) xs → All (λ i. i < n) (heap_push x xs)
unfolding heap_push
heap_push-All n x [] h a = (h, tt)
heap_push-All n x (y ∷ ys) h a = ground (arith, heap_push-All n x ys h a.1)

advance-All :
    (n until : ℕ) (pending : NatMap ℤ) (heap : List ℕ)
    → until < n
    → All (λ i. i < n) heap
    → ((advance until pending heap).until < n) × All (λ i. i < n) (advance until pending heap).heap
unfolding advance
advance-All n until pending [] h a = (h, tt)
advance-All n until pending (min ∷ rest) h a =
    let popped = advance-All n min (remove min pending) rest a.0 a.1 in
    elim (Bool-cases (is_positive (or_zero (lookup min pending)))) [
      | inl busy ↦ rw busy (h, a)
      | inr free ↦ rw free popped
    ]

count-Below :
    (n index : ℕ) (d : Bool) (w : WaterMark) → index < n → Below n w → Below n (count index d w)
unfolding count
count-Below n index d w h b = record {
  mark = b.mark;
  heap = ground (arith, heap_push-All n index w.heap h b.heap, b.heap);
  queue = b.queue;
}

settle-Below : (n : ℕ) (w : WaterMark) → Below n w → Below n (settle w)
unfolding settle
settle-Below n w b =
    let a = advance-All n w.done_until w.pending w.heap b.mark b.heap in
    record { mark = a.0; heap = a.1; queue = b.queue }

process_one-Below :
    (n index : ℕ) (d : Bool) (w u : WaterMark)
    → index < n
    → Below n w
    → process_one index d w ≡ some u
    → Below n u
unfolding process_one
process_one-Below n index d w u h b e = elim (Bool-cases (ltb index w.done_until)) [
  | inl low ↦ absurd (cc (rw low at e))
  | inr fine ↦
      subst (Below n) (eq_of_some (rw fine at e))
        (settle-Below n (count index d w) (count-Below n index d w h b))
]

process_each-Below :
    (n : ℕ) (is : List ℕ) (d : Bool) (w u : WaterMark)
    → All (λ i. i < n) is
    → Below n w
    → process_each is d w ≡ some u
    → Below n u
unfolding process_each
process_each-Below n [] d w u a b e = subst (Below n) (eq_of_some e) b
process_each-Below n (i ∷ is) d w u a b e = elim (Option-cases (process_one i d w)) [
  | inl failed ↦ absurd (cc (rw (failed, process_each) at e))
  | inr (v, at) ↦
      process_each-Below n is d v u a.1 (process_one-Below n i d w v a.0 b at)
        (rw (at, process_each) at e)
]

process_head-Below :
    (n : ℕ) (m : Mark) (w u : WaterMark)
    → MarkBelow n m
    → Below n w
    → process_head m w ≡ some u
    → Below n u
unfolding process_head
process_head-Below n m w u mb b e =
    ground (arith, process_one-Below n m.index m.done w u mb.index b, b)

process_indices-Below :
    (n : ℕ) (m : Mark) (w u : WaterMark)
    → MarkBelow n m
    → Below n w
    → process_indices m w ≡ some u
    → Below n u
unfolding process_indices
process_indices-Below n m w u mb b e = elim (Option-cases (process_head m w)) [
  | inl failed ↦ absurd (cc (rw (failed, process_indices) at e))
  | inr (v, at) ↦
      process_each-Below n m.indices m.done v u mb.indices (process_head-Below n m w v mb b at)
        (rw (at, process_indices) at e)
]

process_waiter-Below :
    (n index : ℕ) (ch : Chan) (w : WaterMark) → Below n w → Below n (process_waiter index ch w)
unfolding process_waiter add_waiter
process_waiter-Below n index ch w b = elim (Bool-cases (leb index w.done_until)) [
  | inl passed ↦ rw passed (record { mark = b.mark; heap = b.heap; queue = b.queue })
  | inr ahead ↦ rw ahead (record { mark = b.mark; heap = b.heap; queue = b.queue })
]

process_mark-Below :
    (n : ℕ) (m : Mark) (w u : WaterMark)
    → MarkBelow n m
    → Below n w
    → process_mark m w ≡ some u
    → Below n u
unfolding process_mark
process_mark-Below n m w u mb b e = elim (Option-cases m.waiter) [
  | inl nobody ↦ process_indices-Below n m w u mb b (rw (nobody, process_mark) at e)
  | inr (ch, at) ↦
      subst (Below n) (eq_of_some (rw (at, process_mark) at e))
        (process_waiter-Below n m.index ch w b)
]

pub process_next-Below : (n : ℕ) (w u : WaterMark) → Below n w → process_next w ≡ some u → Below n u
unfolding process_next
process_next-Below n w u b e = go w.mark_ch refl
  where
    go : (q : List Mark) → w.mark_ch ≡ q → Below n u
    go [] p = subst (Below n) (eq_of_some (rw (p, process_next) at e)) b
    go (m ∷ rest) p =
        let queue = subst (All (MarkBelow n)) p b.queue in
        process_mark-Below n m (record w { mark_ch = rest }) u queue.0
          (record { mark = b.mark; heap = b.heap; queue = queue.1 }) (rw (p, process_next) at e)

pub begin-Below : (n i : ℕ) (w : WaterMark) → i < n → Below n w → Below n (begin i w)
unfolding begin
begin-Below n i w h b = record {
  mark = b.mark;
  heap = b.heap;
  queue = All-append (MarkBelow n) w.mark_ch _ b.queue (record { index = h; indices = tt }, tt);
}

pub done-Below : (n i : ℕ) (w : WaterMark) → i < n → Below n w → Below n (done i w)
unfolding done
done-Below n i w h b = record {
  mark = b.mark;
  heap = b.heap;
  queue = All-append (MarkBelow n) w.mark_ch _ b.queue (record { index = h; indices = tt }, tt);
}

-- A higher bound holds as well.
pub Below-mono : (m n : ℕ) (w : WaterMark) → m ≤ n → Below m w → Below n w
Below-mono m n w h b = record {
  mark = omega (arith, b.mark);
  heap = All-mono (λ i. i < m) (λ i. i < n) (λ i lt. omega arith) w.heap b.heap;
  queue =
      All-mono (MarkBelow m) (MarkBelow n)
        (λ k mb. record {
          index = omega (arith, mb.index);
          indices = All-mono (λ i. i < m) (λ i. i < n) (λ i lt. omega arith) k.indices mb.indices;
        })
        w.mark_ch b.queue;
}
