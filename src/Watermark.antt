-- ===== src/Watermark.antt =====
-- y/watermark.go: the watermark of begun and finished indices. The goroutine `process` owns the
-- heap, the pending counts and the waiters; a value sent on `markCh` is a `Mark`.
mod Heap
mod Wake
pub mod Progress
pub mod Counts
pub mod Runs
pub mod Ledger
pub mod Bounds
mod Examples
use pri_zzl_badger.Base.{
  ℕ, zero, suc, ◌+◌, ◌-◌, ◌%◌, ◌^◌, ◌≡◌, Bool, true, false, ◌&&◌, ◌||◌, Option, none, some, List,
  [], ◌∷◌, ◌++◌, ltb, leb, ◌==◌, if◌then◌else◌, length, NatMap, lookup, insert, remove,
}
use pri_zzl_badger.Base.Int.{ℤ, pos, suc_ℤ, pred_ℤ, is_positive}

-- A channel that `WaitForMark` blocks on, by its identity.
abbrev pub Chan : Type 0
Chan = ℕ

-- `waiter` is nil in all marks but those that `WaitForMark` sends.
pub record Mark : Type 0 where
  pub index : ℕ
  pub waiter : Option Chan
  pub indices : List ℕ
  pub done : Bool

-- The two atomic fields, the channel's queue, and the variables of `process`. `heap` holds the
-- heap's items in the order in which `heap.Pop` returns them, so `heap[0]` is its head; `closed`
-- holds the channels closed so far.
pub record WaterMark : Type 0 where
  pub done_until : ℕ
  pub last_index : ℕ
  pub mark_ch : List Mark
  pub heap : List ℕ
  pub pending : NatMap ℤ
  pub waiters : NatMap (List Chan)
  pub closed : List Chan

-- Begin, BeginMany, Done, DoneMany: what they send, and the stored last index.
unfoldable pub begin : ℕ → WaterMark → WaterMark
begin index w = record w {
  last_index = index;
  mark_ch = w.mark_ch ++ (record { index = index; waiter = none; indices = []; done = false } ∷ []);
}

-- `indices[len(indices)-1]`; the code faults on an empty slice.
pub last_of : ℕ → List ℕ → ℕ
last_of x [] = x
last_of x (y ∷ ys) = last_of y ys

unfoldable pub begin_many : List ℕ → WaterMark → Option WaterMark
begin_many [] w = none
begin_many (x ∷ xs) w = some (record w {
  last_index = last_of x xs;
  mark_ch = w.mark_ch ++ (record { index = 0; waiter = none; indices = x ∷ xs; done = false } ∷ []);
})

unfoldable pub done : ℕ → WaterMark → WaterMark
done index w = record w {
  mark_ch = w.mark_ch ++ (record { index = index; waiter = none; indices = []; done = true } ∷ []);
}

unfoldable pub done_many : List ℕ → WaterMark → WaterMark
done_many indices w = record w {
  mark_ch = w.mark_ch ++ (record { index = 0; waiter = none; indices = indices; done = true } ∷ []);
}

unfoldable pub set_done_until : ℕ → WaterMark → WaterMark
set_done_until val w = record w { done_until = val }

-- WaitForMark: `true` when it returns at once; else the caller blocks on `ch`.
unfoldable pub wait_for_mark : ℕ → Chan → WaterMark → WaterMark × Bool
wait_for_mark index ch w = if leb index w.done_until then (w, true) else (
  record w {
    mark_ch =
        w.mark_ch ++ (record { index = index; waiter = some ch; indices = []; done = false } ∷ []);
  },
  false,
)

-- heap.Push
unfoldable pub heap_push : ℕ → List ℕ → List ℕ
heap_push x [] = x ∷ []
heap_push x (y ∷ ys) = if leb x y then x ∷ y ∷ ys else y ∷ heap_push x ys

abbrev pub or_zero : Option ℤ → ℤ
or_zero none = pos 0
or_zero (some n) = n

-- `for len(indices) > 0 { ... heap.Pop ... }`
pub record Advance : Type 0 where
  pub until : ℕ
  pub pending : NatMap ℤ
  pub heap : List ℕ

pub advance : ℕ → NatMap ℤ → List ℕ → Advance
advance until pending [] = record { until = until; pending = pending; heap = [] }
advance until pending (min ∷ rest) =
    let popped = advance min (remove min pending) rest in
    if is_positive (or_zero (lookup min pending))
    then record { until = until; pending = pending; heap = min ∷ rest }
    else popped

-- The waiters and the channels closed so far.
pub record Notify : Type 0 where
  pub waiters : NatMap (List Chan)
  pub closed : List Chan

-- notifyAndRemove, under the test of the first loop.
notify_index : ℕ → Notify → Notify
notify_index idx n = elim (lookup idx n.waiters) [
  | none ↦ n
  | some chans ↦ record { waiters = remove idx n.waiters; closed = n.closed ++ chans }
]

-- `for idx := doneUntil + 1; idx <= until; idx++`, by the rounds left.
pub notify_range : ℕ → ℕ → Notify → Notify
notify_range zero idx n = n
notify_range (suc rounds) idx n = notify_range rounds (suc idx) (notify_index idx n)

-- `for idx, toNotify := range waiters`: the map is walked in the order of its entries.
pub notify_all : ℕ → NatMap (List Chan) → Notify → Notify
notify_all until [] n = n
notify_all until ((idx, chans) ∷ rest) n = notify_all until rest (
    if leb idx until
    then record { waiters = remove idx n.waiters; closed = n.closed ++ chans }
    else n)

-- The uint64 difference `until - doneUntil`.
pub gap : ℕ → ℕ → ℕ
gap until done_until = (until + 2 ^ 64 - done_until) % 2 ^ 64

pub notify : ℕ → ℕ → Notify → Notify
unfolding notify_range notify_all gap notify_index
notify done_until until n =
    if leb (gap until done_until) (length n.waiters)
    then notify_range (until - done_until) (suc done_until) n
    else notify_all until n.waiters n

-- The first half of processOne: the heap and the counts with the new mark.
pub count : ℕ → Bool → WaterMark → WaterMark
count index done w =
    let prev = lookup index w.pending in
    record w {
      heap = elim prev [ none ↦ heap_push index w.heap | some _ ↦ w.heap ];
      pending =
          insert index (if done then pred_ℤ (or_zero prev) else suc_ℤ (or_zero prev)) w.pending;
    }

-- The second half: the mark moves over finished indices and the waiters below it are woken.
pub settle : WaterMark → WaterMark
unfolding advance notify
settle w =
    let a = advance w.done_until w.pending w.heap in
    let n = notify w.done_until a.until (record { waiters = w.waiters; closed = w.closed }) in
    record w {
      done_until = a.until;
      heap = a.heap;
      pending = a.pending;
      waiters = n.waiters;
      closed = n.closed;
    }

-- processOne: `none` is the failed assertion that the index is not below the mark.
pub process_one : ℕ → Bool → WaterMark → Option WaterMark
process_one index done w =
    if ltb index w.done_until then none else some (settle (count index done w))

pub process_each : List ℕ → Bool → WaterMark → Option WaterMark
process_each [] done w = some w
process_each (i ∷ is) done w = elim (process_one i done w) [
  | none ↦ none
  | some w' ↦ process_each is done w'
]

-- `[]chan struct{}{mark.waiter}` or `append(ws, mark.waiter)`.
abbrev pub joined : Option (List Chan) → Chan → List Chan
joined none ch = ch ∷ []
joined (some ws) ch = ws ++ (ch ∷ [])

pub add_waiter : ℕ → Chan → WaterMark → WaterMark
add_waiter index ch w = record w {
  waiters = insert index (joined (lookup index w.waiters) ch) w.waiters;
}

pub is_empty : List ℕ → Bool
is_empty [] = true
is_empty (x ∷ xs) = false

-- A mark with a waiter: it is closed at once if the mark has passed its index.
pub process_waiter : ℕ → Chan → WaterMark → WaterMark
process_waiter index ch w =
    if leb index w.done_until
    then record w { closed = w.closed ++ (ch ∷ []) }
    else add_waiter index ch w

-- `mark.index > 0 || (mark.index == 0 && len(mark.indices) == 0)`
pub process_head : Mark → WaterMark → Option WaterMark
unfolding is_empty
process_head m w =
    if ltb 0 m.index || m.index == 0 && is_empty m.indices
    then process_one m.index m.done w
    else some w

pub process_indices : Mark → WaterMark → Option WaterMark
process_indices m w = elim (process_head m w) [
  | none ↦ none
  | some w' ↦ process_each m.indices m.done w'
]

-- One round of the loop of `process`, on the mark that it received.
pub process_mark : Mark → WaterMark → Option WaterMark
process_mark m w = elim m.waiter [
  | some ch ↦ some (process_waiter m.index ch w)
  | none ↦ process_indices m w
]

-- The receive from the channel and the round: `none` is a failed assertion.
pub process_next : WaterMark → Option WaterMark
process_next w = elim w.mark_ch [
  | [] ↦ some w
  | m ∷ rest ↦ process_mark m (record w { mark_ch = rest })
]

-- The state after `Init`, before the first mark.
abbrev pub init : WaterMark
init = record {
  done_until = 0;
  last_index = 0;
  mark_ch = [];
  heap = [];
  pending = [];
  waiters = [];
  closed = [];
}
