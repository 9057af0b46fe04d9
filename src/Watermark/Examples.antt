-- ===== src/Watermark/Examples.antt =====
-- The watermark on short runs.
use pri_zzl_badger.Base.{
  ℕ, zero, suc, ◌≡◌, ◌≤◌, ◌<◌, refl, true, false, some, none, [], ◌∷◌, arith, lookup, is_some, elem,
  leb,
}
use pri_zzl_badger.Base.Int.{pos}
use pri_zzl_badger.Watermark.{
  Mark, WaterMark, Notify, init, begin, done, wait_for_mark, process_next, process_one,
  process_mark, process_indices, process_head, process_each, process_waiter, or_zero, count, settle,
  notify,
}
use pri_zzl_badger.Watermark.Wake.{Woken, notify-Woken}
use pri_zzl_badger.Watermark.Progress.{IsValid, IsValid-init}
use pri_zzl_badger.Watermark.Counts
use pri_zzl_badger.Watermark.Counts.{IsBracketed}
use pri_zzl_badger.Watermark.Ledger.{log_of, begun_not_passed, finished_passed}
use pri_zzl_badger.Watermark.Runs.{
  Reach, here, next, begins, waits, processes, finishes, Reach-IsValid,
}

-- One index is begun, and one channel waits for it.
abbrev waiting : WaterMark
waiting = record {
  done_until = 0;
  last_index = 1;
  mark_ch = [];
  heap = 1 ∷ [];
  pending = (1, pos 1) ∷ [];
  waiters = (1, 5 ∷ []) ∷ [];
  closed = [];
}

abbrev begun : WaterMark
begun = record waiting { waiters = [] }

abbrev passed : WaterMark
passed = record waiting { done_until = 1; heap = []; pending = []; waiters = []; closed = 5 ∷ [] }

begun_next : process_next (begin 1 init) ≡ some begun
unfolding process_next process_mark process_indices process_head process_each process_one begin
    settle count lookup pri_zzl_badger.Watermark.heap_push pri_zzl_badger.Base.insert
begun_next = refl

waiting_next : process_next (wait_for_mark 1 5 begun).0 ≡ some waiting
unfolding process_next process_mark process_waiter wait_for_mark pri_zzl_badger.Watermark.add_waiter
    pri_zzl_badger.Base.insert lookup
waiting_next = refl

passed_next : process_next (done 1 waiting) ≡ some passed
unfolding process_next process_mark process_indices process_head process_each process_one done
    settle count lookup pri_zzl_badger.Base.insert pri_zzl_badger.Base.remove
passed_next = refl

waiting-Reach : Reach init waiting
waiting-Reach =
    next (next (next (next here (begins 1)) (processes begun_next)) (waits 1 5))
      (processes waiting_next)

waiting-IsValid : IsValid waiting
waiting-IsValid = (Reach-IsValid IsValid-init waiting-Reach).0

begun_not_passed_example :
    ((j : ℕ)
      → Counts.dones j (log_of waiting-Reach) < Counts.begins j (log_of waiting-Reach)
      → waiting.done_until ≤ j)
    × ((j : ℕ) → is_some (lookup j waiting.waiters) ≡ true → waiting.done_until < j)
begun_not_passed_example = begun_not_passed waiting waiting-Reach

passed-Reach : Reach init passed
passed-Reach = next (next waiting-Reach (finishes 1)) (processes passed_next)

waiting_open : Counts.dones 1 (log_of waiting-Reach) < Counts.begins 1 (log_of waiting-Reach)
unfolding Counts.begins Counts.dones waiting-Reach done wait_for_mark begin
waiting_open = omega arith

passed-IsBracketed : IsBracketed (log_of passed-Reach)
unfolding Counts.begins Counts.dones waiting-Reach passed-Reach done wait_for_mark begin
passed-IsBracketed = (omega arith, (tt, tt))

passed_begun : 0 < Counts.begins 1 (log_of passed-Reach)
unfolding Counts.begins waiting-Reach passed-Reach done wait_for_mark begin
passed_begun = omega arith

passed_even :
    (k : ℕ) → k ≤ 1 → Counts.begins k (log_of passed-Reach) ≤ Counts.dones k (log_of passed-Reach)
unfolding Counts.begins Counts.dones waiting-Reach passed-Reach done wait_for_mark begin
passed_even k h = ground arith

finished_passed_example : 1 ≤ passed.done_until
finished_passed_example =
    finished_passed passed passed-Reach 1 passed-IsBracketed passed_begun passed_even

abbrev done_mark : Mark
done_mark = record { index = 1; waiter = none; indices = []; done = true }

passed_indices : process_indices done_mark waiting ≡ some passed
unfolding process_indices process_head process_each process_one settle count lookup
    pri_zzl_badger.Base.insert pri_zzl_badger.Base.remove
passed_indices = refl

passed_mark : process_mark done_mark waiting ≡ some passed
unfolding process_mark process_indices process_head process_each process_one settle count lookup
    pri_zzl_badger.Base.insert pri_zzl_badger.Base.remove
passed_mark = refl

passed_one : process_one 1 true waiting ≡ some passed
unfolding process_one settle count lookup pri_zzl_badger.Base.insert pri_zzl_badger.Base.remove
passed_one = refl

abbrev sleepers : Notify
sleepers = record { waiters = (3, 7 ∷ []) ∷ []; closed = [] }

notify-Woken_example : Woken (λ j. leb j 4) sleepers (notify 2 4 sleepers)
unfolding lookup
notify-Woken_example = notify-Woken 2 4 sleepers (refl, tt) (omega arith) (λ j h. ground arith)
