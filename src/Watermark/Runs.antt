-- ===== src/Watermark/Runs.antt =====
-- The watermark under any interleaving of its callers with the goroutine `process`.
use pri_zzl_badger.Base.{
  ℕ, ◌≤◌, ◌≡◌, refl, some, List, [], ◌∷◌, inl, inr, arith, subst, leb, Bool-cases,
}
use pri_zzl_badger.Base.{eq_of_some}
use pri_zzl_badger.Watermark.{
  Chan, Mark, WaterMark, process_next, begin, begin_many, done, done_many, wait_for_mark, init,
}
use pri_zzl_badger.Watermark.Progress.{IsValid, IsValid-init, process_mark-IsValid}

-- A goroutine's call on the watermark, or a round of `process`. `SetDoneUntil` is no step: the
-- code asks that it is not mixed with Begin and Done.
pub data Step (w : WaterMark) : WaterMark → Type 0 where
  begins : (i : ℕ) → Step w (begin i w)
  begins_many : (is : List ℕ) {u : WaterMark} → begin_many is w ≡ some u → Step w u
  finishes : (i : ℕ) → Step w (done i w)
  finishes_many : (is : List ℕ) → Step w (done_many is w)
  waits : (i : ℕ) (ch : Chan) → Step w (wait_for_mark i ch w).0
  processes : {u : WaterMark} → process_next w ≡ some u → Step w u

pub data Reach (w : WaterMark) : WaterMark → Type 0 where
  here : Reach w w
  next : {u t : WaterMark} → Reach w u → Step u t → Reach w t

-- What the callers write, the queue and the last index, is no part of the invariant.
queued-IsValid :
    (l : ℕ) (q : List Mark) (w : WaterMark)
    → IsValid w
    → IsValid (record w { last_index = l; mark_ch = q }) × (w.done_until ≤ w.done_until)
queued-IsValid l q w v = (
  record { above = v.above; tracked = v.tracked; one_entry = v.one_entry; asleep = v.asleep },
  omega arith,
)

process_next-IsValid :
    (w u : WaterMark)
    → IsValid w
    → process_next w ≡ some u
    → IsValid u × (w.done_until ≤ u.done_until)
unfolding process_next
process_next-IsValid w u v e = go w.mark_ch refl
  where
    go : (q : List Mark) → w.mark_ch ≡ q → IsValid u × (w.done_until ≤ u.done_until)
    go [] p =
        subst (λ t. IsValid t × (w.done_until ≤ t.done_until)) (cc (rw (p, process_next) at e))
          (v, omega arith)
    go (m ∷ rest) p =
        process_mark-IsValid m (record w { mark_ch = rest }) u
          (queued-IsValid w.last_index rest w v).0 (rw (p, process_next) at e)

pub Step-IsValid :
    {w u : WaterMark} → Step w u → IsValid w → IsValid u × (w.done_until ≤ u.done_until)
unfolding begin begin_many done done_many wait_for_mark
Step-IsValid {w} (begins i) v = queued-IsValid i _ w v
Step-IsValid {w} (begins_many [] e) v = absurd (cc)
Step-IsValid {w} (begins_many (i ∷ is) e) v =
    subst (λ t. IsValid t × (w.done_until ≤ t.done_until)) (eq_of_some e) (queued-IsValid _ _ w v)
Step-IsValid {w} (finishes i) v = queued-IsValid w.last_index _ w v
Step-IsValid {w} (finishes_many is) v = queued-IsValid w.last_index _ w v
Step-IsValid {w} (waits i ch) v = elim (Bool-cases (leb i w.done_until)) [
  | inl passed ↦ rw passed (v, omega arith)
  | inr ahead ↦ rw ahead (queued-IsValid w.last_index _ w v)
]
Step-IsValid {w} {u} (processes e) v = process_next-IsValid w u v e

pub Reach-IsValid :
    {w u : WaterMark} → IsValid w → Reach w u → IsValid u × (w.done_until ≤ u.done_until)
Reach-IsValid v here = (v, omega arith)
Reach-IsValid v (next r s) =
    let a = Reach-IsValid v r in let b = Step-IsValid s a.0 in (b.0, omega (arith, a.1, b.1))

-- The mark never falls: a later state of a run has a mark at least as high.
pub done_until-grows : (w u : WaterMark) → Reach init w → Reach w u → w.done_until ≤ u.done_until
done_until-grows w u r s = (Reach-IsValid (Reach-IsValid IsValid-init r).0 s).1
