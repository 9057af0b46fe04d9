-- ===== src/Compaction/Ranges.antt =====
-- Key ranges: what equality, overlap and the lists of running ranges say.
use Prim.Native.Nat.{Ordering}
use mathlib.Core.List.{append-nil}
use pri_zzl_badger.Base.{
  ◌≡◌, ◌≢◌, refl, Bool, true, false, ◌||◌, List, [], ◌∷◌, ◌++◌, arith, not, keep_if, Bool-cases,
  All, All-append, inl, inr,
}
use pri_zzl_badger.Bytes.{Bytes}
use pri_zzl_badger.Bytes.Order.{equal_bytes_iff}
use pri_zzl_badger.Keys.{compare_keys}
use pri_zzl_badger.Keys.Order.{compare_keys-flip, compare_keys_trans}
use pri_zzl_badger.Compaction.{
  KeyRange, is_empty, equals, overlaps_with, is_gt, any_overlaps, any_equals, remove_range,
}

-- A range that a compaction may name: unbounded, or not empty with its ends in order.
pub record IsRange (r : KeyRange) : Type 0 where
  pub not_empty : is_empty r ≡ false
  pub ordered : r.inf ≡ false → is_gt (compare_keys r.left r.right) ≡ false

pub equals→eq : (r s : KeyRange) → equals r s ≡ true → r ≡ s
unfolding equals
equals→eq r s e = ground (arith, equal_bytes_iff r.left s.left, equal_bytes_iff r.right s.right)

pub equals_refl : (r : KeyRange) → equals r r ≡ true
unfolding equals
equals_refl r =
    ground (arith, (equal_bytes_iff r.left r.left).1 refl, (equal_bytes_iff r.right r.right).1 refl)

-- Every such range overlaps with itself.
pub overlaps_with_self : (r : KeyRange) → IsRange r → overlaps_with r r ≡ true
unfolding overlaps_with
overlaps_with_self r v = ground (arith, v.not_empty, v.ordered, compare_keys-flip r.left r.right)

-- Overlap is symmetric on ranges that are not empty.
pub overlaps_with_comm :
    (r s : KeyRange)
    → is_empty r ≡ false
    → is_empty s ≡ false
    → overlaps_with r s ≡ overlaps_with s r
unfolding overlaps_with
overlaps_with_comm r s hr hs =
    ground (arith, hr, hs, compare_keys-flip r.left s.right, compare_keys-flip r.right s.left)

pub any_overlaps-append :
    (rs ss : List KeyRange) (d : KeyRange)
    → any_overlaps (rs ++ ss) d ≡ (any_overlaps rs d || any_overlaps ss d)
unfolding any_overlaps
any_overlaps-append [] ss d = refl
any_overlaps-append (r ∷ rs) ss d = ground (arith, any_overlaps-append rs ss d)

pub any_equals-append :
    (rs ss : List KeyRange) (d : KeyRange)
    → any_equals (rs ++ ss) d ≡ (any_equals rs d || any_equals ss d)
unfolding any_equals
any_equals-append [] ss d = refl
any_equals-append (r ∷ rs) ss d = ground (arith, any_equals-append rs ss d)

-- A range that overlaps with itself and with none of the list is not in the list.
pub not-any_equals :
    (rs : List KeyRange) (d : KeyRange)
    → overlaps_with d d ≡ true
    → any_overlaps rs d ≡ false
    → any_equals rs d ≡ false
unfolding any_overlaps any_equals
not-any_equals [] d self none_over = refl
not-any_equals (r ∷ rs) d self none_over =
    ground (arith, not-any_equals rs d self, equals→eq r d, none_over)

-- Removing a range that is not there changes nothing.
pub remove_range_absent :
    (rs : List KeyRange) (d : KeyRange) → any_equals rs d ≡ false → remove_range rs d ≡ rs
unfolding any_equals remove_range
remove_range_absent [] d h = refl
remove_range_absent (r ∷ rs) d h = ground (arith, remove_range_absent rs d)

pub remove_range-append :
    (rs ss : List KeyRange) (d : KeyRange)
    → remove_range (rs ++ ss) d ≡ remove_range rs d ++ remove_range ss d
unfolding remove_range
remove_range-append [] ss d = refl
remove_range-append (r ∷ rs) ss d = ground (arith, remove_range-append rs ss d)

remove_range_one : (d : KeyRange) → remove_range (d ∷ []) d ≡ []
unfolding remove_range
remove_range_one d = ground (arith, equals_refl d)

-- Entering a range that overlapped with none, and removing it, gives the list back.
pub remove_range_added :
    (rs : List KeyRange) (d : KeyRange)
    → overlaps_with d d ≡ true
    → any_overlaps rs d ≡ false
    → remove_range (rs ++ (d ∷ [])) d ≡ rs
remove_range_added rs d self none_over =
    rw
      (
        remove_range-append,
        remove_range_one d,
        remove_range_absent rs d (not-any_equals rs d self none_over),
      )
      (append-nil rs)

pub any_equals_added : (rs : List KeyRange) (d : KeyRange) → any_equals (rs ++ (d ∷ [])) d ≡ true
unfolding any_equals
any_equals_added [] d = ground (arith, equals_refl d)
any_equals_added (r ∷ rs) d = ground (arith, any_equals_added rs d)

-- The running ranges of a level, pairwise: no earlier one overlaps with a later one.
abbrev pub Apart : List KeyRange → Type 0
Apart [] = Unit
Apart (r ∷ rs) = All (λ s. overlaps_with r s ≡ false) rs × Apart rs

pub Apart-append :
    (rs : List KeyRange) (d : KeyRange)
    → Apart rs
    → any_overlaps rs d ≡ false
    → Apart (rs ++ (d ∷ []))
unfolding any_overlaps
Apart-append [] d a h = (tt, tt)
Apart-append (r ∷ rs) d a h =
    (All-append _ rs (d ∷ []) a.0 (ground arith, tt), Apart-append rs d a.1 (ground arith))

All-keep_if :
    (P : KeyRange → Type 0) (p : KeyRange → Bool) (rs : List KeyRange)
    → All P rs
    → All P (keep_if p rs)
All-keep_if P p [] a = tt
All-keep_if P p (r ∷ rs) a = elim (Bool-cases (p r)) [
  | inl kept ↦ rw kept (a.0, All-keep_if P p rs a.1)
  | inr dropped ↦ rw dropped (All-keep_if P p rs a.1)
]

pub Apart-remove_range : (rs : List KeyRange) (d : KeyRange) → Apart rs → Apart (remove_range rs d)
unfolding remove_range
Apart-remove_range [] d a = tt
Apart-remove_range (r ∷ rs) d a = elim (Bool-cases (not (equals r d))) [
  | inl kept ↦ rw kept (All-keep_if _ _ rs a.0, Apart-remove_range rs d a.1)
  | inr dropped ↦ rw dropped (Apart-remove_range rs d a.1)
]

-- A versioned key in a range.
pub record Within (key : Bytes) (r : KeyRange) : Type 0 where
  pub not_empty : is_empty r ≡ false
  pub low : r.inf ≡ false → compare_keys r.left key ≢ Ordering.gt
  pub high : r.inf ≡ false → compare_keys key r.right ≢ Ordering.gt

-- Ranges that are found not to overlap share no key.
pub overlaps_with_sound :
    (key : Bytes) (r s : KeyRange) → Within key r → Within key s → overlaps_with r s ≡ true
unfolding overlaps_with
overlaps_with_sound key r s a b = ground (
  arith,
  a.not_empty,
  b.not_empty,
  a.low,
  a.high,
  b.low,
  b.high,
  compare_keys_trans r.left key s.right,
  compare_keys_trans s.left key r.right,
  compare_keys-flip r.right s.left,
)
