-- ===== src/Discard.antt =====
-- discard.go: how many bytes of each value log file could be discarded. The file of 16-byte slots
-- is the list of its used slots, as pairs of a file id and a count; the empty slot behind them and
-- the growth of the file are not observable through the operations.
pub mod Slots
pub mod Updates
mod Examples
use pri_zzl_badger.Base.{
  ℕ, zero, suc, ◌+◌, ◌-◌, ◌%◌, ◌^◌, Bool, true, false, ◌&&◌, List, [], ◌∷◌, ◌++◌, ◌==◌,
  if◌then◌else◌, ltb, leb, length, get_or, set,
}
use pri_zzl_badger.Base.Int.{ℤ, pos, negsuc, is_positive}
use pri_zzl_badger.Base.Search.{search}

-- `lf.get(16*slot)` and `lf.get(16*slot+8)`.
abbrev pub fid_at : List (ℕ × ℕ) → ℕ → ℕ
fid_at slots i = (get_or slots i (0, 0)).0

abbrev pub count_at : List (ℕ × ℕ) → ℕ → ℕ
count_at slots i = (get_or slots i (0, 0)).1

-- The conversions `int64(x)` and `uint64(x)`.
abbrev pub to_int64 : ℕ → ℤ
to_int64 x = if ltb x (2 ^ 63) then pos x else negsuc (2 ^ 64 - x - 1)

abbrev pub to_uint64 : ℤ → ℕ
to_uint64 (pos n) = n
to_uint64 (negsuc n) = 2 ^ 64 - n - 1

-- sort.Sort by file id.
pub insert_slot : ℕ × ℕ → List (ℕ × ℕ) → List (ℕ × ℕ)
insert_slot s [] = s ∷ []
insert_slot s (t ∷ ts) = let rest = insert_slot s ts in if ltb t.0 s.0 then t ∷ rest else s ∷ t ∷ ts

pub sort_slots : List (ℕ × ℕ) → List (ℕ × ℕ)
sort_slots [] = []
sort_slots (s ∷ ss) = insert_slot s (sort_slots ss)

-- `idx` of Update.
pub slot_of : List (ℕ × ℕ) → ℕ → ℕ
slot_of slots fid = search (length slots) (λ i. leb fid (fid_at slots i))

-- Update of a file id that has the slot at `off`.
pub update_slot : List (ℕ × ℕ) → ℕ → ℤ → List (ℕ × ℕ) × ℤ
update_slot slots idx (pos zero) = (slots, to_int64 (count_at slots idx))
update_slot slots idx (negsuc n) = (set slots idx (fid_at slots idx, 0), pos 0)
update_slot slots idx (pos (suc n)) =
    let sum = (count_at slots idx + suc n) % 2 ^ 64 in
    (set slots idx (fid_at slots idx, sum), to_int64 sum)

-- Update of a file id that has none.
pub add_slot : List (ℕ × ℕ) → ℕ → ℤ → List (ℕ × ℕ) × ℤ
add_slot slots fid discard =
    if is_positive discard
    then (sort_slots (slots ++ ((fid, to_uint64 discard) ∷ [])), discard)
    else (slots, pos 0)

-- Update
pub update : List (ℕ × ℕ) → ℕ → ℤ → List (ℕ × ℕ) × ℤ
update slots fid discard =
    let idx = slot_of slots fid in
    if ltb idx (length slots) && fid_at slots idx == fid
    then update_slot slots idx discard
    else add_slot slots fid discard

-- Iterate with the function of MaxDiscard, on the best so far.
pub max_loop : ℕ × ℕ → List (ℕ × ℕ) → ℕ × ℕ
max_loop best [] = best
max_loop best (s ∷ ss) = max_loop (if ltb best.1 s.1 then s else best) ss

-- MaxDiscard: `uint32(maxFid)` and `int64(maxVal)`.
pub max_discard : List (ℕ × ℕ) → ℕ × ℤ
max_discard slots = let best = max_loop (0, 0) slots in (best.0 % 2 ^ 32, to_int64 best.1)
