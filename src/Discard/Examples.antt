-- ===== src/Discard/Examples.antt =====
-- Updates of two value log files.
use pri_zzl_badger.Base.{
  ℕ, ◌≡◌, ◌≤◌, ◌<◌, refl, some, none, List, [], ◌∷◌, ◌==◌, if◌then◌else◌, arith, lookup,
}
use pri_zzl_badger.Base.Int.{pos, negsuc}
use pri_zzl_badger.Discard.{update, max_discard, to_int64}
use pri_zzl_badger.Discard.Slots.{Ascending}
use pri_zzl_badger.Discard.Updates.{adjusted, or_0, update-lookup}

abbrev slots : List (ℕ × ℕ)
slots = (3, 100) ∷ (7, 250) ∷ []

slots-Ascending : Ascending slots
slots-Ascending = ((omega arith, tt), (tt, tt))

added_between : update slots 5 (pos 40) ≡ ((3, 100) ∷ (5, 40) ∷ (7, 250) ∷ [], pos 40)
unfolding update pri_zzl_badger.Discard.slot_of pri_zzl_badger.Base.Search.search
    pri_zzl_badger.Base.Search.search_loop pri_zzl_badger.Discard.add_slot
    pri_zzl_badger.Discard.sort_slots pri_zzl_badger.Discard.insert_slot
added_between = refl

cleared : update slots 7 (negsuc 0) ≡ ((3, 100) ∷ (7, 0) ∷ [], pos 0)
unfolding update pri_zzl_badger.Discard.slot_of pri_zzl_badger.Base.Search.search
    pri_zzl_badger.Base.Search.search_loop pri_zzl_badger.Discard.update_slot
cleared = refl

update-lookup_example :
    Ascending (update slots 7 (pos 5)).0
    × ((j : ℕ)
        → lookup j (update slots 7 (pos 5)).0
          ≡ (if j == 7 then adjusted (lookup 7 slots) (pos 5) else lookup j slots))
    × ((update slots 7 (pos 5)).1 ≡ to_int64 (or_0 (adjusted (lookup 7 slots) (pos 5))))
update-lookup_example = update-lookup slots 7 (pos 5) slots-Ascending (omega arith)
