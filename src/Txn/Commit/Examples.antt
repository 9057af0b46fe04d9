-- ===== src/Txn/Commit/Examples.antt =====
-- The commit of a transaction with one write.
use pri_zzl_badger.Base.{ℕ, ◌≡◌, ◌<◌, ◌⊎◌, ◌++◌, refl, true, false, some, List, [], ◌∷◌, arith, All}
use pri_zzl_badger.Bytes.{Bytes}
use pri_zzl_badger.Keys.{key_with_ts}
use pri_zzl_badger.Entry.{Entry, new_entry}
use pri_zzl_badger.Txn.{Txn, txn_key}
use pri_zzl_badger.Txn.Commit.{commit_entries, all_unversioned, entries_of, fin_entry}
use pri_zzl_badger.Txn.Commit.Stamps.{
  IsWrite, IsEnd, AreStamped, writes_of, commit_entries-AreStamped,
}

abbrev key : Bytes
key = 97 ∷ []

abbrev decimal : ℕ → Bytes
decimal n = 55 ∷ []

abbrev written : Txn
written = record {
  read_ts = 5;
  commit_ts = 0;
  size = 36;
  count = 2;
  reads = [];
  conflict_keys = 1 ∷ [];
  pending_writes = (key, new_entry key (1 ∷ 2 ∷ [])) ∷ [];
  duplicate_writes = [];
  num_iterators = 0;
  discarded = false;
  done_read = false;
  update = true;
}

abbrev sent : List Entry
sent =
    record (new_entry (key_with_ts key 7) (1 ∷ 2 ∷ [])) { meta = 64; version = 7 }
    ∷ record (new_entry (key_with_ts txn_key 7) (55 ∷ [])) { meta = 128 }
    ∷ []

sends : commit_entries decimal 7 written ≡ some sent
unfolding commit_entries all_unversioned entries_of pri_zzl_badger.Txn.Commit.process_entries
    fin_entry
sends = refl

writes : All IsWrite (writes_of written)
unfolding entries_of
writes = ((omega arith, omega arith), tt)

commit_entries-AreStamped_example :
    (All (λ w. w.version ≡ 0) (writes_of written)
      × (0 < 7)
      × ((es : List Entry) × (end : Entry) × (sent ≡ es ++ (end ∷ []))
          × AreStamped true 7 (writes_of written) es
          × IsEnd 7 end))
    ⊎ ((All (λ w. w.version ≡ 0) (writes_of written) → ⊥)
        × AreStamped false 7 (writes_of written) sent)
commit_entries-AreStamped_example =
    commit_entries-AreStamped decimal 7 written sent (omega arith) writes sends
