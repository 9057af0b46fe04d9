-- ===== src/Txn/Reads.antt =====
-- What a transaction reads: its own writes first, and else the tables at its read timestamp.
use pri_zzl_badger.Base.{
  ℕ, suc, ◌+◌, ◌↔◌, ◌<◌, ◌≤◌, ◌≡◌, ◌≢◌, refl, sym, ap, ◌∙◌, subst, true, false, Option, none, some,
  List, [], ◌∷◌, ◌++◌, eq_of_some, arith, if◌then◌else◌, length, elem, elem-append,
}
use pri_zzl_badger.Bytes.{Bytes, equal_bytes, has_prefix}
use pri_zzl_badger.Bytes.Order.{equal_bytes_iff}
use pri_zzl_badger.Bytes.Dict.{lookup, lookup-insert}
use pri_zzl_badger.Entry.{Entry, ValueStruct, set_threshold, estimate_size}
use pri_zzl_badger.Txn.{
  Txn, Result, ok, err, DbView, check_size, check_entry, buffer, modify, pending_item,
  pending_entry, get, is_banned, add_read_key, badger_prefix, keep_old,
}

check_entry-ok :
    (db : DbView) (e : Entry) (txn : Txn)
    → check_entry db e txn ≡ ok tt
    → (txn.update ≡ true)
      × (txn.discarded ≡ false)
      × (0 < length e.key)
      × (length e.key ≤ 65000)
      × (is_banned db e.key ≡ false)
      × (has_prefix e.key badger_prefix ≡ false)
      × (length e.value ≤ db.value_log_file_size)
      × (db.in_memory ≡ true → length e.value ≤ db.value_threshold)
unfolding check_entry
check_entry-ok db e txn h = ground arith

check_size-ok :
    (db : DbView) (e : Entry) (txn t : Txn)
    → check_size db e txn ≡ ok t
    → (t.count ≡ suc txn.count)
      × (t.count < db.max_batch_count)
      × (t.size < db.max_batch_size)
      × (t.size ≡ txn.size + estimate_size db.value_threshold e + 10)
      × (t ≡ record txn { count = t.count; size = t.size })
unfolding check_size
check_size-ok db e txn t h = ground arith

modify-steps :
    (mem_hash : Bytes → ℕ) (db : DbView) (e : Entry) (txn t : Txn)
    → modify mem_hash db e txn ≡ ok t
    → (check_entry db e txn ≡ ok tt)
      × (sized : Txn) × (check_size db e txn ≡ ok sized)
      × (buffer mem_hash db e sized ≡ t)
unfolding modify
modify-steps mem_hash db e txn t h = go (check_entry db e txn) refl
  where
    size_go :
        check_entry db e txn ≡ ok tt
        → (s : Result Txn) → check_size db e txn ≡ s
        → (sized : Txn) × (check_size db e txn ≡ ok sized) × (buffer mem_hash db e sized ≡ t)
    size_go p (ok sized) q = (sized, q, cc (rw (p, q, modify) at h))
    size_go p (err x) q = absurd (cc (rw (p, q, modify) at h))

    go :
        (c : Result (Unit {0}))
        → check_entry db e txn ≡ c
        → (check_entry db e txn ≡ ok tt)
          × (sized : Txn) × (check_size db e txn ≡ ok sized)
          × (buffer mem_hash db e sized ≡ t)
    go (ok tt) p = let (s, q, r) = size_go p (check_size db e txn) refl in (p, s, q, r)
    go (err x) p = absurd (cc (rw (p, modify) at h))

keep_old-differs :
    (old e : Entry) (found : Option Entry) (dups : List Entry)
    → found ≡ some old
    → old.version ≢ e.version
    → keep_old found e dups ≡ dups ++ (old ∷ [])
unfolding keep_old
keep_old-differs old e none dups f ne = cc
keep_old-differs old e (some u) dups f ne =
    let same : u ≡ old = eq_of_some f in rw same (ground (arith, ne))

keep_old-same :
    (e : Entry) (found : Option Entry) (dups : List Entry)
    → ((old : Entry) → found ≡ some old → old.version ≡ e.version)
    → keep_old found e dups ≡ dups
unfolding keep_old
keep_old-same e none dups s = refl
keep_old-same e (some u) dups s = ground (arith, s u refl)

-- The tests that modify makes, written out.
pub record Admissible (db : DbView) (e : Entry) (txn : Txn) : Type 0 where
  pub may_write : txn.update ≡ true
  pub is_open : txn.discarded ≡ false
  pub key_given : 0 < length e.key
  pub not_reserved : has_prefix e.key badger_prefix ≡ false
  pub key_fits : length e.key ≤ 65000
  pub value_fits : length e.value ≤ db.value_log_file_size
  pub memory_fits : db.in_memory ≡ true → length e.value ≤ db.value_threshold
  pub not_banned : is_banned db e.key ≡ false
  pub count_fits : suc txn.count < db.max_batch_count
  pub size_fits : txn.size + estimate_size db.value_threshold e + 10 < db.max_batch_size

Admissible-modify :
    (mem_hash : Bytes → ℕ) (db : DbView) (e : Entry) (txn : Txn)
    → Admissible db e txn
    → (t : Txn) × (modify mem_hash db e txn ≡ ok t)
unfolding modify check_entry check_size
Admissible-modify mem_hash db e txn a =
    let sized = record txn {
      count = suc txn.count;
      size = txn.size + estimate_size db.value_threshold e + 10;
    } in
    (
      buffer mem_hash db e sized,
      ground (
        arith, a.may_write, a.is_open, a.key_given, a.not_reserved, a.key_fits, a.value_fits,
        a.memory_fits, a.not_banned, a.count_fits, a.size_fits,
      ),
    )

-- A write that is accepted: the transaction may write and is open, the key fits, is not banned
-- and is not reserved; the write is counted below the limits; and it is the pending write of its
-- key, the other pending writes, the reads and the read timestamp being as before.
pub record Accepted (mem_hash : Bytes → ℕ) (db : DbView) (e : Entry) (txn t : Txn) : Type 0 where
  pub may_write : txn.update ≡ true
  pub is_open : txn.discarded ≡ false
  pub key_given : 0 < length e.key
  pub key_fits : length e.key ≤ 65000
  pub not_reserved : has_prefix e.key badger_prefix ≡ false
  pub value_fits : length e.value ≤ db.value_log_file_size
  pub memory_fits : db.in_memory ≡ true → length e.value ≤ db.value_threshold
  pub not_banned : is_banned db e.key ≡ false
  pub counted : t.count ≡ suc txn.count
  pub count_fits : t.count < db.max_batch_count
  pub size_fits : t.size < db.max_batch_size
  pub size_is : t.size ≡ txn.size + estimate_size db.value_threshold e + 10
  pub conflict_key :
      t.conflict_keys
      ≡ (if db.detect_conflicts then mem_hash e.key ∷ txn.conflict_keys else txn.conflict_keys)
  pub replaced :
      (old : Entry)
      → lookup e.key txn.pending_writes ≡ some old
      → old.version ≢ e.version
      → t.duplicate_writes ≡ txn.duplicate_writes ++ (old ∷ [])
  pub same_duplicates :
      ((old : Entry) → lookup e.key txn.pending_writes ≡ some old → old.version ≡ e.version)
      → t.duplicate_writes ≡ txn.duplicate_writes
  pub same_reads : t.reads ≡ txn.reads
  pub same_read_ts : t.read_ts ≡ txn.read_ts
  pub same_update : t.update ≡ txn.update
  pub same_discarded : t.discarded ≡ txn.discarded
  pub pending :
      (j : Bytes)
      → lookup j t.pending_writes ≡ (
          if equal_bytes j e.key
          then some (set_threshold db.value_threshold e)
          else lookup j txn.pending_writes)

pub modify-Accepted :
    (mem_hash : Bytes → ℕ) (db : DbView) (e : Entry) (txn t : Txn)
    → modify mem_hash db e txn ≡ ok t
    → Accepted mem_hash db e txn t
unfolding buffer
modify-Accepted mem_hash db e txn t h =
    let (checked, sized, fits, same) = modify-steps mem_hash db e txn t h in
    let (a, b, c, d, n, reserved, fits_log, fits_memory) = check_entry-ok db e txn checked in
    let (count, low, small, grown, rest) = check_size-ok db e txn sized fits in
    subst (Accepted mem_hash db e txn) same (record {
      may_write = a;
      is_open = b;
      key_given = c;
      key_fits = d;
      not_banned = n;
      not_reserved = reserved;
      value_fits = fits_log;
      memory_fits = fits_memory;
      size_is = grown;
      conflict_key =
          ap
            (λ (u : Txn).
              if db.detect_conflicts then mem_hash e.key ∷ u.conflict_keys else u.conflict_keys)
            rest;
      replaced = λ old found differs.
          ap (λ (u : Txn). keep_old (lookup e.key u.pending_writes) e u.duplicate_writes) rest
          ∙ keep_old-differs old e (lookup e.key txn.pending_writes) txn.duplicate_writes found
              differs;
      same_duplicates = λ same_version.
          ap (λ (u : Txn). keep_old (lookup e.key u.pending_writes) e u.duplicate_writes) rest
          ∙ keep_old-same e (lookup e.key txn.pending_writes) txn.duplicate_writes same_version;
      counted = count;
      count_fits = low;
      size_fits = small;
      same_reads = ap (λ (u : Txn). u.reads) rest;
      same_read_ts = ap (λ (u : Txn). u.read_ts) rest;
      same_update = ap (λ (u : Txn). u.update) rest;
      same_discarded = ap (λ (u : Txn). u.discarded) rest;
      pending = λ j.
          lookup-insert e.key j (set_threshold db.value_threshold e) sized.pending_writes
          ∙ ap
              (λ (u : Txn).
                if equal_bytes j e.key
                then some (set_threshold db.value_threshold e)
                else lookup j u.pending_writes)
              rest;
    })

-- modify accepts a write exactly when the transaction may write and is open, the key is given, not
-- reserved, at most 65000 bytes long and not banned, the value fits a file of the value log and, in
-- memory, the threshold, and the limits of a batch are not reached. The count then grows by one and
-- the size by the entry's; the reads and the timestamp are kept; the key's hash is among the
-- conflict keys where conflicts are detected; the pending writes change at this key alone, to this
-- entry with its threshold set; and the write that it replaces is kept among the duplicates if its
-- version is another, and otherwise no duplicate is added.
pub modify_iff :
    (mem_hash : Bytes → ℕ) (db : DbView) (e : Entry) (txn : Txn)
    → (((t : Txn) × (modify mem_hash db e txn ≡ ok t)) ↔ Admissible db e txn)
      × ((t : Txn) → modify mem_hash db e txn ≡ ok t → Accepted mem_hash db e txn t)
modify_iff mem_hash db e txn = (
  (
    λ done.
        let a = modify-Accepted mem_hash db e txn done.0 done.1 in
        record {
          may_write = a.may_write;
          is_open = a.is_open;
          key_given = a.key_given;
          not_reserved = a.not_reserved;
          key_fits = a.key_fits;
          value_fits = a.value_fits;
          memory_fits = a.memory_fits;
          not_banned = a.not_banned;
          count_fits = omega (arith, a.count_fits, a.counted);
          size_fits = omega (arith, a.size_fits, a.size_is);
        },
    Admissible-modify mem_hash db e txn,
  ),
  λ t. modify-Accepted mem_hash db e txn t,
)

set_threshold-key : (threshold : ℕ) (e : Entry) → (set_threshold threshold e).key ≡ e.key
unfolding set_threshold
set_threshold-key threshold e = ground arith

-- A transaction reads its own writes: after an accepted write, Get of its key is served from the
-- write alone, whatever the tables hold, and tracks no read.
pub get-modify_self :
    (mem_hash : Bytes → ℕ) (db : DbView) (db_get : Bytes → Option ValueStruct) (now : ℕ) (e : Entry)
    (txn t : Txn)
    → modify mem_hash db e txn ≡ ok t
    → get mem_hash db db_get now e.key t
      ≡ (t, pending_item now t.read_ts e.key (set_threshold db.value_threshold e))
unfolding get pending_entry
get-modify_self mem_hash db db_get now e txn t h =
    let a = modify-Accepted mem_hash db e txn t h in
    ground (
      arith,
      a.key_given,
      a.not_banned,
      a.is_open,
      a.same_discarded,
      a.may_write,
      a.same_update,
      a.pending e.key,
      (equal_bytes_iff e.key (set_threshold db.value_threshold e).key).1
          (sym (set_threshold-key db.value_threshold e)),
      (equal_bytes_iff e.key e.key).1 refl,
    )

-- An accepted write of one key changes no answer of Get for another key.
pub get-modify_ne :
    (mem_hash : Bytes → ℕ) (db : DbView) (db_get : Bytes → Option ValueStruct) (now : ℕ) (e : Entry)
    (key : Bytes) (txn t : Txn)
    → modify mem_hash db e txn ≡ ok t
    → key ≢ e.key
    → (get mem_hash db db_get now key t).1 ≡ (get mem_hash db db_get now key txn).1
unfolding get pending_entry
get-modify_ne mem_hash db db_get now e key txn t h ne =
    let a = modify-Accepted mem_hash db e txn t h in
    ground (
      arith,
      a.is_open,
      a.same_discarded,
      a.may_write,
      a.same_update,
      a.same_read_ts,
      a.pending key,
      (equal_bytes_iff key e.key).0,
    )

-- In an open transaction that may write, a Get of a key that is not empty, not banned and has no
-- pending write leaves the key's hash among the reads, where the conflict check finds it.
pub get-reads :
    (mem_hash : Bytes → ℕ) (db : DbView) (db_get : Bytes → Option ValueStruct) (now : ℕ)
    (key : Bytes) (txn : Txn)
    → txn.update ≡ true
    → txn.discarded ≡ false
    → 0 < length key
    → is_banned db key ≡ false
    → lookup key txn.pending_writes ≡ none
    → elem (mem_hash key) (get mem_hash db db_get now key txn).0.reads ≡ true
unfolding get pending_entry add_read_key
get-reads mem_hash db db_get now key txn u d pos b p =
    ground (arith, elem-append (mem_hash key) txn.reads (mem_hash key ∷ []))
