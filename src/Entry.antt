-- ===== src/Entry.antt =====
-- structs.go, y/iterator.go, value.go: entries, stored values and their metadata bits.
use Prim.Native.Nat.{bit_and}
use pri_zzl_badger.Base.{ℕ, ◌+◌, Bool, true, false, ltb, leb, ◌==◌, if◌then◌else◌, length}
use pri_zzl_badger.Bytes.{Bytes}

abbrev pub bit_delete : ℕ
bit_delete = 1

abbrev pub bit_value_pointer : ℕ
bit_value_pointer = 2

abbrev pub bit_discard_earlier_versions : ℕ
bit_discard_earlier_versions = 4

abbrev pub bit_merge_entry : ℕ
bit_merge_entry = 8

abbrev pub bit_txn : ℕ
bit_txn = 64

abbrev pub bit_fin_txn : ℕ
bit_fin_txn = 128

pub record Entry : Type 0 where
  pub key : Bytes
  pub value : Bytes
  pub expires_at : ℕ
  pub version : ℕ
  pub offset : ℕ
  pub user_meta : ℕ
  pub meta : ℕ
  pub hlen : ℕ
  pub val_threshold : ℕ

-- y.ValueStruct
pub record ValueStruct : Type 0 where
  pub meta : ℕ
  pub user_meta : ℕ
  pub expires_at : ℕ
  pub value : Bytes
  pub version : ℕ

-- NewEntry
abbrev pub new_entry : Bytes → Bytes → Entry
new_entry key value = record {
  key = key;
  value = value;
  expires_at = 0;
  version = 0;
  offset = 0;
  user_meta = 0;
  meta = 0;
  hlen = 0;
  val_threshold = 0;
}

-- `if e.valThreshold == 0 { e.valThreshold = threshold }`
unfoldable pub set_threshold : ℕ → Entry → Entry
set_threshold threshold e =
    if e.val_threshold == 0 then record e { val_threshold = threshold } else e

-- The size of estimateSizeAndSetThreshold, whose entry is `set_threshold threshold e`.
unfoldable pub estimate_size : ℕ → Entry → ℕ
unfolding set_threshold
estimate_size threshold e =
    let k = length e.key in
    let v = length e.value in
    if ltb v (set_threshold threshold e).val_threshold then k + v + 2 else k + 12 + 2

-- The answer of skipVlogAndSetThreshold, whose entry is `set_threshold threshold e`.
unfoldable pub skip_vlog : ℕ → Entry → Bool
unfolding set_threshold
skip_vlog threshold e = ltb (length e.value) (set_threshold threshold e).val_threshold

-- WithMeta, WithDiscard, withMergeBit.
abbrev pub with_meta : ℕ → Entry → Entry
with_meta meta e = record e { user_meta = meta }

abbrev pub with_discard : Entry → Entry
with_discard e = record e { meta = bit_discard_earlier_versions }

abbrev pub with_merge_bit : Entry → Entry
with_merge_bit e = record e { meta = bit_merge_entry }

-- isDeletedOrExpired, at the Unix time `now`.
unfoldable pub is_deleted_or_expired : ℕ → ℕ → ℕ → Bool
is_deleted_or_expired now meta expires_at =
    if ltb 0 (bit_and meta bit_delete)
    then true
    else if expires_at == 0
    then false
    else leb expires_at now
