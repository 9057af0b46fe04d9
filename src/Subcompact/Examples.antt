-- ===== src/Subcompact/Examples.antt =====
-- A subcompaction of three versions of one key and one of another.
use pri_zzl_badger.Base.{ℕ, ◌≡◌, refl, false, some, List, [], ◌∷◌, arith, All}
use pri_zzl_badger.Bytes.{Bytes, compare_bytes}
use pri_zzl_badger.Keys.{key_with_ts, compare_keys, parse_key}
use pri_zzl_badger.Entry.{ValueStruct}
use pri_zzl_badger.Iter.{KeyValue, seen}
use pri_zzl_badger.Iter.Order.{InKeyOrder}
use pri_zzl_badger.Subcompact.{Env, Built, subcompact, has_any_prefixes, at_end}
use pri_zzl_badger.Subcompact.Phases.{IsFine}
use pri_zzl_badger.Subcompact.Tables.{IsPreserved, all_items}
use pri_zzl_badger.Subcompact.Visible.{subcompact-IsPreserved, StartsIn}

abbrev env : Env
env = record {
  in_memory = false;
  num_versions_to_keep = 1;
  now = 1000;
  drop_prefixes = (9 ∷ []) ∷ [];
  has_overlap = false;
  discard_ts = 5;
  right = [];
  exceeds = λ kr. false;
  reached_capacity = λ added. false;
  do_fails = λ n. false;
}

abbrev pair : ℕ → ℕ → ℕ → KeyValue
pair b ts meta = record {
  key = key_with_ts (b ∷ []) ts;
  value = record { meta = meta; user_meta = 0; expires_at = 0; value = b ∷ []; version = 0 };
}

-- The key 1 was written at 2, deleted at 4 and written again at 8.
abbrev items : List KeyValue
items = pair 1 8 0 ∷ pair 1 4 1 ∷ pair 1 2 0 ∷ pair 2 3 0 ∷ []

-- The write at 8 and the other key stay.
keeps_the_newest :
    subcompact env [] items
    ≡ some (
        some (record {
          tables =
              (record { item = pair 1 8 0; len = 0; stale = false }
                ∷ record { item = pair 2 3 0; len = 0; stale = false }
                ∷ [])
              ∷ [];
          broken = false;
          discard_stats = [];
        }))
unfolding subcompact pri_zzl_badger.Subcompact.build_tables pri_zzl_badger.Subcompact.add_keys
    pri_zzl_badger.Subcompact.step has_any_prefixes pri_zzl_badger.Bytes.has_prefix key_with_ts
    pri_zzl_badger.Subcompact.enter_key pri_zzl_badger.Keys.same_key pri_zzl_badger.Bytes.be_bytes
    pri_zzl_badger.Subcompact.judge pri_zzl_badger.Keys.parse_ts pri_zzl_badger.Bytes.be_value
    pri_zzl_badger.Keys.ts_bytes pri_zzl_badger.Subcompact.keep pri_zzl_badger.Bytes.equal_bytes
    pri_zzl_badger.Entry.is_deleted_or_expired pri_zzl_badger.Subcompact.update_stats parse_key
keeps_the_newest = refl

items-IsFine : All (IsFine env (1 ∷ [])) items
unfolding key_with_ts pri_zzl_badger.Bytes.be_bytes has_any_prefixes pri_zzl_badger.Bytes.has_prefix
items-IsFine = (
  record { long = omega arith; pointer = λ h. cc; no_prefix = λ e. refl; in_range = λ e. refl },
  (
    record { long = omega arith; pointer = λ h. cc; no_prefix = λ e. refl; in_range = λ e. refl },
    (
      record { long = omega arith; pointer = λ h. cc; no_prefix = λ e. refl; in_range = λ e. refl },
      (
        record {
          long = omega arith;
          pointer = λ h. cc;
          no_prefix = λ e. refl;
          in_range = λ e. refl;
        },
        tt,
      ),
    ),
  ),
)

items-InKeyOrder : InKeyOrder items
unfolding compare_keys compare_bytes key_with_ts pri_zzl_badger.Bytes.be_bytes
items-InKeyOrder = ((refl, (refl, (refl, tt))), ((refl, (refl, tt)), ((refl, tt), (tt, tt))))

items-StartsIn : All (StartsIn [] (1 ∷ [])) items
unfolding compare_keys compare_bytes key_with_ts pri_zzl_badger.Bytes.be_bytes
items-StartsIn = ((λ e. refl), ((λ e. refl), ((λ e. refl), ((λ e. refl), tt))))

-- A reader of the key 1 at 6, who sees the deletion before.
subcompact-IsPreserved_example :
    (b : Built) × (subcompact env [] items ≡ some (some b))
    × (b.broken ≡ false)
    × IsPreserved env (seen (1 ∷ []) 6 items) (seen (1 ∷ []) 6 (all_items b.tables))
subcompact-IsPreserved_example =
    subcompact-IsPreserved env [] (1 ∷ []) 6 items (omega arith) refl (λ n. refl) items-IsFine
      items-StartsIn items-InKeyOrder
