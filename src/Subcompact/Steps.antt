-- ===== src/Subcompact/Steps.antt =====
-- subcompact: the ways in which one round of addKeys can end.
use pri_zzl_badger.Base.{
  ℕ, suc, ◌≤◌, ◌≡◌, ◌≢◌, refl, ◌∙◌, Bool, true, false, ◌⊎◌, inl, inr, none, some, is_some, [], ◌∷◌,
  ◌++◌, arith, length, leb, ◌==◌, not, ◌&&◌, ◌||◌, Bool-cases, Option-cases,
}
use pri_zzl_badger.Keys.{same_key, parse_ts}
use pri_zzl_badger.Entry.{
  bit_value_pointer, bit_merge_entry, bit_discard_earlier_versions, is_deleted_or_expired,
  ValueStruct,
}
use pri_zzl_badger.Encoding.{pointer_decode}
use pri_zzl_badger.Iter.{KeyValue}
use pri_zzl_badger.Subcompact.{
  Env, Scan, Outcome, go, stop, fault, has_any_prefixes, has_bit, update_stats, enter_key, keep,
  judge, step, at_end,
}

-- A value pointer that can be decoded, where the value is one.
abbrev pub HasPointer : ValueStruct → Type 0
HasPointer vs = has_bit vs bit_value_pointer ≡ true → is_some (pointer_decode vs.value) ≡ true

-- The pair is passed over as a version of the key to skip.
abbrev pub skips : Scan → KeyValue → Bool
skips st x = not (length st.skip_key == 0) && same_key x.key st.skip_key

-- The pair entered the table: either no key is skipped after it, or its own, from a version that
-- no transaction needs on.
pub record Kept (env : Env) (st : Scan) (x : KeyValue) (s : Scan) : Type 0 where
  pub len : ℕ
  pub stale : Bool
  pub added : s.added ≡ st.added ++ (record { item = x; len = len; stale = stale } ∷ [])
  pub skip : (s.skip_key ≡ []) ⊎ ((s.skip_key ≡ x.key) × (parse_ts x.key ≤ env.discard_ts))

-- The pair is a deletion or has expired, no transaction needs it, and nothing lies below it.
pub record Dropped (env : Env) (st : Scan) (x : KeyValue) (s : Scan) : Type 0 where
  pub added : s.added ≡ st.added
  pub skip : s.skip_key ≡ x.key
  pub old : parse_ts x.key ≤ env.discard_ts
  pub expired : is_deleted_or_expired env.now x.value.meta x.value.expires_at ≡ true
  pub no_overlap : env.has_overlap ≡ false

-- The pair is of a dropped prefix, or a version of the skipped key.
pub record Passed (st : Scan) (s : Scan) : Type 0 where
  pub added : s.added ≡ st.added
  pub skip : s.skip_key ≡ st.skip_key

pub record Stopped (st : Scan) (s : Scan) : Type 0 where
  pub added : s.added ≡ st.added
  pub skip : s.skip_key ≡ []

update_stats-some :
    (env : Env) (vs : ValueStruct) (st s : Scan) → update_stats env vs st ≡ some s → Passed st s
unfolding update_stats
update_stats-some env vs st s e = ground arith

update_stats-ne-none :
    (env : Env) (vs : ValueStruct) (st : Scan) → HasPointer vs → update_stats env vs st ≢ none
unfolding update_stats
update_stats-ne-none env vs st h = ground (arith, h)

keep-go :
    (st : Scan) (x : KeyValue) (expired : Bool) (s : Scan)
    → keep st x expired ≡ go s
    → (len : ℕ) × (stale : Bool) × (s.added
        ≡ st.added ++ (record { item = x; len = len; stale = stale } ∷ []))
      × (s.skip_key ≡ st.skip_key)
unfolding keep
keep-go st x expired s e = elim (Bool-cases (has_bit x.value bit_value_pointer)) [
  | inr plain ↦ (0, st.first_key_has_discard_set || expired, ground arith, ground arith)
  | inl pointer ↦ elim (Option-cases (pointer_decode x.value.value)) [
    | inl bad ↦ absurd (ground arith)
    | inr (vp, good) ↦ (vp.len, st.first_key_has_discard_set || expired, ground arith, ground arith)
  ]
]

keep-ne-fault :
    (st : Scan) (x : KeyValue) (expired : Bool) → HasPointer x.value → keep st x expired ≢ fault
unfolding keep
keep-ne-fault st x expired h = ground (arith, h)

keep-ne-stop : (st : Scan) (x : KeyValue) (expired : Bool) (s : Scan) → keep st x expired ≢ stop s
unfolding keep
keep-ne-stop st x expired s = ground arith

keep-Kept :
    (env : Env) (st a : Scan) (x : KeyValue) (expired : Bool) (s : Scan)
    → a.added ≡ st.added
    → (a.skip_key ≡ []) ⊎ ((a.skip_key ≡ x.key) × (parse_ts x.key ≤ env.discard_ts))
    → keep a x expired ≡ go s
    → Kept env st x s
keep-Kept env st a x expired s same skip e =
    let (len, stale, added, skipped) = keep-go a x expired s e in
    record { len = len; stale = stale; added = rw (← same) added; skip = rw skipped skip }

-- The pair is old enough to be dropped.
abbrev is_old : Env → KeyValue → Bool
is_old env x = leb (parse_ts x.key) env.discard_ts && not (has_bit x.value bit_merge_entry)

abbrev is_expired : Env → KeyValue → Bool
is_expired env x = is_deleted_or_expired env.now x.value.meta x.value.expires_at

abbrev counted : Scan → Scan
counted st = record st { num_versions = suc st.num_versions }

abbrev last_valid : Env → Scan → KeyValue → Bool
last_valid env st x =
    has_bit x.value bit_discard_earlier_versions || suc st.num_versions == env.num_versions_to_keep

-- What judge does to a pair, from a state in which no key is skipped.
judge-go :
    (env : Env) (st : Scan) (x : KeyValue) (s : Scan)
    → st.skip_key ≡ []
    → judge env st x ≡ go s
    → Kept env st x s ⊎ Dropped env st x s
unfolding judge
judge-go env st x s clear e = elim (Bool-cases (is_old env x)) [
  | inr young ↦ inl (keep-Kept env st st x (is_expired env x) s refl (inl clear) (ground arith))
  | inl old ↦ elim (Bool-cases (is_expired env x || last_valid env st x)) [
    | inr valid ↦
        inl (keep-Kept env st (counted st) x (is_expired env x) s refl (inl clear) (ground arith))
    | inl ends ↦ judge-end old ends
  ]
]
  where
    skipping : Scan
    skipping = record (counted st) { skip_key = x.key }

    judge-end :
        is_old env x ≡ true
        → (is_expired env x || last_valid env st x) ≡ true
        → Kept env st x s ⊎ Dropped env st x s
    judge-end old ends =
        elim (Bool-cases (not (is_expired env x) && last_valid env st x || env.has_overlap)) [
          | inl kept ↦ inl (
              keep-Kept env st skipping x (is_expired env x) s refl (inr (refl, ground arith))
                (ground arith))
          | inr dropped ↦
              let p = update_stats-some env x.value skipping s (ground arith) in
              inr (record {
                added = p.added;
                skip = p.skip;
                old = ground arith;
                expired = ground arith;
                no_overlap = ground arith;
              })
        ]

judge-ne-stop : (env : Env) (st : Scan) (x : KeyValue) (s : Scan) → judge env st x ≢ stop s
unfolding judge
judge-ne-stop env st x s = ground (
  arith,
  keep-ne-stop st x (is_expired env x) s,
  keep-ne-stop (counted st) x (is_expired env x) s,
  keep-ne-stop (record (counted st) { skip_key = x.key }) x (is_expired env x) s,
)

judge-ne-fault :
    (env : Env) (st : Scan) (x : KeyValue) → HasPointer x.value → judge env st x ≢ fault
unfolding judge
judge-ne-fault env st x h = ground (
  arith,
  keep-ne-fault st x (is_expired env x) h,
  keep-ne-fault (counted st) x (is_expired env x) h,
  keep-ne-fault (record (counted st) { skip_key = x.key }) x (is_expired env x) h,
  update_stats-ne-none env x.value (record (counted st) { skip_key = x.key }) h,
)

enter_key-go :
    (env : Env) (st : Scan) (x : KeyValue) (s : Scan)
    → enter_key env st x ≡ go s
    → (s.added ≡ st.added) × (s.skip_key ≡ st.skip_key)
unfolding enter_key
enter_key-go env st x s e = (ground arith, ground arith)

enter_key-stop :
    (env : Env) (st : Scan) (x : KeyValue) (s : Scan)
    → enter_key env st x ≡ stop s
    → (s.added ≡ st.added) × (s.skip_key ≡ st.skip_key)
unfolding enter_key
enter_key-stop env st x s e = (ground arith, ground arith)

enter_key-ne-fault : (env : Env) (st : Scan) (x : KeyValue) → enter_key env st x ≢ fault
unfolding enter_key
enter_key-ne-fault env st x = ground arith

-- With an empty builder the loop is not left before the end of the range.
enter_key-ne-stop :
    (env : Env) (st : Scan) (x : KeyValue) (s : Scan)
    → at_end env x.key ≡ false
    → env.reached_capacity st.added ≡ false
    → st.range_check ≡ 0
    → enter_key env st x ≢ stop s
unfolding enter_key
enter_key-ne-stop env st x s more room first = ground arith

pub Outcome-cases :
    (o : Outcome) → ((s : Scan) × (o ≡ go s)) ⊎ (((s : Scan) × (o ≡ stop s)) ⊎ (o ≡ fault))
Outcome-cases (go s) = inl (s, refl)
Outcome-cases (stop s) = inr (inl (s, refl))
Outcome-cases fault = inr (inr refl)

abbrev clear : Scan → Scan
clear st = record st { skip_key = [] }

-- The pairs that a round passes over before it looks at their versions.
abbrev pub passes : Env → Scan → KeyValue → Bool
passes env st x = has_any_prefixes x.key env.drop_prefixes || skips st x

-- The ways in which a round goes on.
pub step-go :
    (env : Env) (st : Scan) (x : KeyValue) (s : Scan)
    → step env st x ≡ go s
    → ((passes env st x ≡ true) × Passed st s)
      ⊎ ((passes env st x ≡ false) × (Kept env st x s ⊎ Dropped env st x s))
unfolding step
step-go env st x s e = elim (Bool-cases (passes env st x)) [
  | inl passed ↦ inl (passed, update_stats-some env x.value st s (ground arith))
  | inr looked ↦ elim (Outcome-cases (enter_key env (clear st) x)) [
    | inl (a, entered) ↦
        let (same, skip) = enter_key-go env (clear st) x a entered in
        inr (looked, rekeyed a same (judge-go env a x s skip (ground arith)))
    | inr (inl (a, stopped)) ↦ absurd (ground arith)
    | inr (inr bad) ↦ absurd (ground arith)
  ]
]
  where
    rekeyed :
        (a : Scan)
        → a.added ≡ st.added
        → Kept env a x s ⊎ Dropped env a x s
        → Kept env st x s ⊎ Dropped env st x s
    rekeyed a same (inl k) =
        inl (record { len = k.len; stale = k.stale; added = rw (← same) k.added; skip = k.skip })
    rekeyed a same (inr d) = inr (record {
      added = d.added ∙ same;
      skip = d.skip;
      old = d.old;
      expired = d.expired;
      no_overlap = d.no_overlap;
    })

-- A round that breaks off leaves the table, and no key to skip.
pub step-stop :
    (env : Env) (st : Scan) (x : KeyValue) (s : Scan)
    → step env st x ≡ stop s
    → (passes env st x ≡ false) × Stopped st s
unfolding step
step-stop env st x s e = elim (Bool-cases (passes env st x)) [
  | inl passed ↦ absurd (ground arith)
  | inr looked ↦ elim (Outcome-cases (enter_key env (clear st) x)) [
    | inl (a, entered) ↦ absurd (ground (arith, judge-ne-stop env a x s))
    | inr (inl (a, stopped)) ↦
        let (same, skip) = enter_key-stop env (clear st) x s (ground arith) in
        (looked, record { added = same; skip = skip })
    | inr (inr bad) ↦ absurd (ground arith)
  ]
]

-- No round faults on a pair whose value pointer, if it has one, is whole.
pub step-ne-fault :
    (env : Env) (st : Scan) (x : KeyValue) → HasPointer x.value → step env st x ≢ fault
unfolding step
step-ne-fault env st x h e = elim (Outcome-cases (enter_key env (clear st) x)) [
  | inl (a, entered) ↦
      ground (arith, update_stats-ne-none env x.value st h, judge-ne-fault env a x h)
  | inr (inl (a, stopped)) ↦ ground (arith, update_stats-ne-none env x.value st h)
  | inr (inr bad) ↦ absurd (enter_key-ne-fault env (clear st) x bad)
]

-- The first round with a new builder, before the end of the range, does not break off.
pub step-ne-stop :
    (env : Env) (st : Scan) (x : KeyValue) (s : Scan)
    → at_end env x.key ≡ false
    → env.reached_capacity st.added ≡ false
    → st.range_check ≡ 0
    → step env st x ≢ stop s
unfolding step
step-ne-stop env st x s more room first e = elim (Outcome-cases (enter_key env (clear st) x)) [
  | inl (a, entered) ↦ ground (arith, judge-ne-stop env a x s)
  | inr (inl (a, stopped)) ↦ enter_key-ne-stop env (clear st) x a more room first stopped
  | inr (inr bad) ↦ absurd (enter_key-ne-fault env (clear st) x bad)
]
