-- ===== src/LevelHandler/Get/Ordered.antt =====
-- get on a whole level: on the overlapping levels it looks at every table, on the ordered ones at
-- one of them; either way it answers the newest version.
use pri_zzl_badger.Base.{
  ℕ, zero, suc, ◌≤◌, ◌<◌, ◌≡◌, ◌≢◌, refl, sym, ap, ◌∙◌, Bool, true, false, ◌⊎◌, inl, inr, Option,
  none, some, List, [], ◌∷◌, arith, length, get_elem?, lt_of_get_elem?, All, All-mono, All-append,
  All-append_inv, Any, Any-append_inv, subst, eq_of_some, Bool-cases, Option-cases, not,
}
use pri_zzl_badger.Base.Search.{Splits, search}
use pri_zzl_badger.Bytes.{Bytes}
use pri_zzl_badger.Bloom.{hash}
use pri_zzl_badger.Keys.{parse_key, parse_ts, same_key, compare_keys}
use pri_zzl_badger.Keys.Order.{parse_key-same}
use pri_zzl_badger.Entry.{ValueStruct}
use pri_zzl_badger.Table.{Table, Files, does_not_have}
use pri_zzl_badger.Compaction.{is_lt}
use pri_zzl_badger.Iter.{KeyValue, seek}
use pri_zzl_badger.Iter.Order.{InKeyOrder}
use pri_zzl_badger.LevelHandler.{
  LevelHandler, tables_for_key, reverse_tables, at_index, is_unordered, get_table_for_key,
  decr_refs,
}
use pri_zzl_badger.LevelHandler.Order.{
  UpTo, Before, AreDisjoint, All-at, reaches, reaches-Splits, UpTo-Before, Before-UpTo_trans,
}
use pri_zzl_badger.LevelHandler.Get.{Shelf, consider, version_of, get_in, get}
use pri_zzl_badger.LevelHandler.Get.Newest.{
  IsKey, Matches, Bounds, Found, Considered, consider-Considered, newer_first, none_later,
}

-- A table as it is built: its pairs in key order between its ends, the last of them at its biggest
-- key, and a filter, if it has one, that denies none of its keys and never faults.
pub record Holds (sh : Shelf) (t : Table) : Type 0 where
  pub order : InKeyOrder (sh.contents t)
  pub keys : All (λ x. IsKey x.key) (sh.contents t)
  pub low : All (λ x. UpTo t.smallest x.key) (sh.contents t)
  pub high : All (λ x. UpTo x.key t.biggest) (sh.contents t)
  pub last : Any (λ x. x.key ≡ t.biggest) (sh.contents t)
  pub total : (h : ℕ) → does_not_have (sh.filter t) h ≢ none
  pub sound :
      All (λ x. does_not_have (sh.filter t) (hash (parse_key x.key)) ≡ some false) (sh.contents t)

-- The answer is the newest version in the tables: none of theirs is newer, and it is one of theirs,
-- or there is none of a version above 0.
pub record IsNewest (sh : Shelf) (key : Bytes) (got : Option ValueStruct) (ts : List Table)
    : Type 0 where
  pub bounds : All (λ t. Bounds key got (sh.contents t)) ts
  pub origin : (got ≡ none) ⊎ Any (λ t. Found key got (sh.contents t)) ts

module _ (sh : Shelf) (key : Bytes) (is_key : IsKey key) where
  -- What a table whose filter denies the key would have made of the answer: nothing.
  denied :
      (t : Table) (max : Option ValueStruct)
      → Holds sh t
      → does_not_have (sh.filter t) (hash (parse_key key)) ≡ some true
      → Considered key max max (sh.contents t)
  denied t max v e = record {
    bounds =
        All-mono _ _
          (λ x no m. absurd (ground (arith, e, no, ap hash (parse_key-same key x.key m.0))))
          (sh.contents t) v.sound;
    origin = inl refl;
    grows = omega arith;
  }

  abbrev Result : Option ValueStruct → List Table → Type 0
  Result max ts =
      (got : Option ValueStruct) × (get_in sh key max ts ≡ some got)
      × All (λ t. Bounds key got (sh.contents t)) ts
      × ((got ≡ max) ⊎ Any (λ t. Found key got (sh.contents t)) ts)
      × (version_of max ≤ version_of got)

  raised :
      (a b : Option ValueStruct) (xs : List KeyValue)
      → version_of a ≤ version_of b
      → Bounds key a xs
      → Bounds key b xs
  raised a b xs le h = All-mono _ _ (λ x f m. omega (arith, f m)) xs h

  -- One table, and then the others.
  after_table :
      (t : Table) (ts : List Table) (max next : Option ValueStruct)
      → Considered key max next (sh.contents t)
      → get_in sh key max (t ∷ ts) ≡ get_in sh key next ts
      → Result next ts
      → Result max (t ∷ ts)
  after_table t ts max next c step (got, e, b, o, g) = (
    got,
    step ∙ e,
    (raised next got (sh.contents t) g c.bounds, b),
    origin o c.origin,
    omega (arith, c.grows, g),
  )
    where
      origin :
          (got ≡ next) ⊎ Any (λ u. Found key got (sh.contents u)) ts
          → (next ≡ max) ⊎ Found key next (sh.contents t)
          → (got ≡ max) ⊎ Any (λ u. Found key got (sh.contents u)) (t ∷ ts)
      origin (inr f) c' = inr (inr f)
      origin (inl same) (inl e') = inl (same ∙ e')
      origin (inl same) (inr f) = rw same (inr (inl f))

  pub get_in-Result :
      (ts : List Table) (max : Option ValueStruct) → All (Holds sh) ts → Result max ts
  unfolding get_in
  get_in-Result [] max v = (max, refl, tt, inl refl, omega arith)
  get_in-Result (t ∷ ts) max v =
      elim (Option-cases (does_not_have (sh.filter t) (hash (parse_key key)))) [
        | inl bad ↦ absurd (v.0.total (hash (parse_key key)) bad)
        | inr (true, skip) ↦
            after_table t ts max max (denied t max v.0 skip) (ground (arith, skip))
              (get_in-Result ts max v.1)
        | inr (false, look) ↦
            after_table t ts max (consider key max (seek key (sh.contents t)))
              (consider-Considered key max (sh.contents t) is_key v.0.keys v.0.order)
              (ground (arith, look))
              (get_in-Result ts (consider key max (seek key (sh.contents t))) v.1)
      ]

  -- A pair at the end of a table, with what is known of all its pairs.
  last_pair :
      (b : Bytes) (P : KeyValue → Type 0) (xs : List KeyValue)
      → Any (λ x. x.key ≡ b) xs
      → All P xs
      → All (λ x. IsKey x.key) xs
      → (y : KeyValue) × (y.key ≡ b) × P y × IsKey y.key
  last_pair b P [] a h ks = absurd a
  last_pair b P (x ∷ xs) (inl e) h ks = (x, e, h.0, ks.0)
  last_pair b P (x ∷ xs) (inr a) h ks = last_pair b P xs a h.1 ks.1

  -- A table after one that reaches the key has no newer version than that one.
  beyond :
      (t u : Table) (got : Option ValueStruct)
      → Holds sh t
      → Holds sh u
      → reaches key t ≡ true
      → Before t.biggest u.smallest
      → Bounds key got (sh.contents t)
      → Bounds key got (sh.contents u)
  beyond t u got v w r before b =
      let (y, e, at_y, key_y) =
        last_pair t.biggest (λ x. Matches key x → parse_ts x.key ≤ version_of got) (sh.contents t)
          v.last b v.keys in
      older y (subst (λ c. not (is_lt (compare_keys c key)) ≡ true) (sym e) r) key_y at_y
        (sh.contents u) w.keys
        (All-mono _ _
          (λ x low.
            subst (λ c. Before c x.key) (sym e)
              (Before-UpTo_trans t.biggest u.smallest x.key before low))
          (sh.contents u) w.low)
    where
      older :
          (y : KeyValue)
          → not (is_lt (compare_keys y.key key)) ≡ true
          → IsKey y.key
          → (Matches key y → parse_ts y.key ≤ version_of got)
          → (xs : List KeyValue) → All (λ x. IsKey x.key) xs
          → All (λ x. Before y.key x.key) xs
          → Bounds key got xs
      older y from key_y at_y [] ks after = tt
      older y from key_y at_y (x ∷ xs) ks after = (
        λ m. elim (Bool-cases (same_key key y.key)) [
          | inr other ↦ absurd (none_later key y is_key key_y (ground arith) other x after.0 m.0)
          | inl same ↦
              let e = sym (parse_key-same key y.key same) ∙ parse_key-same key x.key m.0 in
              omega (arith, newer_first y.key x.key key_y ks.0 e after.0, at_y (same, ground arith))
        ],
        older y from key_y at_y xs ks.1 after.1,
      )

  -- A table before the one that reaches the key has no version that could be answered.
  short_of :
      (u : Table) (got : Option ValueStruct)
      → Holds sh u
      → reaches key u ≡ false
      → Bounds key got (sh.contents u)
  short_of u got w r =
      All-mono _ _
        (λ x high m. absurd (ground (arith, m.1, r, UpTo-Before x.key u.biggest key high)))
        (sh.contents u) w.high

  -- What the table at the index has bounds the whole level, by its order.
  level-Bounds :
      (ts : List Table) (r : ℕ) (got : Option ValueStruct)
      → AreDisjoint ts
      → All (Holds sh) ts
      → ((i : ℕ) → i < r → at_index (reaches key) ts i ≡ false)
      → ((t : Table) → get_elem? ts r ≡ some t → Bounds key got (sh.contents t))
      → ((t : Table) → get_elem? ts r ≡ some t → reaches key t ≡ true)
      → All (λ t. Bounds key got (sh.contents t)) ts
  level-Bounds [] r got d v below at reach = tt
  level-Bounds (t ∷ ts) zero got d v below at reach = (at t refl, others ts d.1 v.1)
    where
      others :
          (us : List Table)
          → All (λ u. Before t.biggest u.smallest) us
          → All (Holds sh) us
          → All (λ u. Bounds key got (sh.contents u)) us
      others [] b w = tt
      others (u ∷ us) b w =
          (beyond t u got v.0 w.0 (reach t refl) b.0 (at t refl), others us b.1 w.1)
  level-Bounds (t ∷ ts) (suc r) got d v below at reach = (
    short_of t got v.0 (below 0 (omega arith)),
    level-Bounds ts r got d.2 v.1 (λ i lt. below (suc i) (omega arith)) at reach,
  )

  Any-at :
      (P : Table → Type 0) (ts : List Table) (r : ℕ) (t : Table)
      → get_elem? ts r ≡ some t
      → P t
      → Any P ts
  Any-at P [] r t e p = absurd (cc)
  Any-at P (u ∷ ts) zero t e p = inl (subst P (sym (eq_of_some e)) p)
  Any-at P (u ∷ ts) (suc r) t e p = inr (Any-at P ts r t e p)

  All-reverse : (P : Table → Type 0) (ts : List Table) → All P ts → All P (reverse_tables ts)
  All-reverse P [] a = tt
  All-reverse P (t ∷ ts) a =
      All-append P (reverse_tables ts) (t ∷ []) (All-reverse P ts a.1) (a.0, tt)

  All-reverse_inv : (P : Table → Type 0) (ts : List Table) → All P (reverse_tables ts) → All P ts
  All-reverse_inv P [] a = tt
  All-reverse_inv P (t ∷ ts) a =
      let (l, r) = All-append_inv P (reverse_tables ts) (t ∷ []) a in (r.0, All-reverse_inv P ts l)

  Any-reverse_inv : (P : Table → Type 0) (ts : List Table) → Any P (reverse_tables ts) → Any P ts
  Any-reverse_inv P [] a = a
  Any-reverse_inv P (t ∷ ts) a = elim (Any-append_inv P (reverse_tables ts) (t ∷ []) a) [
    | inl b ↦ inr (Any-reverse_inv P ts b)
    | inr (inl p) ↦ inl p
    | inr (inr n) ↦ absurd n
  ]

  -- A level where getTableForKey answers one table at most.
  ordered_get :
      (ts : List Table) (r : ℕ)
      → AreDisjoint ts
      → All (Holds sh) ts
      → Splits (length ts) (at_index (reaches key) ts) r
      → (got : Option ValueStruct) × (get_in sh key none
            (elim (get_elem? ts r) [ none ↦ [] | some t ↦ t ∷ [] ])
          ≡ some got)
        × IsNewest sh key got ts
  unfolding get_in
  ordered_get ts r d v split = elim (Option-cases (get_elem? ts r)) [
    | inl past ↦ (
      none,
      ground (arith, past),
      record {
        bounds = level-Bounds ts r none d v split.below (λ t e. absurd (cc)) (λ t e. absurd (cc));
        origin = inl refl;
      },
    )
    | inr (t, at) ↦
        let below = lt_of_get_elem? ts r at in
        let (got, e, b, o, g) = get_in-Result (t ∷ []) none (All-at (Holds sh) ts r t v at, tt) in
        (
          got,
          rw at e,
          record {
            bounds =
                level-Bounds ts r got d v split.below
                  (λ u e'.
                    subst (λ w. Bounds key got (sh.contents w)) (eq_of_some (sym at ∙ e')) b.0)
                  (λ u e'. ground (arith, split.from r (omega arith) below, e'));
            origin = elim (o) [
              | inl same ↦ inl same
              | inr (inl f) ↦ inr (Any-at (λ u. Found key got (sh.contents u)) ts r t at f)
              | inr (inr n) ↦ absurd n
            ];
          },
        )
  ]

-- The tables of a level as they should be: each as it is built, and, unless the level is one of
-- those whose tables may overlap, in order and apart.
pub record IsLevel (sh : Shelf) (s : LevelHandler) : Type 0 where
  pub tables : All (Holds sh) s.tables
  pub apart : is_unordered s.level ≡ false → AreDisjoint s.tables

tables_for_key-IsNewest :
    (sh : Shelf) (key : Bytes) (s : LevelHandler)
    → IsKey key
    → IsLevel sh s
    → (got : Option ValueStruct) × (get_in sh key none (tables_for_key key s) ≡ some got)
      × IsNewest sh key got s.tables
unfolding tables_for_key
tables_for_key-IsNewest sh key s k v = elim (Bool-cases (is_unordered s.level)) [
  | inl overlapping ↦
      let (got, e, b, o, g) =
        get_in-Result sh key k (reverse_tables s.tables) none
          (All-reverse sh key k (Holds sh) s.tables v.tables) in
      (
        got,
        rw overlapping e,
        record {
          bounds = All-reverse_inv sh key k (λ t. Bounds key got (sh.contents t)) s.tables b;
          origin = elim (o) [
            | inl same ↦ inl same
            | inr f ↦ inr (Any-reverse_inv sh key k (λ t. Found key got (sh.contents t)) s.tables f)
          ];
        },
      )
  | inr ordered ↦ rw ordered (
      ordered_get sh key k s.tables (search (length s.tables) (at_index (reaches key) s.tables))
        (v.apart ordered) v.tables (reaches-Splits key s.tables (v.apart ordered)))
]

-- get on a level whose tables are as they should be, for a key with its timestamp: it does not
-- fault, and it answers the newest version of the key, not newer than the asked one, that any of
-- the level's tables holds, with the version filled in; or nothing, where none is above version 0.
pub get-IsNewest :
    (fails : ℕ → Bool) (sh : Shelf) (key : Bytes) (s : LevelHandler) (fs : Files)
    → IsKey key
    → IsLevel sh s
    → (got : Option ValueStruct) × (fs' : Files) × (err : Bool) × (get fails sh key s fs
        ≡ some (got, fs', err))
      × IsNewest sh key got s.tables
unfolding get get_table_for_key
get-IsNewest fails sh key s fs k v =
    let (got, e, n) = tables_for_key-IsNewest sh key s k v in
    let held = get_table_for_key key s fs in
    let released = decr_refs fails held.0 held.1 in
    (got, released.0, released.1, ground (arith, e), n)
