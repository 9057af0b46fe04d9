-- ===== src/Bytes/Dict.antt =====
-- Go's `map[string]V` as an association list with at most one entry a key.
use pri_zzl_badger.Base.{◌≡◌, refl, Option, none, some, List, [], ◌∷◌, arith, if◌then◌else◌}
use pri_zzl_badger.Bytes.{Bytes, equal_bytes}
use pri_zzl_badger.Bytes.Order.{equal_bytes_iff}

abbrev pub BytesMap {ℓ} : Type ℓ → Type ℓ
BytesMap V = List (Bytes × V)

module _ {ℓ} {V : Type ℓ} where
  unfoldable pub lookup : Bytes → BytesMap V → Option V
  lookup k [] = none
  lookup k ((j, v) ∷ m) = if equal_bytes k j then some v else lookup k m

  unfoldable pub insert : Bytes → V → BytesMap V → BytesMap V
  insert k v [] = (k, v) ∷ []
  insert k v ((j, w) ∷ m) = if equal_bytes k j then (k, v) ∷ m else (j, w) ∷ insert k v m

  pub lookup-insert :
      (k j : Bytes) (v : V) (m : BytesMap V)
      → lookup j (insert k v m) ≡ (if equal_bytes j k then some v else lookup j m)
  unfolding lookup insert
  lookup-insert k j v [] = refl
  lookup-insert k j v ((i, w) ∷ m) =
      ground (
        arith,
        equal_bytes_iff k i,
        equal_bytes_iff j i,
        equal_bytes_iff j k,
        lookup-insert k j v m,
      )
