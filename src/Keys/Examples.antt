-- ===== src/Keys/Examples.antt =====
-- Versioned keys on concrete bytes.
use pri_zzl_badger.Base.{◌≡◌, refl, [], ◌∷◌}
use pri_zzl_badger.Bytes.{Bytes, then_by, compare_bytes}
use pri_zzl_badger.Keys.{key_with_ts}

abbrev key_a : Bytes
key_a = 97 ∷ 98 ∷ []

newest_bytes : key_with_ts (97 ∷ []) 1 ≡ 97 ∷ 255 ∷ 255 ∷ 255 ∷ 255 ∷ 255 ∷ 255 ∷ 255 ∷ 254 ∷ []
unfolding key_with_ts pri_zzl_badger.Bytes.be_bytes
newest_bytes = refl
