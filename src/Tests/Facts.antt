-- ===== src/Tests/Facts.antt =====
-- Runs of the small functions of core/config.go, crypto/crypto.go and core/smvba/consensus.
use s_mvba.Base.{pos, negsuc, [], ◌∷◌, ◌≡◌, refl, lookup, eqz, bytes_eq, int_eq}
use s_mvba.Committee.{
  none_id, id_of, size, name, address, mempool_address, others, broad_cast, mempool_broad_cast,
  hight_threshold, low_threshold,
}
use s_mvba.Crypto.Binary.{append_int2}
use s_mvba.Tests.Toy.{four, authority}

ids :
    (id_of four (authority 2).name ≡ pos 2)
    × (id_of four [] ≡ none_id)
    × (address four (pos 1) ≡ 1 ∷ [])
    × (mempool_address four (pos 1) ≡ 100 ∷ 1 ∷ [])
    × (address four (pos 4) ≡ [])
unfolding id_of name address mempool_address lookup eqz bytes_eq
ids = (refl, refl, refl, refl, refl)

broad_casts :
    (broad_cast four (pos 1) ≡ (0 ∷ []) ∷ (2 ∷ []) ∷ (3 ∷ []) ∷ [])
    × (mempool_broad_cast four (pos 0) ≡ (100 ∷ 1 ∷ []) ∷ (100 ∷ 2 ∷ []) ∷ (100 ∷ 3 ∷ []) ∷ [])
unfolding broad_cast mempool_broad_cast others eqz
broad_casts = (refl, refl)

thresholds : (hight_threshold four ≡ 3) × (low_threshold four ≡ 2)
unfolding hight_threshold low_threshold size
thresholds = (refl, refl)

texts :
    (append_int2 (pos 0) ≡ 48 ∷ [])
    × (append_int2 (pos 6) ≡ 49 ∷ 49 ∷ 48 ∷ [])
    × (append_int2 (negsuc 1) ≡ 45 ∷ 49 ∷ 48 ∷ [])
unfolding append_int2
texts = (refl, refl, refl)
