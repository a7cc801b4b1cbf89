-- ===== src/Mempool/Payloads.antt =====
-- What mempool/mempool.go takes from its queue, accepts from others, and answers about payloads.
use s_mvba.Base.{
  ℕ, ◌-◌, ◌<◌, ◌↔◌, ℤ, pos, Bool, true, false, ◌||◌, none, List, [], ◌∷◌, ◌≡◌, refl, All, Map, leb,
  length, digest_eq, bytes_eq, delete, lookup, lookup-delete, eqz, if◌then◌else◌, arith, Bool-cases,
  inl, inr,
}
use s_mvba.Error.{ok}
use s_mvba.Committee.{Committee, name}
use s_mvba.Crypto.{Digest, Primitives, SigService}
use s_mvba.Message.Signing.{signed_lem}
use s_mvba.Pool.{Batch}
use s_mvba.Mempool.{status_ok, Disk, MempoolSite, Mempool, payload_hash, new_block, verify_block}
use s_mvba.Mempool.Handlers.{
  handle_make_block_msg, handle_verify_msg, take_keys, delete_all, keys_of, missing, is_error,
  verified,
}

abbrev pub has_digest : Digest → List Digest → Bool
has_digest d [] = false
has_digest d (x ∷ xs) = bytes_eq x d || has_digest d xs

lookup-delete_all :
    (ds : List Digest) (d : Digest) (q : Map Digest (Unit {0}))
    → lookup d (delete_all ds q) ≡ (if has_digest d ds then none else lookup d q)
unfolding delete_all
lookup-delete_all [] d q = refl
lookup-delete_all (x ∷ xs) d q =
    ground (arith, lookup-delete_all xs d (delete x q), lookup-delete x d q)

length-take_keys :
    (k : ℕ) (ds : List Digest)
    → 0 < k
    → length (take_keys (pos k) ds) ≡ (if leb k (length ds) then k else length ds)
unfolding take_keys eqz
length-take_keys k [] h = ground arith
length-take_keys k (d ∷ ds) h = ground (arith, length-take_keys (k - 1) ds)

module _ {W : Type 0} (dk : Disk W) (cr : Primitives) (n : MempoolSite) where
  -- A request for a consensus block that finds digests in the queue is answered with as many of
  -- them as it asks for, or as many as `range` yields when they are fewer; what is handed out leaves the
  -- queue, and nothing else does.
  pub make_block_takes :
      (k : ℕ) (s : Mempool W)
      → 0 < k
      → 0 < length s.queue
      → let keys = dk.range (keys_of s.queue) s.world in
        let ret = take_keys (pos k) keys in
        ((handle_make_block_msg dk cr n (pos k) s).0 ≡ ok ret)
        × (length ret ≡ (if leb k (length keys) then k else length keys))
        × ((d : Digest)
            → lookup d (handle_make_block_msg dk cr n (pos k) s).1.queue
              ≡ (if has_digest d ret then none else lookup d s.queue))
  unfolding handle_make_block_msg
  make_block_takes k s h l =
      let keys = dk.range (keys_of s.queue) s.world in
      (
        ground arith,
        length-take_keys k keys h,
        λ d. ground (arith, lookup-delete_all (take_keys (pos k) keys) d s.queue),
      )

  missing_none :
      (ds : List Digest) (w : W)
      → (missing dk cr n ds w ≡ []) ↔ All (λ d. is_error dk cr n (dk.read d w) ≡ false) ds
  unfolding missing
  missing_none [] w = (λ _. tt, λ _. refl)
  missing_none (d ∷ ds) w = elim (Bool-cases (is_error dk cr n (dk.read d w))) [
    | inl h ↦ rw h ((λ e. cc), λ p. cc)
    | inr h ↦ let rest = missing_none ds w in rw h ((λ e. (refl, rest.0 e)), λ p. rest.1 p.1)
  ]

  verified_ok :
      (proposer epoch : ℤ) (hash : Digest) (ds : List Digest) (s : Mempool W)
      → ((verified dk cr n proposer epoch hash ds s).0 ≡ ok status_ok) ↔ (ds ≡ [])
  verified_ok proposer epoch hash [] s = ((λ _. refl), λ _. refl)
  verified_ok proposer epoch hash (d ∷ ds) s = ((λ h. cc), λ h. cc)

  -- The mempool answers `OK` for a consensus block exactly when the store reads every one of its
  -- payloads without an error.
  pub verify_complete :
      (proposer epoch : ℤ) (ds : List Digest) (hash : Digest) (s : Mempool W)
      → ((handle_verify_msg dk cr n proposer epoch ds hash s).0 ≡ ok status_ok)
        ↔ All (λ d. is_error dk cr n (dk.read d s.world) ≡ false) ds
  unfolding handle_verify_msg
  verify_complete proposer epoch ds hash s =
      let a = verified_ok proposer epoch hash (missing dk cr n ds s.world) s in
      let b = missing_none ds s.world in ((λ h. b.0 (a.0 h)), λ h. a.1 (b.1 h))

-- A block of the constructor passes `Verify`, when the committee has the public key of its proposer, of
-- 32 bytes, and that key verifies what the proposer's private key signs.
pub new_block-verify :
    (cr : Primitives) (c : Committee) (sigs : SigService) (proposer : ℤ) (batch : Batch)
    → length (name c proposer) ≡ 32
    → ((d : Digest) → cr.ed_verify (name c proposer) d (cr.ed_sign sigs.pri_key d) ≡ true)
    → verify_block cr c (new_block cr sigs proposer batch) ≡ ok true
unfolding verify_block new_block
new_block-verify cr c sigs proposer batch h g =
    signed_lem cr sigs (name c proposer) (payload_hash cr proposer batch) h (g _)
