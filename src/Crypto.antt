-- ===== src/Crypto.antt =====
-- crypto/crypto.go: digests, the hasher, signatures and the signing service.
-- SHA-256, Ed25519 and the threshold signatures are parameters; keys and shares are the bytes
-- that they are marshalled to.
pub mod Binary
pub mod Hex
pub mod Shares
use s_mvba.Base.{
  ℕ, ℤ, List, [], ◌++◌, map, Option, none, some, Bool, true, ◌==◌, length, if◌then◌else◌, replicate,
}
use s_mvba.Error.{Outcome, ok, err, panic, external}

abbrev pub Bytes : Type 0
Bytes = List ℕ

abbrev pub Digest : Type 0
Digest = List ℕ

abbrev pub zero_digest : Digest
zero_digest = replicate 32 0

pub record Primitives : Type 0 where
  -- `sha256.Sum256`.
  pub sha256 : Bytes → Digest
  -- `ed25519.Sign` of a private key and a message.
  pub ed_sign : Bytes → Bytes → Bytes
  -- `ed25519.Verify` of a public key of the right length, a message and a signature.
  pub ed_verify : Bytes → Bytes → Bytes → Bool
  -- `tbls.Sign` of a private share and a message; its error is not modelled.
  pub ts_sign : Bytes → Bytes → Bytes
  -- `tbls.Recover` of a public polynomial, a message, partial signatures, threshold and number.
  pub ts_recover : Bytes → Bytes → List Bytes → ℤ → ℤ → Option Bytes

pub record Hasher : Type 0 where
  pub bytes : Bytes

unfoldable pub new_hasher : Hasher
new_hasher = record { bytes = [] }

unfoldable pub add : Hasher → Bytes → Hasher
add h b = record { bytes = h.bytes ++ b }

-- The digest; the deferred reset of `h.data` leaves the new hasher.
unfoldable pub sum256 : Primitives → Hasher → Bytes → Digest × Hasher
unfolding new_hasher
sum256 cr h b = (cr.sha256 (h.bytes ++ b), new_hasher)

pub record SecretShareKey : Type 0 where
  pub pub_poly : Bytes
  pub pri_share : Bytes
  pub n : ℤ
  pub t : ℤ

pub record Signature : Type 0 where
  pub sig : Bytes

pub record SignatureShare : Type 0 where
  pub partial_sig : Bytes

-- `ed25519.Verify` panics on a key that is not 32 bytes long.
unfoldable pub verify_signature : Primitives → Signature → Bytes → Digest → Outcome Bool
verify_signature cr s pub_key digest =
    if length pub_key == 32 then ok (cr.ed_verify pub_key digest s.sig) else panic

-- `SignatureShare.Verify` accepts every share.
unfoldable pub verify_share : SignatureShare → Digest → Bool
verify_share s digest = true

unfoldable pub combine_intact_ts_partial :
    Primitives → List SignatureShare → SecretShareKey → Digest → Option Bytes
combine_intact_ts_partial cr shares key digest =
    cr.ts_recover key.pub_poly digest (map (λ s. s.partial_sig) shares) key.t key.n

pub record SigService : Type 0 where
  pub pri_key : Bytes
  pub share_key : SecretShareKey

-- A request is served by one goroutine; the reply never carries an error.
unfoldable pub request_signature : Primitives → SigService → Digest → Signature
request_signature cr s digest = record { sig = cr.ed_sign s.pri_key digest }

unfoldable pub request_ts_sugnature : Primitives → SigService → Digest → SignatureShare
request_ts_sugnature cr s digest = record { partial_sig = cr.ts_sign s.share_key.pri_share digest }
