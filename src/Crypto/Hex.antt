-- ===== src/Crypto/Hex.antt =====
-- crypto/crypto.go, the hexadecimal texts of keys, with `hex.Encode` and `hex.Decode` of Go's library.
-- A text is its bytes.
use s_mvba.Base.{
  ℕ, ◌+◌, ◌-◌, ◌*◌, ◌/◌, ◌%◌, ◌<◌, [], ◌∷◌, Option, none, some, All, leb, ltb, ◌&&◌, ◌≡◌, refl,
  if◌then◌else◌, arith, ap,
}
use s_mvba.Error.{Outcome, ok, err, Error, external, map_ok}
use s_mvba.Crypto.{Bytes}

-- `hex.InvalidByteError`, and `hex.ErrLength`.
abbrev pub invalid_byte : Error
invalid_byte = external 1

abbrev pub odd_length : Error
odd_length = external 2

unfoldable hex_digit : ℕ → ℕ
hex_digit n = if ltb n 10 then 48 + n else 87 + n

-- The digits, and the letters of either case.
unfoldable digit_value : ℕ → Option ℕ
digit_value c =
    if leb 48 c && leb c 57
    then some (c - 48)
    else if leb 97 c && leb c 102
    then some (c - 87)
    else if leb 65 c && leb c 70
    then some (c - 55)
    else none

unfoldable pub hex_encode : Bytes → Bytes
unfolding hex_digit
hex_encode [] = []
hex_encode (b ∷ bs) = hex_digit (b / 16) ∷ hex_digit (b % 16) ∷ hex_encode bs

abbrev lone_digit : Option ℕ → Outcome Bytes
lone_digit none = err invalid_byte
lone_digit (some d) = err odd_length

abbrev two_digits : Option ℕ → Option ℕ → Outcome Bytes → Outcome Bytes
two_digits (some high) (some low) rest = map_ok (λ bs. (16 * high + low) ∷ bs) rest
two_digits _ _ rest = err invalid_byte

-- The first byte that is no digit is the error, before an odd length.
unfoldable pub hex_decode : Bytes → Outcome Bytes
unfolding digit_value
hex_decode [] = ok []
hex_decode (c ∷ []) = lone_digit (digit_value c)
hex_decode (c ∷ d ∷ cs) = two_digits (digit_value c) (digit_value d) (hex_decode cs)

-- `EncodePublicKey` and `EncodePrivateKey`; a key is its bytes.
unfoldable pub encode_public_key : Bytes → Bytes
unfolding hex_encode
encode_public_key key = hex_encode key

unfoldable pub encode_private_key : Bytes → Bytes
unfolding hex_encode
encode_private_key key = hex_encode key

unfoldable pub decode_public_key : Bytes → Outcome Bytes
unfolding hex_decode
decode_public_key text = hex_decode text

unfoldable pub decode_private_key : Bytes → Outcome Bytes
unfolding hex_decode
decode_private_key text = hex_decode text

digit_value-hex_digit : (n : ℕ) → n < 16 → digit_value (hex_digit n) ≡ some n
unfolding digit_value hex_digit
digit_value-hex_digit n h = ground arith

hex_decode-hex_encode : (bs : Bytes) → All (λ b. b < 256) bs → hex_decode (hex_encode bs) ≡ ok bs
unfolding hex_decode hex_encode
hex_decode-hex_encode [] h = refl
hex_decode-hex_encode (b ∷ bs) h =
    rw
      (
        digit_value-hex_digit (b / 16) (omega (arith, h.0)),
        digit_value-hex_digit (b % 16) (omega arith),
        hex_decode-hex_encode bs h.1,
      )
      (ap (λ c. ok (c ∷ bs)) (omega arith))

-- A public and a private key of bytes are read back from their texts.
pub decode-encode_keys :
    (pub_key pri_key : Bytes)
    → All (λ b. b < 256) pub_key
    → All (λ b. b < 256) pri_key
    → (decode_public_key (encode_public_key pub_key) ≡ ok pub_key)
      × (decode_private_key (encode_private_key pri_key) ≡ ok pri_key)
unfolding decode_public_key encode_public_key decode_private_key encode_private_key
decode-encode_keys pub_key pri_key small small' =
    (hex_decode-hex_encode pub_key small, hex_decode-hex_encode pri_key small')
