-- ===== src/Config/Keys.antt =====
-- The key files of config/config.go are read back.
use s_mvba.Base.{
  ℕ, zero, suc, ◌+◌, ◌≤◌, ◌<◌, ◌^◌, pos, ◌++◌, some, Bool, true, lookup, insert, lookup-insert,
  digest_eq, bytes_eq, beq_refl, Bool-cases, ◌==◌, All, ◌≡◌, ◌≢◌, ◌⊎◌, inl, inr, refl, subst, ◌∙◌,
  arith, keys, false,
}
use mathlib.Core.List.{append_cancel_left, append_cancel_right}
use s_mvba.Error.{ok, and_then}
use s_mvba.Crypto.{Bytes}
use s_mvba.Crypto.Hex.{decode-encode_keys}
use s_mvba.Crypto.Shares.{
  PriShare, Kyber, KyberLaws, encode_ts_partial_key, encode_ts_public_key, decode-encode_shares,
}
use s_mvba.Config.Decimal.{itoa, itoa-injective}
use s_mvba.Config.JsonFile.{
  int_of-small, Json, get_field, codes, Files, save_to_file, write_numbered, read_from_file,
}
use s_mvba.Config.{
  key_file, ts_key_file, key_json, ts_json, generate_key_files, gen_keys_from_file,
  generate_ts_key_files, gen_ts_key_from_file,
}

le_cases : (i j : ℕ) → i ≤ j → (i ≡ j) ⊎ (suc i ≤ j)
le_cases i j h = elim (Bool-cases (i == j)) [
  | inl e ↦ inl (ground arith)
  | inr e ↦ inr (ground arith)
]

-- A name with an index between two fixed parts tells the index.
between-injective :
    (path middle last : Bytes) (i j : ℕ)
    → path ++ middle ++ itoa i ++ last ≡ path ++ middle ++ itoa j ++ last
    → i ≡ j
between-injective path middle last i j h = itoa-injective i j (
    append_cancel_left (path ++ middle) (itoa i) (itoa j)
      (append_cancel_right (path ++ middle ++ itoa i) (path ++ middle ++ itoa j) last h))

module _ (can_open : Bytes → Bool) (up : (name : Bytes) → can_open name ≡ true) (name : ℕ → Bytes)
    (injective : (i j : ℕ) → name i ≡ name j → i ≡ j) (json : ℕ → Json) where
  name_apart : (i j : ℕ) → i ≢ j → bytes_eq (name i) (name j) ≡ false
  name_apart i j h = grind (keys, injective i j)

  other_name :
      (i j : ℕ) (files : Files)
      → i ≢ j
      → lookup (name j) (insert (name i) (some (json i)) files) ≡ lookup (name j) files
  other_name i j files h =
      rw (lookup-insert (name i) (name j) (some (json i)) files, name_apart i j h) refl

  same_name :
      (i : ℕ) (files : Files)
      → lookup (name i) (insert (name i) (some (json i)) files) ≡ some (some (json i))
  same_name i files =
      rw (lookup-insert (name i) (name i) (some (json i)) files, beq_refl (name i)) refl

  -- The files of the loop, and those of earlier rounds.
  write_numbered_lem :
      (k i : ℕ) (files : Files)
      → (out : Files) × (write_numbered can_open name json k i files ≡ ok out)
        × ((j : ℕ) → j < i → lookup (name j) out ≡ lookup (name j) files)
        × ((j : ℕ) → i ≤ j → j < i + k → lookup (name j) out ≡ some (some (json j)))
  unfolding write_numbered save_to_file
  write_numbered_lem zero i files = (files, refl, λ j h. refl, λ j h h'. absurd (omega arith))
  write_numbered_lem (suc k) i files =
      let next : Files = insert (name i) (some (json i)) files in
      let (out, runs, earlier, later) = write_numbered_lem k (suc i) next in
      (
        out,
        rw (up (name i)) runs,
        λ j h. earlier j (omega arith) ∙ other_name i j files (λ e. absurd (omega arith)),
        λ j h h'. elim (le_cases i j h) [
          | inl e ↦
              subst (λ (m : ℕ). lookup (name m) out ≡ some (some (json m))) e
                (earlier i (omega arith) ∙ same_name i files)
          | inr lt ↦ later j lt (omega arith)
        ],
      )

module _ (can_open : Bytes → Bool) (up : (name : Bytes) → can_open name ≡ true) where
  -- The key files that are written for any number of pairs of keys of bytes are read back: each gives
  -- the pair that was drawn for it, when every file can be opened.
  pub read-generate_keys :
      (drawn : ℕ → Bytes × Bytes) (pairs i : ℕ) (path : Bytes) (files : Files)
      → i < pairs
      → All (λ b. b < 256) (drawn i).1
      → All (λ b. b < 256) (drawn i).0
      → and_then
          (generate_key_files can_open drawn pairs path files)
          (gen_keys_from_file (key_file path i))
        ≡ ok ((drawn i).1, (drawn i).0)
  unfolding generate_key_files gen_keys_from_file read_from_file key_file get_field bytes_eq
  read-generate_keys drawn pairs i path files lt small small' =
      let apart = between-injective path (codes "/.node-key-") (codes ".json") in
      let (out, runs, earlier, saved) =
        write_numbered_lem can_open up (key_file path) apart (key_json can_open drawn) pairs 0
          files in
      let back = decode-encode_keys (drawn i).1 (drawn i).0 small small' in
      rw (runs, saved i (omega arith) (omega arith), back.0, back.1) refl

  -- The threshold keys of every node are read back with their numbers, when the texts of the shares and of
  -- the public key are encoded without an error, the numbers are below 2^53, and kyber and JSON read back what they write.
  pub read-generate_ts_keys :
      {Scalar Point PubPoly : Type 0} (k : Kyber Scalar Point PubPoly) (laws : KyberLaws k)
      (shares : ℕ → PriShare Scalar) (pub_poly : PubPoly) (n t i : ℕ) (path partial whole : Bytes)
      (files : Files)
      → i < n
      → n < 2 ^ 53
      → t < 2 ^ 53
      → encode_ts_partial_key k (shares i) ≡ ok partial
      → encode_ts_public_key k pub_poly ≡ ok whole
      → and_then
          (generate_ts_key_files k can_open shares pub_poly n t path files)
          (gen_ts_key_from_file k (ts_key_file path i))
        ≡ ok (record { pub_poly = pub_poly; pri_share = shares i; n = pos n; t = pos t })
  unfolding generate_ts_key_files gen_ts_key_from_file read_from_file ts_key_file get_field bytes_eq
  read-generate_ts_keys k laws shares pub_poly n t i path partial whole files lt fit fit' h h' =
      let apart = between-injective path (codes "/.node-ts-key-") (codes ".json") in
      let (out, runs, earlier, saved) =
        write_numbered_lem can_open up (ts_key_file path) apart
          (ts_json k can_open shares pub_poly n t) n 0 files in
      let back = decode-encode_shares k laws (shares i) pub_poly partial whole h h' in
      rw
        (
          runs,
          saved i (omega arith) (omega arith),
          h,
          h',
          int_of-small n fit,
          int_of-small t fit',
          back.0,
          back.1,
        )
        refl
