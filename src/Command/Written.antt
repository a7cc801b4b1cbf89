-- ===== src/Command/Written.antt =====
-- The files that the commands `keys` and `threshold_keys` of main.go leave, as a node reads them.
use s_mvba.Base.{
  ℕ, zero, suc, ◌<◌, ◌^◌, pos, ◌++◌, some, Bool, true, lookup, insert, lookup-insert, digest_eq,
  bytes_eq, All, ◌≡◌, ◌≢◌, refl, sym, ap, append_assoc, ◌∙◌, arith, keys, false,
}
use mathlib.Core.List.{append_cancel_left}
use s_mvba.Error.{Outcome, ok, and_then}
use s_mvba.Crypto.{Bytes}
use s_mvba.Crypto.Shares.{PriShare, Kyber, KyberLaws, encode_ts_partial_key, encode_ts_public_key}
use s_mvba.Config.Decimal.{itoa}
use s_mvba.Config.JsonFile.{Json, codes, Files, save_to_file, write_numbered, read_from_file}
use s_mvba.Config.{
  key_file, ts_key_file, generate_key_files, gen_keys_from_file, generate_ts_key_files,
  gen_ts_key_from_file, key_json, ts_json,
}
use s_mvba.Config.Keys.{read-generate_keys, read-generate_ts_keys}
use s_mvba.Command.{execute, key_cmd, tss_key_cmd}

regroup : (p m a l : Bytes) → p ++ m ++ a ++ l ≡ p ++ (m ++ a ++ l)
regroup p m a l = ap (λ w. w ++ l) (append_assoc p m a) ∙ append_assoc p (m ++ a) l

key_file_apart : (path : Bytes) (i j : ℕ) → ts_key_file path j ≢ key_file path i
unfolding key_file ts_key_file
key_file_apart path i j h =
    let ts = codes "/.node-ts-key-" in
    let plain = codes "/.node-key-" in
    let last = codes ".json" in
    let tails =
      append_cancel_left path (ts ++ itoa j ++ last) (plain ++ itoa i ++ last)
        (sym (regroup path ts (itoa j) last) ∙ h ∙ regroup path plain (itoa i) last) in
    grind (arith, tails)

module _ {Scalar Point PubPoly : Type 0} (can_open : Bytes → Bool) (k : Kyber Scalar Point PubPoly)
    (drawn : ℕ → Bytes × Bytes) (gen_ts_keys : ℕ → ℕ → (ℕ → PriShare Scalar) × PubPoly) where
  -- The files that the two commands leave, one after the other in one directory.
  abbrev pub written : ℕ → ℕ → ℕ → Bytes → Files → Outcome Files
  written nodes n t path files =
      and_then (execute k drawn gen_ts_keys can_open (key_cmd nodes path) files)
        (execute k drawn gen_ts_keys can_open (tss_key_cmd n t path))

module _ (can_open : Bytes → Bool) (up : (name : Bytes) → can_open name ≡ true) (name : ℕ → Bytes)
    (json : ℕ → Json) where
  -- A loop that writes files leaves a file with another name as it was.
  write_numbered-other :
      (other : Bytes)
      → ((j : ℕ) → name j ≢ other)
      → (k i : ℕ) (files : Files)
      → (out : Files) × (write_numbered can_open name json k i files ≡ ok out)
        × (lookup other out ≡ lookup other files)
  unfolding write_numbered save_to_file
  write_numbered-other other apart zero i files = (files, refl, refl)
  write_numbered-other other apart (suc k) i files =
      let next : Files = insert (name i) (some (json i)) files in
      let (out, runs, same) = write_numbered-other other apart k (suc i) next in
      let missed : bytes_eq (name i) other ≡ false = grind (keys, apart i) in
      let elsewhere : lookup other next ≡ lookup other files =
        rw (lookup-insert (name i) other (some (json i)) files, missed) refl in
      (out, rw (up (name i)) runs, same ∙ elsewhere)

module _ (can_open : Bytes → Bool) (up : (name : Bytes) → can_open name ≡ true)
    {Scalar Point PubPoly : Type 0} (k : Kyber Scalar Point PubPoly) (laws : KyberLaws k)
    (drawn : ℕ → Bytes × Bytes) (gen_ts_keys : ℕ → ℕ → (ℕ → PriShare Scalar) × PubPoly) where
  keys_run :
      (nodes : ℕ) (path : Bytes) (files : Files)
      → (out : Files) × (generate_key_files can_open drawn nodes path files ≡ ok out)
  unfolding generate_key_files
  keys_run nodes path files =
      let (out, runs, same) =
        write_numbered-other can_open up (key_file path) (key_json can_open drawn)
          (ts_key_file path 0) (λ j e. key_file_apart path j 0 (sym e)) nodes 0 files in
      (out, runs)

  ts_keys_run :
      (n t i : ℕ) (path : Bytes) (files : Files)
      → (out : Files) × (generate_ts_key_files k can_open
            (gen_ts_keys t n).0
            (gen_ts_keys t n).1
            n
            t
            path
            files
          ≡ ok out)
        × (gen_keys_from_file (key_file path i) out ≡ gen_keys_from_file (key_file path i) files)
  unfolding generate_ts_key_files gen_keys_from_file read_from_file
  ts_keys_run n t i path files =
      let (out, runs, same) =
        write_numbered-other can_open up (ts_key_file path)
          (ts_json k can_open (gen_ts_keys t n).0 (gen_ts_keys t n).1 n t) (key_file path i)
          (key_file_apart path i) n 0 files in
      (out, runs, rw (same) refl)

  -- When `keys` and then `threshold_keys` run in one directory, each node of both reads back the pair that
  -- was drawn for it, of bytes, and its share with the key and the numbers, when every file opens, the
  -- texts are encoded, the numbers are below 2^53, and kyber and JSON read back what they write.
  pub execute-keys :
      (nodes n t i : ℕ) (path partial whole : Bytes) (files : Files)
      → i < nodes
      → i < n
      → n < 2 ^ 53
      → t < 2 ^ 53
      → All (λ b. b < 256) (drawn i).1
      → All (λ b. b < 256) (drawn i).0
      → encode_ts_partial_key k ((gen_ts_keys t n).0 i) ≡ ok partial
      → encode_ts_public_key k (gen_ts_keys t n).1 ≡ ok whole
      → (and_then
            (written can_open k drawn gen_ts_keys nodes n t path files)
            (gen_keys_from_file (key_file path i))
          ≡ ok ((drawn i).1, (drawn i).0))
        × (and_then
              (written can_open k drawn gen_ts_keys nodes n t path files)
              (gen_ts_key_from_file k (ts_key_file path i))
            ≡ ok (record {
              pub_poly = (gen_ts_keys t n).1;
              pri_share = (gen_ts_keys t n).0 i;
              n = pos n;
              t = pos t;
            }))
  unfolding execute
  execute-keys nodes n t i path partial whole files lt lt' fit fit' small small' h h' =
      let (one, runs) = keys_run nodes path files in
      let (two, runs', kept) = ts_keys_run n t i path one in
      let pair = read-generate_keys can_open up drawn nodes i path files lt small small' in
      let share =
        read-generate_ts_keys can_open up k laws (gen_ts_keys t n).0 (gen_ts_keys t n).1 n t i path
          partial whole one lt' fit fit' h h' in
      let pair' : gen_keys_from_file (key_file path i) one ≡ ok ((drawn i).1, (drawn i).0) =
        rw (runs) at pair in
      (rw (runs, runs', kept) pair', rw (runs) share)
