-- ===== src/Config.antt =====
-- config/config.go: the files of keys and of the committee, and the default committee. JSON values are
-- data, files are a map from names, and the keys that are drawn are parameters.
pub mod Decimal
pub mod JsonFile
pub mod Keys
pub mod Members
pub mod Sample
use s_mvba.Base.{
  ℕ, zero, suc, ◌+◌, ℤ, pos, negsuc, List, [], ◌∷◌, ◌++◌, Option, none, some, Bool, map, Map,
  lookup, insert, delete, int_eq, digest_eq, if◌then◌else◌,
}
use s_mvba.Error.{Outcome, ok, err, panic, and_then, map_ok}
use s_mvba.Crypto.{Bytes}
use s_mvba.Crypto.Hex.{encode_public_key, encode_private_key, decode_public_key, decode_private_key}
use s_mvba.Crypto.Shares.{
  PriShare, Kyber, encode_ts_partial_key, encode_ts_public_key, decode_ts_partial_key,
  decode_ts_public_key,
}
use s_mvba.Committee.{Authority, Committee, hight_threshold}
use s_mvba.Config.Decimal.{itoa, atoi}
use s_mvba.Config.JsonFile.{
  codes, Json, text, number, object, null, other, Fields, no_fields, field, get_field, as_string,
  as_number, as_object, Files, save_to_file, write_numbered, read_from_file,
}

-- `fmt.Sprintf("%s/.node-key-%d.json", path, i)`, and the name for the threshold keys.
unfoldable pub key_file : Bytes → ℕ → Bytes
key_file path i = path ++ codes "/.node-key-" ++ itoa i ++ codes ".json"

unfoldable pub ts_key_file : Bytes → ℕ → Bytes
ts_key_file path i = path ++ codes "/.node-ts-key-" ++ itoa i ++ codes ".json"

module _ (can_open : Bytes → Bool) where
  -- The pairs that `GenED25519Keys` draws, private keys first.
  module _ (keys : ℕ → Bytes × Bytes) where
    abbrev pub key_json : ℕ → Json
    key_json i =
        let (pri, pub_key) = keys i in
        object (
          field (codes "public") (text (encode_public_key pub_key))
            (field (codes "private") (text (encode_private_key pri)) no_fields))

    unfoldable pub generate_key_files : ℕ → Bytes → Files → Outcome Files
    unfolding write_numbered
    generate_key_files pairs path files =
        write_numbered can_open (key_file path) key_json pairs 0 files

unfoldable pub gen_keys_from_file : Bytes → Files → Outcome (Bytes × Bytes)
gen_keys_from_file name files = and_then (read_from_file name files) (λ entries.
    and_then (as_string (get_field (codes "public") entries)) (λ pub_text.
      and_then (as_string (get_field (codes "private") entries)) (λ pri_text.
        and_then (decode_public_key pub_text)
          (λ pub_key. map_ok (λ pri_key. (pub_key, pri_key)) (decode_private_key pri_text)))))

pub record TsKey (Scalar PubPoly : Type 0) : Type 0 where
  pub pub_poly : PubPoly
  pub pri_share : PriShare Scalar
  pub n : ℤ
  pub t : ℤ

-- `b, _ := f()` for bytes: nil beside an error.
abbrev pub or_nil : Outcome Bytes → Bytes
or_nil (ok b) = b
or_nil _ = []

module _ {Scalar Point PubPoly : Type 0} (k : Kyber Scalar Point PubPoly) where
  module _ (can_open : Bytes → Bool) (shares : ℕ → PriShare Scalar) (pub_poly : PubPoly) where
    abbrev pub ts_json : ℕ → ℕ → ℕ → Json
    ts_json n t i = object (
        field (codes "share") (text (or_nil (encode_ts_partial_key k (shares i)))) (
          field (codes "pub") (text (or_nil (encode_ts_public_key k pub_poly)))
            (field (codes "N") (number (pos n)) (field (codes "T") (number (pos t)) no_fields))))

    -- Over the shares and the key of `GenTSKeys(T, N)`.
    unfoldable pub generate_ts_key_files : ℕ → ℕ → Bytes → Files → Outcome Files
    unfolding write_numbered
    generate_ts_key_files n t path files =
        write_numbered can_open (ts_key_file path) (ts_json n t) n 0 files

  unfoldable pub gen_ts_key_from_file : Bytes → Files → Outcome (TsKey Scalar PubPoly)
  gen_ts_key_from_file name files = and_then (read_from_file name files) (λ entries.
      and_then (as_string (get_field (codes "share") entries)) (λ share.
        and_then (as_string (get_field (codes "pub") entries)) (λ pub_text.
          and_then (as_number (get_field (codes "N") entries)) (λ n.
            and_then (as_number (get_field (codes "T") entries)) (λ t.
              and_then (decode_ts_partial_key k share) (λ pri_share.
                map_ok
                  (λ pub_poly. record { pub_poly = pub_poly; pri_share = pri_share; n = n; t = t })
                  (decode_ts_public_key k pub_text)))))))

-- One entry of the committee's file; a name that is no key is the empty key.
abbrev pub read_authority : Bytes → Json → Outcome Authority
read_authority id item = and_then (as_object item) (λ info.
    and_then (as_string (get_field (codes "name") info)) (λ name_text.
      and_then (as_string (get_field (codes "addr") info)) (λ addr.
        map_ok
          (λ mempool_addr. record {
            name = or_nil (decode_public_key name_text);
            id = atoi id;
            addr = addr;
            mempool_addr = mempool_addr;
          })
          (as_string (get_field (codes "mempool_addr") info)))))

unfoldable pub read_authorities : Fields → Map ℤ Authority → Outcome (Map ℤ Authority)
read_authorities no_fields auths = ok auths
read_authorities (field id item rest) auths =
    and_then (read_authority id item) (λ a. read_authorities rest (insert (atoi id) a auths))

unfoldable pub gen_committee_from_file : Bytes → Files → Outcome Committee
unfolding read_authorities
gen_committee_from_file name files =
    and_then (read_from_file name files)
      (λ entries. map_ok (λ auths. record { authorities = auths }) (read_authorities entries []))

abbrev pub default_port : ℕ
default_port = 9000

abbrev pub local_address : ℕ → Bytes
local_address port = codes "127.0.0.1:" ++ itoa port

module _ {Scalar PubPoly : Type 0} (keys : ℕ → Bytes × Bytes)
    (gen_ts_keys : ℕ → ℕ → (ℕ → PriShare Scalar) × PubPoly) where
  abbrev pub default_authority : ℕ → ℕ → Authority
  default_authority n i = record {
    name = (keys i).1;
    id = pos i;
    addr = local_address (default_port + i);
    mempool_addr = local_address (default_port + n + i);
  }

  -- The loop over the ids, with `k` rounds to go.
  unfoldable pub default_authorities : ℕ → ℕ → ℕ → Map ℤ Authority → Map ℤ Authority
  default_authorities zero n i auths = auths
  default_authorities (suc k) n i auths =
      default_authorities k n (suc i) (insert (pos i) (default_authority n i) auths)

  abbrev ids : ℕ → ℕ → List ℕ
  ids zero i = []
  ids (suc k) i = i ∷ ids k (suc i)

  -- The committee, the private keys and the threshold keys.
  unfoldable pub gen_default_committee : ℕ → Committee × List Bytes × List (TsKey Scalar PubPoly)
  unfolding default_authorities
  gen_default_committee n =
      let c : Committee = record { authorities = default_authorities n n 0 [] } in
      let (shares, pub_poly) = gen_ts_keys (hight_threshold c) n in
      (
        c,
        map (λ i. (keys i).0) (ids n 0),
        map
            (λ i. record {
              pub_poly = pub_poly;
              pri_share = shares i;
              n = pos n;
              t = pos (hight_threshold c);
            })
            (ids n 0),
      )

-- `strconv.Itoa` of an id.
abbrev pub id_text : ℤ → Bytes
id_text (pos n) = itoa n
id_text (negsuc n) = 45 ∷ itoa (suc n)

abbrev sample_info : ℤ → Authority → Json
sample_info id a = object (
    field (codes "name") (text (encode_public_key a.name))
      (field (codes "node_id") (number id) (field (codes "addr") (text a.addr) no_fields)))

unfoldable pub sample_fields : Map ℤ Authority → Fields
sample_fields [] = no_fields
sample_fields ((id, a) ∷ auths) = field (id_text id) (sample_info id a) (sample_fields auths)

abbrev pub committee_file : Bytes
committee_file = codes "./.committee.json"

module _ {Scalar PubPoly : Type 0} (keys : ℕ → Bytes × Bytes)
    (gen_ts_keys : ℕ → ℕ → (ℕ → PriShare Scalar) × PubPoly) where
  unfoldable pub generate_smaple_committee : (Bytes → Bool) → Files → Outcome Files
  unfolding sample_fields
  generate_smaple_committee can_open files =
      save_to_file can_open committee_file
        (object (sample_fields (gen_default_committee keys gen_ts_keys 4).0.authorities)) files
