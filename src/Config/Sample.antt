-- ===== src/Config/Sample.antt =====
-- The parameters' file of config/config.go, with the parameters of core/config.go and pool/config.go.
use s_mvba.Base.{
  ℕ, ◌+◌, ◌-◌, ◌^◌, ℤ, pos, negsuc, Bool, true, false, List, [], ◌∷◌, map, Option, none, some,
  lookup, lookup-insert, digest_eq, bytes_eq, beq_refl, leb, ◌&&◌, All, ◌≡◌, refl, if◌then◌else◌,
}
use s_mvba.Error.{Outcome, ok, err, and_then, external}
use s_mvba.Crypto.{Bytes}
use s_mvba.Config.JsonFile.{
  codes, Json, null, number, boolean, object, Fields, no_fields, field, or_field, json_error, Files,
  save_to_file,
}

-- `core.Parameters`, with all its fields.
pub record CoreParameters : Type 0 where
  pub sync_timeout : ℤ
  pub network_delay : ℤ
  pub min_block_delay : ℤ
  pub ddos : Bool
  pub faults : ℤ
  pub retry_delay : ℤ
  pub protocol : ℤ
  pub max_payload_size : ℤ
  pub max_queen_size : ℕ
  pub min_payload_delay : ℤ
  pub sync_retry_delay : ℤ

-- `pool.Parameters`, with values of an int.
pub record PoolSettings : Type 0 where
  pub rate : ℤ
  pub tx_size : ℤ
  pub batch_size : ℤ
  pub max_queue_size : ℤ

pub record FileParameters : Type 0 where
  pub pool : PoolSettings
  pub consensus : CoreParameters

unfoldable pub gen_default_parameters : FileParameters
gen_default_parameters = record {
  pool = record {
    rate = pos 1000;
    tx_size = pos 16;
    batch_size = pos 200;
    max_queue_size = pos 10000;
  };
  consensus = record {
    sync_timeout = pos 500;
    network_delay = pos 2000;
    min_block_delay = pos 0;
    ddos = false;
    faults = pos 0;
    retry_delay = pos 5000;
    protocol = pos 1;
    max_payload_size = pos 1000;
    max_queen_size = 10000;
    min_payload_delay = pos 200;
    sync_retry_delay = pos 10000;
  };
}

-- JSON finds a field of a struct by its name in any case.
unfoldable pub lower : Bytes → Bytes
lower = map (λ c. if leb 65 c && leb c 90 then c + 32 else c)

unfoldable pub get_folded : Bytes → Fields → Option Json
unfolding lower
get_folded key no_fields = none
get_folded key (field name v rest) =
    or_field (get_folded key rest) (bytes_eq (lower name) (lower key)) v

-- The bounds of an int.
abbrev pub in_int : ℤ → Bool
in_int (pos n) = leb n (2 ^ 63 - 1)
in_int (negsuc n) = leb n (2 ^ 63 - 1)

-- A field that is missing or null keeps the zero value.
abbrev pub as_int : Option Json → Outcome ℤ
as_int none = ok (pos 0)
as_int (some null) = ok (pos 0)
as_int (some (number z)) = if in_int z then ok z else err json_error
as_int (some _) = err json_error

abbrev pub as_uint64 : Option Json → Outcome ℕ
as_uint64 none = ok 0
as_uint64 (some null) = ok 0
as_uint64 (some (number (pos n))) = if leb n (2 ^ 64 - 1) then ok n else err json_error
as_uint64 (some _) = err json_error

abbrev pub as_bool : Option Json → Outcome Bool
as_bool none = ok false
as_bool (some null) = ok false
as_bool (some (boolean b)) = ok b
as_bool (some _) = err json_error

abbrev pub as_struct : Option Json → Outcome Fields
as_struct none = ok no_fields
as_struct (some null) = ok no_fields
as_struct (some (object fs)) = ok fs
as_struct (some _) = err json_error

abbrev pub int_field : Bytes → ℤ → Fields → Fields
int_field name z rest = field name (number z) rest

abbrev pub pool_json : PoolSettings → Json
pool_json p = object (
    int_field (codes "rate") p.rate (
      int_field (codes "tx_size") p.tx_size (
        int_field (codes "batch_size") p.batch_size
          (int_field (codes "max_tx_queue_size") p.max_queue_size no_fields))))

abbrev pub mempool_fields : CoreParameters → Fields
mempool_fields c = int_field (codes "max_payload_size") c.max_payload_size (
    int_field (codes "max_queen_size") (pos c.max_queen_size) (
      int_field (codes "min_Payload_delay") c.min_payload_delay
        (int_field (codes "sync_retry_delay") c.sync_retry_delay no_fields)))

abbrev pub core_json : CoreParameters → Json
core_json c = object (
    int_field (codes "sync_timeout") c.sync_timeout (
      int_field (codes "network_delay") c.network_delay (
        int_field (codes "min_block_delay") c.min_block_delay (
          field (codes "ddos") (boolean c.ddos) (
            int_field (codes "faults") c.faults (
              int_field (codes "retry_delay") c.retry_delay
                (int_field (codes "protocol") c.protocol (mempool_fields c))))))))

abbrev pub parameters_json : FileParameters → Json
parameters_json ps = object (
    field (codes "pool") (pool_json ps.pool)
      (field (codes "consensus") (core_json ps.consensus) no_fields))

abbrev pub parameters_file : Bytes
parameters_file = codes "./.parameters.json"

unfoldable pub generate_sample_parameters : (Bytes → Bool) → Files → Outcome Files
unfolding gen_default_parameters
generate_sample_parameters can_open files =
    save_to_file can_open parameters_file (parameters_json gen_default_parameters) files

-- The chain of the fields of a struct, which ends at the first that has a wrong type.
infixl 5 ◌>>=◌
abbrev ◌>>=◌ : {A B : Type 0} → Outcome A → (A → Outcome B) → Outcome B
◌>>=◌ = and_then

unfoldable pub read_pool : Fields → Outcome PoolSettings
unfolding get_folded
read_pool fs = do
  rate ← as_int (get_folded (codes "rate") fs)
  tx_size ← as_int (get_folded (codes "tx_size") fs)
  batch_size ← as_int (get_folded (codes "batch_size") fs)
  size ← as_int (get_folded (codes "max_tx_queue_size") fs)
  ok (record { rate = rate; tx_size = tx_size; batch_size = batch_size; max_queue_size = size })

unfoldable pub read_core : Fields → Outcome CoreParameters
unfolding get_folded
read_core fs = do
  sync_timeout ← as_int (get_folded (codes "sync_timeout") fs)
  network_delay ← as_int (get_folded (codes "network_delay") fs)
  min_block_delay ← as_int (get_folded (codes "min_block_delay") fs)
  ddos ← as_bool (get_folded (codes "ddos") fs)
  faults ← as_int (get_folded (codes "faults") fs)
  retry_delay ← as_int (get_folded (codes "retry_delay") fs)
  protocol ← as_int (get_folded (codes "protocol") fs)
  max_payload_size ← as_int (get_folded (codes "max_payload_size") fs)
  max_queen_size ← as_uint64 (get_folded (codes "max_queen_size") fs)
  min_payload_delay ← as_int (get_folded (codes "min_Payload_delay") fs)
  sync_retry_delay ← as_int (get_folded (codes "sync_retry_delay") fs)
  ok (record {
    sync_timeout = sync_timeout;
    network_delay = network_delay;
    min_block_delay = min_block_delay;
    ddos = ddos;
    faults = faults;
    retry_delay = retry_delay;
    protocol = protocol;
    max_payload_size = max_payload_size;
    max_queen_size = max_queen_size;
    min_payload_delay = min_payload_delay;
    sync_retry_delay = sync_retry_delay;
  })

-- A JSON value that is decoded into the struct `Parameters`: null changes nothing.
abbrev pub decode_parameters : Option Json → Outcome FileParameters
decode_parameters v = do
  fs ← as_struct v
  pool_fields ← as_struct (get_folded (codes "pool") fs)
  core_fields ← as_struct (get_folded (codes "consensus") fs)
  pool ← read_pool pool_fields
  consensus ← read_core core_fields
  ok (record { pool = pool; consensus = consensus })

-- The content of a file: an error, and not a panic, when it is not opened.
abbrev pub opened : Option (Option Json) → Outcome FileParameters
opened none = err (external 6)
opened (some none) = err json_error
opened (some (some v)) = decode_parameters (some v)

unfoldable pub gen_paramaters_from_file : Bytes → Files → Outcome FileParameters
unfolding read_pool read_core
gen_paramaters_from_file name files = opened (lookup name files)

abbrev pub pool_ints : PoolSettings → List ℤ
pool_ints p = p.rate ∷ p.tx_size ∷ p.batch_size ∷ p.max_queue_size ∷ []

abbrev pub core_ints : CoreParameters → List ℤ
core_ints c =
    c.sync_timeout ∷ c.network_delay ∷ c.min_block_delay ∷ c.faults ∷ c.retry_delay ∷ c.protocol
    ∷ c.max_payload_size ∷ c.min_payload_delay ∷ c.sync_retry_delay ∷ []

-- Parameters that a Go program can hold.
abbrev pub InRange : FileParameters → Type 0
InRange ps =
    All (λ z. in_int z ≡ true) (pool_ints ps.pool)
    × All (λ z. in_int z ≡ true) (core_ints ps.consensus)
    × (leb ps.consensus.max_queen_size (2 ^ 64 - 1) ≡ true)

read_pool-pool_json :
    (p : PoolSettings)
    → All (λ z. in_int z ≡ true) (pool_ints p)
    → and_then (as_struct (some (pool_json p))) read_pool ≡ ok p
unfolding read_pool get_folded lower bytes_eq
read_pool-pool_json p h = rw (h.0, h.1.0, h.1.1.0, h.1.1.1.0) refl

read_core-core_json :
    (c : CoreParameters)
    → All (λ z. in_int z ≡ true) (core_ints c)
    → leb c.max_queen_size (2 ^ 64 - 1) ≡ true
    → and_then (as_struct (some (core_json c))) read_core ≡ ok c
unfolding read_core get_folded lower bytes_eq
read_core-core_json c (a1, (a2, (a3, (a4, (a5, (a6, (a7, (a8, (a9, rest))))))))) q =
    rw (a1, a2, a3, a4, a5, a6, a7, q, a8, a9) refl

-- Parameters that a Go program can hold are read back from the JSON text of the struct.
pub decode-parameters_json :
    (ps : FileParameters) → InRange ps → decode_parameters (some (parameters_json ps)) ≡ ok ps
unfolding get_folded lower bytes_eq
decode-parameters_json ps (p, c, q) =
    rw (read_pool-pool_json ps.pool p, read_core-core_json ps.consensus c q) refl

-- The sample file of the parameters is read back as the default parameters.
pub read-generate_sample :
    (can_open : Bytes → Bool) (files : Files)
    → can_open parameters_file ≡ true
    → and_then
        (generate_sample_parameters can_open files)
        (gen_paramaters_from_file parameters_file)
      ≡ ok gen_default_parameters
unfolding generate_sample_parameters save_to_file gen_paramaters_from_file gen_default_parameters
read-generate_sample can_open files up =
    let v = parameters_json gen_default_parameters in
    rw (up, lookup-insert parameters_file parameters_file (some v) files, beq_refl parameters_file)
      (decode-parameters_json gen_default_parameters (
        (refl, (refl, (refl, (refl, tt)))),
        (refl, (refl, (refl, (refl, (refl, (refl, (refl, (refl, (refl, tt))))))))),
        refl,
      ))
