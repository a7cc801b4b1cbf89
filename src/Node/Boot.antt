-- ===== src/Node/Boot.antt =====
-- What a node does as it starts: its loggers, where it listens, and the wait for the other nodes.
use s_mvba.Base.{
  ℕ, zero, suc, ◌+◌, ◌≤◌, ◌<◌, ℤ, pos, Bool, true, false, Bool-cases, inl, inr, List, [], ◌∷◌, ◌++◌,
  some, All, lookup, digest_eq, int_eq, eqz, ◌≡◌, refl, arith, if◌then◌else◌,
}
use s_mvba.Error.{ok}
use s_mvba.Crypto.{Bytes}
use s_mvba.Crypto.Shares.{PriShare}
use s_mvba.Committee.{address, mempool_address}
use s_mvba.Logger.{
  Log, to_file, discard, logs, has_bit, set_level, set_level_from, set_output, set_output_from,
  new_file_writer,
}
use s_mvba.Config.{local_address, gen_default_committee}
use s_mvba.Config.Decimal.{itoa, itoa-All}
use s_mvba.Config.Members.{authority, entries, default_authorities-entries}
use s_mvba.Config.JsonFile.{codes}
use s_mvba.Node.Start.{
  StartArgs, log_file, start_logs, split_colon, listen_address, dial_until, wait_all,
}

split_digits : (cs : Bytes) → All (λ c. (48 ≤ c) × (c ≤ 57)) cs → split_colon cs ≡ cs ∷ []
unfolding split_colon
split_digits [] h = refl
split_digits (c ∷ cs) ((low, high), more) = ground (arith, split_digits cs more)

-- The address on which a node of a default committee listens.
abbrev pub port_address : ℕ → Bytes
port_address port = 58 ∷ itoa port

listen_address-local : (port : ℕ) → listen_address (local_address port) ≡ ok (port_address port)
unfolding listen_address split_colon
listen_address-local port = rw (split_digits (itoa port) (itoa-All port)) refl

module _ {Scalar PubPoly : Type 0} (drawn : ℕ → Bytes × Bytes)
    (gen_ts_keys : ℕ → ℕ → (ℕ → PriShare Scalar) × PubPoly) where
  lookup-entries :
      (k n j i : ℕ)
      → j ≤ i
      → i < j + k
      → lookup (pos i) (entries drawn gen_ts_keys k n j) ≡ some (authority drawn gen_ts_keys n i)
  unfolding lookup eqz
  lookup-entries zero n j i low high = absurd (omega arith)
  lookup-entries (suc k) n j i low high = grind (arith, lookup-entries k n (suc j) i)

  default_lookup :
      (n i : ℕ)
      → i < n
      → lookup (pos i) (gen_default_committee drawn gen_ts_keys n).0.authorities
        ≡ some (authority drawn gen_ts_keys n i)
  unfolding gen_default_committee
  default_lookup n i lt =
      rw (default_authorities-entries drawn gen_ts_keys n n 0 [] tt)
        (lookup-entries n n 0 i (omega arith) (omega arith))

  default_address :
      (n i : ℕ)
      → i < n
      → (address (gen_default_committee drawn gen_ts_keys n).0 (pos i) ≡ local_address (9000 + i))
        × (mempool_address (gen_default_committee drawn gen_ts_keys n).0 (pos i)
            ≡ local_address (9000 + n + i))
  unfolding address mempool_address
  default_address n i lt = rw (address, mempool_address, default_lookup n i lt) (refl, refl)

  -- A node of a default committee of n nodes listens, for the consensus and for the mempool, on the port
  -- of the address that the others dial: 9000 + i, and 9000 + n + i.
  pub default_listens :
      (n i : ℕ)
      → i < n
      → (address (gen_default_committee drawn gen_ts_keys n).0 (pos i)
          ≡ codes "127.0.0.1" ++ port_address (9000 + i))
        × (listen_address (address (gen_default_committee drawn gen_ts_keys n).0 (pos i))
            ≡ ok (port_address (9000 + i)))
        × (mempool_address (gen_default_committee drawn gen_ts_keys n).0 (pos i)
            ≡ codes "127.0.0.1" ++ port_address (9000 + n + i))
        × (listen_address (mempool_address (gen_default_committee drawn gen_ts_keys n).0 (pos i))
            ≡ ok (port_address (9000 + n + i)))
  default_listens n i lt =
      let (dialed, mempool_dialed) = default_address n i lt in
      rw (dialed, mempool_dialed)
        (refl, listen_address-local (9000 + i), refl, listen_address-local (9000 + n + i))

-- The number of dials that failed before the first that was answered.
abbrev pub First : (ℕ → Bool) → ℕ → ℕ → Type 0
First up from n = (up n ≡ true) × (from ≤ n) × ((m : ℕ) → from ≤ m → m < n → up m ≡ false)

dial_until-First :
    (up : ℕ → Bool) (fuel from k : ℕ)
    → from ≤ k
    → k < from + fuel
    → up k ≡ true
    → (n : ℕ) × (dial_until up fuel from ≡ some n) × First up from n
unfolding dial_until
dial_until-First up zero from k low high h = absurd (omega arith)
dial_until-First up (suc fuel) from k low high h = elim (Bool-cases (up from)) [
  | inl at_once ↦ (from, rw (at_once) refl, (at_once, omega arith, λ m a b. absurd (omega arith)))
  | inr failed ↦
      let later = dial_until-First up fuel (suc from) k (grind arith) (omega arith) h in
      let (n, e, (here, after, before)) = later in
      (n, rw (failed) e, (here, omega arith, λ m a b. grind (arith, before m)))
]

-- Each number is that of the dials of its address that failed.
abbrev pub Firsts : (Bytes → ℕ → Bool) → List Bytes → List ℕ → Type 0
Firsts up [] [] = Unit {0}
Firsts up (addr ∷ addrs) (n ∷ ns) = First (up addr) 0 n × Firsts up addrs ns
Firsts up _ _ = ⊥

-- When each address answers one of the first `fuel` dials, all goroutines end, and each has dialed up
-- to the first dial that is answered.
pub wait_all-Firsts :
    (up : Bytes → ℕ → Bool) (fuel : ℕ) (addrs : List Bytes)
    → All (λ addr. (k : ℕ) × (k < fuel) × (up addr k ≡ true)) addrs
    → (ns : List ℕ) × (wait_all up fuel addrs ≡ some ns) × Firsts up addrs ns
unfolding wait_all
wait_all-Firsts up fuel [] h = ([], refl, tt)
wait_all-Firsts up fuel (addr ∷ addrs) ((k, lt, answered), more) =
    let (n, e, here) = dial_until-First (up addr) fuel 0 k (omega arith) (omega arith) answered in
    let (ns, es, rest) = wait_all-Firsts up fuel addrs more in
    (n ∷ ns, rw (e, es) refl, (here, rest))

-- The output of the logger of an index, once it has its file.
abbrev shown : ℤ → ℕ → Bytes → Log
shown level i file = record {
  output = if has_bit level i then to_file file else discard;
  out = to_file file;
}

-- When the four files open, each logger writes to its own file if the bit of its index is set in the
-- level, and nowhere if not, whatever the loggers wrote to before.
pub start_logs_lem :
    (can_open : Bytes → Bool) (a : StartArgs)
    → can_open (log_file (codes "info") a) ≡ true
    → can_open (log_file (codes "debug") a) ≡ true
    → can_open (log_file (codes "error") a) ≡ true
    → can_open (log_file (codes "warn") a) ≡ true
    → start_logs can_open a logs
      ≡ ok (
          shown a.log_level 0 (log_file (codes "info") a)
          ∷ shown a.log_level 1 (log_file (codes "debug") a)
          ∷ shown a.log_level 2 (log_file (codes "error") a)
          ∷ shown a.log_level 3 (log_file (codes "warn") a)
          ∷ [])
unfolding start_logs new_file_writer set_output set_output_from set_level set_level_from
start_logs_lem can_open a i d e w = rw (i, d, e, w) refl
