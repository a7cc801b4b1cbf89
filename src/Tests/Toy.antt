-- ===== src/Tests/Toy.antt =====
-- A committee of four, primitives that can be run, and a store that is a map.
use s_mvba.Base.{
  ℕ, ℤ, pos, [], ◌∷◌, Option, none, some, true, replicate, length, Map, lookup, insert, bytes_eq,
  digest_eq,
}
use s_mvba.Error.{Error, Outcome, ok, err, not_found_key, external}
use s_mvba.Committee.{Committee, Authority}
use s_mvba.Crypto.{Bytes, Digest, Primitives, SigService}
use s_mvba.Message.{ConsensusBlock}
use s_mvba.Spb.{Site}
use s_mvba.Core.{Services}

abbrev pub toy : Primitives
toy = record {
  sha256 = λ b. length b ∷ [];
  ed_sign = λ key d. d;
  ed_verify = λ key d s. bytes_eq d s;
  ts_sign = λ share d. d;
  ts_recover = λ poly d shares t n. none;
}

abbrev pub authority : ℕ → Authority
authority k = record {
  name = replicate 32 k;
  id = pos k;
  addr = k ∷ [];
  mempool_addr = 100 ∷ k ∷ [];
}

abbrev pub four : Committee
four = record {
  authorities =
      (pos 0, authority 0)
      ∷ (pos 1, authority 1)
      ∷ (pos 2, authority 2)
      ∷ (pos 3, authority 3)
      ∷ [];
}

abbrev pub sigs : SigService
sigs = record {
  pri_key = 7 ∷ [];
  share_key = record { pub_poly = []; pri_share = []; n = pos 4; t = pos 3 };
}

abbrev pub site : Site
site = record {
  name = pos 0;
  committee = four;
  parameters = record { faults = pos 0; max_payload_size = pos 10; max_queen_size = 4 };
  sig_service = sigs;
}

abbrev pub Disk : Type 0
Disk = Map Digest Bytes

abbrev numbers : ℤ → ℤ → Option Bytes
numbers (pos p) (pos e) = some (p ∷ e ∷ [])
numbers _ _ = none

abbrev encoded : ConsensusBlock → Option Bytes
encoded b = numbers b.proposer b.epoch

abbrev decoded : Bytes → Option ConsensusBlock
decoded (p ∷ e ∷ []) = some (record { proposer = pos p; pay_loads = []; epoch = pos e })
decoded _ = none

abbrev or_missing : Option Bytes → Error → Outcome Bytes
or_missing none e = err e
or_missing (some b) e = ok b

-- A store whose error for a missing key is `missing`.
abbrev pub services : Error → Services Disk
services missing = record {
  encode = encoded;
  decode = decoded;
  write = λ k v w. (none, insert k v w);
  read = λ k w. or_missing (lookup k w) missing;
  make_block = λ size w. ([], w);
  verify_block = λ proposer epoch payloads hash w. (true, w);
}

abbrev pub good : Services Disk
good = services not_found_key

-- As with NutsDB, whose errors the store passes on.
abbrev pub strange : Services Disk
strange = services (external 9)

-- The empty block of a node and an epoch.
abbrev pub block : ℤ → ℤ → ConsensusBlock
block proposer epoch = record { proposer = proposer; pay_loads = []; epoch = epoch }
