-- ===== src/Committee.antt =====
-- core/config.go: parameters, node ids, the committee and its thresholds.
pub mod Quorum
use s_mvba.Base.{
  ℕ, suc, ◌+◌, ◌-◌, ◌*◌, ◌/◌, ℤ, negsuc, pos, Bool, List, [], ◌∷◌, Option, none, some, Map, lookup,
  int_eq, eqz, bytes_eq, not, length, if◌then◌else◌,
}

-- The fields that the modelled code reads.
pub record Parameters : Type 0 where
  pub faults : ℤ
  pub max_payload_size : ℤ
  pub max_queen_size : ℕ

abbrev pub none_id : ℤ
none_id = negsuc 0

pub record Authority : Type 0 where
  pub name : List ℕ
  pub id : ℤ
  pub addr : List ℕ
  pub mempool_addr : List ℕ

abbrev pub no_authority : Authority
no_authority = record { name = []; id = pos 0; addr = []; mempool_addr = [] }

pub record Committee : Type 0 where
  pub authorities : Map ℤ Authority

abbrev pub or_zero : Option Authority → Authority
or_zero none = no_authority
or_zero (some a) = a

id_in : List ℕ → Map ℤ Authority → ℤ
id_in name [] = none_id
id_in name ((id, a) ∷ rest) = if bytes_eq a.name name then id else id_in name rest

unfoldable pub id_of : Committee → List ℕ → ℤ
unfolding id_in
id_of c name = id_in name c.authorities

unfoldable pub size : Committee → ℕ
size c = length c.authorities

unfoldable pub name : Committee → ℤ → List ℕ
name c id = (or_zero (lookup id c.authorities)).name

unfoldable pub address : Committee → ℤ → List ℕ
address c id = (or_zero (lookup id c.authorities)).addr

unfoldable pub mempool_address : Committee → ℤ → List ℕ
mempool_address c id = (or_zero (lookup id c.authorities)).mempool_addr

-- The loop of both broadcasts: the field `get` of every authority but `id`.
unfoldable pub others : (Authority → List ℕ) → ℤ → Map ℤ Authority → List (List ℕ)
others get id [] = []
others get id ((node, a) ∷ rest) =
    let tail = others get id rest in if not (eqz node id) then get a ∷ tail else tail

unfoldable pub broad_cast : Committee → ℤ → List (List ℕ)
broad_cast c id = others (λ a. a.addr) id c.authorities

unfoldable pub mempool_broad_cast : Committee → ℤ → List (List ℕ)
mempool_broad_cast c id = others (λ a. a.mempool_addr) id c.authorities

-- 2f+1
unfoldable pub hight_threshold : Committee → ℕ
unfolding size
hight_threshold c = 2 * ((size c - 1) / 3) + 1

-- f+1
unfoldable pub low_threshold : Committee → ℕ
unfolding size
low_threshold c = (size c - 1) / 3 + 1
