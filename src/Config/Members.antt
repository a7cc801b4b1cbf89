-- ===== src/Config/Members.antt =====
-- The default committee of config/config.go, and the committee's file.
use mathlib.Core.List.{append_cancel_left}
use s_mvba.Base.{
  ℕ, zero, suc, ◌+◌, ◌<◌, ℤ, pos, [], ◌∷◌, ◌++◌, append-nil, append_assoc, length, some, Bool, true,
  Map, insert, lookup-insert, int_eq, digest_eq, bytes_eq, All, All-append, All-imp, ◌≡◌, ◌≢◌, refl,
  sym, ap, arith, keys,
}
use s_mvba.Error.{panic, and_then}
use s_mvba.Crypto.{Bytes}
use s_mvba.Crypto.Shares.{PriShare}
use s_mvba.Committee.{Authority, size}
use s_mvba.Network.Delivery.{Apart}
use s_mvba.Config.Decimal.{itoa, itoa-injective}
use s_mvba.Config.JsonFile.{object, get_field, codes, Files, save_to_file, read_from_file}
use s_mvba.Config.{
  default_port, local_address, default_authority, default_authorities, gen_default_committee,
  read_authorities, gen_committee_from_file, sample_fields, committee_file,
  generate_smaple_committee,
}

local_address-injective : (p q : ℕ) → local_address p ≡ local_address q → p ≡ q
local_address-injective p q h =
    itoa-injective p q (append_cancel_left (codes "127.0.0.1:") (itoa p) (itoa q) h)

module _ {Scalar PubPoly : Type 0} (drawn : ℕ → Bytes × Bytes)
    (gen_ts_keys : ℕ → ℕ → (ℕ → PriShare Scalar) × PubPoly) where
  abbrev pub authority : ℕ → ℕ → Authority
  authority n i = default_authority drawn gen_ts_keys n i

  -- The entries of `k` ids from `i` on.
  abbrev pub entries : ℕ → ℕ → ℕ → Map ℤ Authority
  entries zero n i = []
  entries (suc k) n i = (pos i, authority n i) ∷ entries k n (suc i)

  abbrev Below : ℕ → Map ℤ Authority → Type 0
  Below i auths = All (λ (e : ℤ × Authority). (j : ℕ) × (e.0 ≡ pos j) × (j < i)) auths

  insert-new :
      (i : ℕ) (a : Authority) (auths : Map ℤ Authority)
      → Below i auths
      → insert (pos i) a auths ≡ auths ++ (pos i, a) ∷ []
  unfolding insert
  insert-new i a [] below = refl
  insert-new i a ((id, b) ∷ auths) ((j, e, lt), below) = grind (keys, insert-new i a auths below)

  pub default_authorities-entries :
      (k n i : ℕ) (auths : Map ℤ Authority)
      → Below i auths
      → default_authorities drawn gen_ts_keys k n i auths ≡ auths ++ entries k n i
  unfolding default_authorities
  default_authorities-entries zero n i auths below = sym (append-nil auths)
  default_authorities-entries (suc k) n i auths below =
      let new : Map ℤ Authority = (pos i, authority n i) ∷ [] in
      let P : ℕ → ℤ × Authority → Type 0 = λ m e. (j : ℕ) × (e.0 ≡ pos j) × (j < m) in
      let further = All-imp (P i) (P (suc i)) auths (λ e (j, q, lt). (j, q, omega arith)) below in
      let rest =
        default_authorities-entries k n (suc i) (auths ++ new)
          (All-append (P (suc i)) auths new further ((i, refl, omega arith), tt)) in
      rw (insert-new i (authority n i) auths below, rest)
        (append_assoc auths new (entries k n (suc i)))

  length-entries : (k n i : ℕ) → length (entries k n i) ≡ k
  length-entries zero n i = refl
  length-entries (suc k) n i = ap suc (length-entries k n (suc i))

  entries_apart :
      (get : Authority → Bytes) (n : ℕ)
      → ((i j : ℕ) → get (authority n i) ≡ get (authority n j) → i ≡ j)
      → (k j i : ℕ) → i < j
      → All (λ (e : ℤ × Authority). get e.1 ≢ get (authority n i)) (entries k n j)
  entries_apart get n injective zero j i lt = tt
  entries_apart get n injective (suc k) j i lt = (
    λ e. absurd (omega (arith, injective j i e)),
    entries_apart get n injective k (suc j) i (omega arith),
  )

  Apart-entries :
      (get : Authority → Bytes) (n : ℕ)
      → ((i j : ℕ) → get (authority n i) ≡ get (authority n j) → i ≡ j)
      → (k i : ℕ) → Apart get (entries k n i)
  Apart-entries get n injective zero i = tt
  Apart-entries get n injective (suc k) i = (
    entries_apart get n injective k (suc i) i (omega arith),
    Apart-entries get n injective k (suc i),
  )

  -- A default committee of n nodes has n members, and no two of them have one address, of the consensus
  -- or of the mempool.
  pub default_committee-Apart :
      (n : ℕ)
      → (size (gen_default_committee drawn gen_ts_keys n).0 ≡ n)
        × Apart (λ a. a.addr) (gen_default_committee drawn gen_ts_keys n).0.authorities
        × Apart (λ a. a.mempool_addr) (gen_default_committee drawn gen_ts_keys n).0.authorities
  unfolding gen_default_committee size
  default_committee-Apart n = rw (default_authorities-entries n n 0 [] tt) (
    length-entries n n 0,
    Apart-entries (λ a. a.addr) n
        (λ i j e. omega (arith, local_address-injective (default_port + i) (default_port + j) e)) n
        0,
    Apart-entries (λ a. a.mempool_addr) n
        (λ i j e.
          omega (arith, local_address-injective (default_port + n + i) (default_port + n + j) e))
        n 0,
  )

  -- The file that `GenerateSmapleCommittee` writes has no addresses of the mempool: whatever keys are
  -- drawn, reading it as a committee panics.
  pub sample_unreadable :
      (can_open : Bytes → Bool) (files : Files)
      → can_open committee_file ≡ true
      → and_then
          (generate_smaple_committee drawn gen_ts_keys can_open files)
          (gen_committee_from_file committee_file)
        ≡ panic
  unfolding generate_smaple_committee save_to_file gen_committee_from_file read_from_file
      gen_default_committee sample_fields read_authorities get_field bytes_eq
  sample_unreadable can_open files up =
      rw
        (
          up,
          default_authorities-entries 4 4 0 [] tt,
          lookup-insert committee_file committee_file
              (some (object (sample_fields (entries 4 4 0)))) files,
        )
        refl
