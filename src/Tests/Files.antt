-- ===== src/Tests/Files.antt =====
-- Concrete keys, shares and files for crypto/crypto.go and config/config.go, and a clock for pool/pool.go.
use s_mvba.Base.{
  ℕ, zero, suc, ◌+◌, ◌*◌, ◌/◌, ◌<◌, ℤ, pos, negsuc, List, [], ◌∷◌, ◌++◌, some, Bool, true, leb, map,
  length, replicate, All, ◌≡◌, refl, arith,
}
use s_mvba.Error.{Outcome, ok, err, panic, external}
use s_mvba.Crypto.{Bytes}
use s_mvba.Crypto.Hex.{hex_encode, hex_decode}
use s_mvba.Crypto.Shares.{
  PriShare, TsPartialMarshalled, TsPublicMarshalled, Kyber, KyberLaws, encode_ts_partial_key,
  encode_ts_public_key, marshall_ts_partial_key, marshall_ts_public_key, each_ok,
}
use s_mvba.Committee.{address, mempool_address}
use s_mvba.Config.Decimal.{itoa, atoi}
use s_mvba.Config.JsonFile.{codes}
use s_mvba.Config.{gen_default_committee}
use s_mvba.Logger.{std_out, discard, logs, deploy_level, set_level, set_level_from}
use s_mvba.Node.Start.{split_colon, listen_address, dial_until, wait_all}
use s_mvba.Node.Boot.{port_address, default_listens}
use s_mvba.Pool.Ring.{pending}
use s_mvba.Pool.Fifo.{contents}
use s_mvba.Pool.Maker.{default_parameters, new_pool, run_pool, pool_rate}

number_texts :
    (itoa 9003 ≡ codes "9003") × (atoi (codes "-12") ≡ negsuc 11) × (atoi (codes "1x") ≡ pos 0)
unfolding itoa atoi
number_texts = (refl, refl, refl)

hex_texts :
    (hex_encode (171 ∷ 5 ∷ []) ≡ codes "ab05")
    × (hex_decode (codes "AB05") ≡ ok (171 ∷ 5 ∷ []))
    × (hex_decode (codes "ab0") ≡ err (external 2))
    × (hex_decode (codes "ag") ≡ err (external 1))
unfolding hex_encode hex_decode
hex_texts = (refl, refl, refl, refl)

abbrev key_bytes : Bytes
key_bytes = 171 ∷ 5 ∷ []

-- The private and the public key of node `i`.
abbrev pub drawn : ℕ → Bytes × Bytes
drawn i = (replicate 64 i, replicate 32 i)

abbrev pub always : Bytes → Bool
always name = true

pub All-twos : (n : ℕ) → All (λ b. b < 256) (replicate n 2)
All-twos zero = tt
All-twos (suc n) = (omega arith, All-twos n)

-- Scalars and points that are numbers, and polynomials of degree 0.
abbrev partial_text : ℤ → Bytes → Bytes
partial_text (pos n) b = 0 ∷ n ∷ b
partial_text (negsuc n) b = 1 ∷ n ∷ b

abbrev read_partial : Bytes → Outcome TsPartialMarshalled
read_partial (zero ∷ n ∷ b) = ok (record { i = pos n; binary = b })
read_partial (suc zero ∷ n ∷ b) = ok (record { i = negsuc n; binary = b })
read_partial _ = err (external 5)

abbrev public_text : Bytes → List Bytes → Outcome Bytes
public_text (p ∷ []) ((q ∷ []) ∷ []) = ok (p ∷ q ∷ [])
public_text _ _ = err (external 5)

abbrev read_public : Bytes → Outcome TsPublicMarshalled
read_public (p ∷ q ∷ []) = ok (record { base_bytes = p ∷ []; commit_bytes = (q ∷ []) ∷ [] })
read_public _ = err (external 5)

abbrev one_number : Bytes → Outcome ℕ
one_number (n ∷ []) = ok n
one_number _ = err (external 5)

abbrev first_or_zero : List ℕ → ℕ
first_or_zero [] = 0
first_or_zero (q ∷ qs) = q

abbrev pub numbers : Kyber ℕ ℕ (ℕ × ℕ)
numbers = record {
  marshal_scalar = λ v. ok (v ∷ []);
  unmarshal_scalar = one_number;
  marshal_point = λ p. ok (p ∷ []);
  unmarshal_point = one_number;
  info = λ p. (p.0, p.1 ∷ []);
  new_pub_poly = λ base commits. (base, first_or_zero commits);
  share_hash = λ s. s.v ∷ [];
  json_partial = λ m. ok (partial_text m.i m.binary);
  parse_partial = read_partial;
  json_public = λ m. public_text m.base_bytes m.commit_bytes;
  parse_public = read_public;
}

partial_back :
    (i : ℤ) (b t : Bytes)
    → ok (partial_text i b) ≡ ok t
    → read_partial t ≡ ok (record { i = i; binary = b })
partial_back (pos n) b t h = let q : t ≡ 0 ∷ n ∷ b = cc in rw (q) refl
partial_back (negsuc n) b t h = let q : t ≡ 1 ∷ n ∷ b = cc in rw (q) refl

public_back :
    (base : Bytes) (commits : List Bytes) (t : Bytes)
    → public_text base commits ≡ ok t
    → read_public t ≡ ok (record { base_bytes = base; commit_bytes = commits })
public_back (p ∷ []) ((q ∷ []) ∷ []) t h = let e : t ≡ p ∷ q ∷ [] = cc in rw (e) refl
public_back [] commits t h = absurd cc
public_back (p ∷ x ∷ base) commits t h = absurd cc
public_back (p ∷ []) [] t h = absurd cc
public_back (p ∷ []) ([] ∷ commits) t h = absurd cc
public_back (p ∷ []) ((q ∷ x ∷ c) ∷ commits) t h = absurd cc
public_back (p ∷ []) ((q ∷ []) ∷ c ∷ commits) t h = absurd cc

number_back : (v : ℕ) (b : Bytes) → ok (v ∷ []) ≡ ok b → one_number b ≡ ok v
number_back v b h = let q : b ≡ v ∷ [] = cc in rw (q) refl

pub numbers_laws : KyberLaws numbers
numbers_laws = record {
  scalar_back = number_back;
  point_back = number_back;
  poly_back = λ p. refl;
  partial_back = λ m b h. partial_back m.i m.binary b h;
  public_back = λ m b h. public_back m.base_bytes m.commit_bytes b h;
}

abbrev pub shares : ℕ → PriShare ℕ
shares i = record { i = pos i; v = 40 + i }

pub share_text : encode_ts_partial_key numbers (shares 2) ≡ ok (0 ∷ 2 ∷ 42 ∷ [])
unfolding encode_ts_partial_key marshall_ts_partial_key
share_text = refl

pub public_key_text : encode_ts_public_key numbers (8, 9) ≡ ok (8 ∷ 9 ∷ [])
unfolding encode_ts_public_key marshall_ts_public_key each_ok
public_key_text = refl

abbrev pub dealt : ℕ → ℕ → (ℕ → PriShare ℕ) × (ℕ × ℕ)
dealt t n = (shares, (8, 9))

default_listens_example :
    (address (gen_default_committee drawn dealt 4).0 (pos 2)
      ≡ codes "127.0.0.1" ++ port_address (9000 + 2))
    × (listen_address (address (gen_default_committee drawn dealt 4).0 (pos 2))
        ≡ ok (port_address (9000 + 2)))
    × (mempool_address (gen_default_committee drawn dealt 4).0 (pos 2)
        ≡ codes "127.0.0.1" ++ port_address (9000 + 4 + 2))
    × (listen_address (mempool_address (gen_default_committee drawn dealt 4).0 (pos 2))
        ≡ ok (port_address (9000 + 4 + 2)))
default_listens_example = default_listens drawn dealt 4 2 (omega arith)

-- A node that answers the third dial, and another that answers the first.
abbrev slow : Bytes → ℕ → Bool
slow addr k = leb 2 (k + length addr)

two_waited : wait_all slow 3 ([] ∷ (1 ∷ 2 ∷ []) ∷ []) ≡ some (2 ∷ 0 ∷ [])
unfolding wait_all dial_until
two_waited = refl

-- An address with no port, and one of IPv6.
odd_addresses :
    (listen_address (codes "localhost") ≡ panic)
    × (listen_address (codes "[::1]:9000") ≡ ok (codes ":"))
unfolding listen_address split_colon
odd_addresses = (refl, refl)

-- The default level shows all but the debug log.
default_logs :
    map (λ l. l.output) (set_level deploy_level logs) ≡ (std_out ∷ discard ∷ std_out ∷ std_out ∷ [])
unfolding set_level set_level_from
default_logs = refl

-- Nine ticks of the default maker: 450 transactions, two batches of 200.
pool_rate_example :
    let p = run_pool 9 (new_pool default_parameters 4 1) in
    (length (contents p.batch_channel) + length (pending p.queue) ≡ 9 * (1000 / 20))
    × (length (pending p.queue) < 200)
    × All (λ tx. tx ≡ replicate 16 0) (contents p.batch_channel)
pool_rate_example = pool_rate default_parameters 4 1 9 (omega arith) (omega arith)
