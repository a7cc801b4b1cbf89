-- ===== src/Crypto/Shares.antt =====
-- crypto/crypto.go, the texts of threshold keys and the check of a whole threshold signature. Kyber's
-- scalars, points and polynomials, and JSON, are parameters.
use s_mvba.Base.{ap, ℤ, List, [], ◌∷◌, Bool, ◌&&◌, eqz, ◌≡◌, refl, bytes_eq}
use s_mvba.Error.{Outcome, ok, and_then, map_ok, and_then_ok, map_ok_ok}
use s_mvba.Crypto.{Bytes}

-- `share.PriShare` of kyber, whose fields the code reads.
pub record PriShare (Scalar : Type 0) : Type 0 where
  pub i : ℤ
  pub v : Scalar

pub record TsPartialMarshalled : Type 0 where
  pub i : ℤ
  pub binary : Bytes

pub record TsPublicMarshalled : Type 0 where
  pub base_bytes : Bytes
  pub commit_bytes : List Bytes

-- `share.PubPoly`, `MarshalBinary`, `UnmarshalBinary`, `PriShare.Hash`, `bls.Verify`, and JSON of the
-- two records.
pub record Kyber (Scalar Point PubPoly : Type 0) : Type 0 where
  pub marshal_scalar : Scalar → Outcome Bytes
  pub unmarshal_scalar : Bytes → Outcome Scalar
  pub marshal_point : Point → Outcome Bytes
  pub unmarshal_point : Bytes → Outcome Point
  pub info : PubPoly → Point × List Point
  pub new_pub_poly : Point → List Point → PubPoly
  pub share_hash : PriShare Scalar → Bytes
  pub json_partial : TsPartialMarshalled → Outcome Bytes
  pub parse_partial : Bytes → Outcome TsPartialMarshalled
  pub json_public : TsPublicMarshalled → Outcome Bytes
  pub parse_public : Bytes → Outcome TsPublicMarshalled

module _ {Scalar Point PubPoly : Type 0} (k : Kyber Scalar Point PubPoly) where
  unfoldable pub marshall_ts_partial_key : PriShare Scalar → Outcome TsPartialMarshalled
  marshall_ts_partial_key share =
      map_ok (λ share_as_bytes. record { i = share.i; binary = share_as_bytes })
        (k.marshal_scalar share.v)

  unfoldable pub unmarshall_ts_partial_key : TsPartialMarshalled → Outcome (PriShare Scalar)
  unmarshall_ts_partial_key par =
      map_ok (λ v. record { i = par.i; v = v }) (k.unmarshal_scalar par.binary)

  unfoldable pub encode_ts_partial_key : PriShare Scalar → Outcome Bytes
  unfolding marshall_ts_partial_key
  encode_ts_partial_key share = and_then (marshall_ts_partial_key share) k.json_partial

  unfoldable pub decode_ts_partial_key : Bytes → Outcome (PriShare Scalar)
  unfolding unmarshall_ts_partial_key
  decode_ts_partial_key text = and_then (k.parse_partial text) unmarshall_ts_partial_key

  unfoldable pub equal_ts_partial_key : PriShare Scalar → PriShare Scalar → Bool
  equal_ts_partial_key p q = eqz p.i q.i && bytes_eq (k.share_hash p) (k.share_hash q)

-- A loop over a list that returns at the first error.
unfoldable pub each_ok : {A B : Type 0} → (A → Outcome B) → List A → Outcome (List B)
each_ok f [] = ok []
each_ok f (x ∷ xs) = let rest = each_ok f xs in and_then (f x) (λ y. map_ok (λ ys. y ∷ ys) rest)

module _ {Scalar Point PubPoly : Type 0} (k : Kyber Scalar Point PubPoly) where
  unfoldable pub marshall_ts_public_key : PubPoly → Outcome TsPublicMarshalled
  unfolding each_ok
  marshall_ts_public_key pub_key =
      let (base, commits) = k.info pub_key in
      and_then (k.marshal_point base) (λ base_bytes.
        map_ok (λ commit_bytes. record { base_bytes = base_bytes; commit_bytes = commit_bytes })
          (each_ok k.marshal_point commits))

  unfoldable pub unmarshall_ts_public_key : TsPublicMarshalled → Outcome PubPoly
  unfolding each_ok
  unmarshall_ts_public_key tspm =
      and_then (k.unmarshal_point tspm.base_bytes)
        (λ base. map_ok (k.new_pub_poly base) (each_ok k.unmarshal_point tspm.commit_bytes))

  unfoldable pub encode_ts_public_key : PubPoly → Outcome Bytes
  unfolding marshall_ts_public_key
  encode_ts_public_key pub_key = and_then (marshall_ts_public_key pub_key) k.json_public

  unfoldable pub decode_ts_public_key : Bytes → Outcome PubPoly
  unfolding unmarshall_ts_public_key
  decode_ts_public_key text = and_then (k.parse_public text) unmarshall_ts_public_key

-- The documented behaviour of kyber and JSON: what is written is read back.
pub record KyberLaws {Scalar Point PubPoly : Type 0} (k : Kyber Scalar Point PubPoly) : Type 0 where
  pub scalar_back :
      (v : Scalar) (b : Bytes) → k.marshal_scalar v ≡ ok b → k.unmarshal_scalar b ≡ ok v
  pub point_back : (p : Point) (b : Bytes) → k.marshal_point p ≡ ok b → k.unmarshal_point b ≡ ok p
  pub poly_back : (p : PubPoly) → k.new_pub_poly (k.info p).0 (k.info p).1 ≡ p
  pub partial_back :
      (m : TsPartialMarshalled) (b : Bytes) → k.json_partial m ≡ ok b → k.parse_partial b ≡ ok m
  pub public_back :
      (m : TsPublicMarshalled) (b : Bytes) → k.json_public m ≡ ok b → k.parse_public b ≡ ok m

each_ok-each_ok :
    {A B : Type 0} (f : A → Outcome B) (g : B → Outcome A) (xs : List A) (ys : List B)
    → ((x : A) (y : B) → f x ≡ ok y → g y ≡ ok x)
    → each_ok f xs ≡ ok ys
    → each_ok g ys ≡ ok xs
unfolding each_ok
each_ok-each_ok f g [] ys back h = let q : ys ≡ [] = cc in rw (q) refl
each_ok-each_ok f g (x ∷ xs) ys back h =
    let (y, hy, hrest) = and_then_ok (f x) (λ y. map_ok (λ ys. y ∷ ys) (each_ok f xs)) ys h in
    let (zs, hzs, q) = map_ok_ok (λ ys. y ∷ ys) (each_ok f xs) ys hrest in
    rw (q, back x y hy, each_ok-each_ok f g xs zs back hzs) refl

module _ {Scalar Point PubPoly : Type 0} (k : Kyber Scalar Point PubPoly) (laws : KyberLaws k) where
  decode-encode_partial :
      (share : PriShare Scalar) (text : Bytes)
      → encode_ts_partial_key k share ≡ ok text
      → decode_ts_partial_key k text ≡ ok share
  unfolding encode_ts_partial_key decode_ts_partial_key marshall_ts_partial_key
      unmarshall_ts_partial_key
  decode-encode_partial share text h =
      let marshalled : Bytes → TsPartialMarshalled = λ b. record { i = share.i; binary = b } in
      let (m, hm, hp) = and_then_ok (marshall_ts_partial_key k share) k.json_partial text h in
      let (b, hb, q) = map_ok_ok marshalled (k.marshal_scalar share.v) m hm in
      rw (laws.partial_back m text hp, q, laws.scalar_back share.v b hb) refl

  unmarshall-marshall_public :
      (pub_key : PubPoly) (m : TsPublicMarshalled)
      → marshall_ts_public_key k pub_key ≡ ok m
      → unmarshall_ts_public_key k m ≡ ok pub_key
  unfolding marshall_ts_public_key unmarshall_ts_public_key
  unmarshall-marshall_public pub_key m h =
      let (base, commits) = k.info pub_key in
      let marshalled : Bytes → List Bytes → TsPublicMarshalled =
        λ b cs. record { base_bytes = b; commit_bytes = cs } in
      let written = each_ok k.marshal_point commits in
      let (b, hb, hm) =
        and_then_ok (k.marshal_point base) (λ b. map_ok (marshalled b) written) m h in
      let (cs, hcs, q) = map_ok_ok (marshalled b) written m hm in
      let points =
        each_ok-each_ok k.marshal_point k.unmarshal_point commits cs laws.point_back hcs in
      rw (q, laws.point_back base b hb, points) (ap ok (laws.poly_back pub_key))

  -- The texts of a private share and of a public key that are encoded without an error are decoded to
  -- them, when kyber and JSON read back what they write.
  pub decode-encode_shares :
      (share : PriShare Scalar) (pub_key : PubPoly) (partial whole : Bytes)
      → encode_ts_partial_key k share ≡ ok partial
      → encode_ts_public_key k pub_key ≡ ok whole
      → (decode_ts_partial_key k partial ≡ ok share) × (decode_ts_public_key k whole ≡ ok pub_key)
  unfolding encode_ts_public_key decode_ts_public_key
  decode-encode_shares share pub_key partial whole h h' =
      let (m, hm, hp) = and_then_ok (marshall_ts_public_key k pub_key) k.json_public whole h' in
      (
        decode-encode_partial share partial h,
        rw (laws.public_back m whole hp) (unmarshall-marshall_public pub_key m hm),
      )
