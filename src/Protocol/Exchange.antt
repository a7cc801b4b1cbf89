-- ===== src/Protocol/Exchange.antt =====
-- What a node's consensus sends, as another member's consensus meets it: core/smvba/consensus/core.go
-- through core/transmitor.go, network/network.go and network/codec.go.
use s_mvba.Base.{
  ℕ, ℤ, List, [], ◌∷◌, ◌++◌, append-nil, append_assoc, some, some-injective, Option-cases, Bool,
  true, false, Bool-cases, inl, inr, Map, ◌||◌, lookup, int_eq, eqz, eqz_iff, bytes_eq,
  bytes_eq_iff, All, All-append, ◌≡◌, ◌≢◌, ◌∙◌, refl, sym, ap, length, arith, subst, if◌then◌else◌,
}
use s_mvba.Error.{ok}
use s_mvba.Crypto.{Bytes, Digest, Primitives}
use s_mvba.Committee.{Authority, Committee, none_id, name, address, broad_cast}
use s_mvba.Message.{Message, verify}
use s_mvba.Message.Wire.{type_of, module_of, consensus_codec, MessageType, consensus_arrives}
use s_mvba.Network.{NetMessage, new_sender, run_sender}
use s_mvba.Network.Codec.{Gob, write_all, serve_conn}
use s_mvba.Network.Arrivals.{each_received}
use s_mvba.Network.Queues.{channel_of, sent_each, sent_to, sender_complete}
use s_mvba.Network.Transmitor.{Transmitor, new_transmitor, send, receive}
use s_mvba.Network.Delivery.{Apart, bytes_differ, lookup-apart, sent_each-others}
use s_mvba.Spb.{Site, Effect}
use s_mvba.Core.{Services, new_core, Input, run_loop}
use s_mvba.Protocol.Authored.{PassesVerify, sent_verified}

-- What a node has done outside, newest first, put through its transmitor.
unfoldable pub transmitted : Committee → ℤ → List Effect → Transmitor Message
transmitted c from [] = new_transmitor
transmitted c from (Effect.send to m ∷ es) = send c from to m (transmitted c from es)
transmitted c from (e ∷ es) = transmitted c from es

-- The messages that it sent to a member or to all, oldest first.
unfoldable pub addressed : ℤ → List Effect → List Message
addressed id [] = []
addressed id (Effect.send to m ∷ es) =
    addressed id es ++ (if eqz to none_id || eqz to id then m ∷ [] else [])
addressed id (e ∷ es) = addressed id es

sent_to-append :
    {Msg : Type 0} (addr : Bytes) (xs ys : List (NetMessage Msg))
    → sent_to addr (xs ++ ys) ≡ sent_to addr xs ++ sent_to addr ys
unfolding sent_to
sent_to-append addr [] ys = refl
sent_to-append addr (nm ∷ xs) ys =
    rw (sent_to-append addr xs ys)
      (sym (append_assoc (sent_each addr nm.msg nm.address) (sent_to addr xs) (sent_to addr ys)))

-- Members with two ids have two addresses.
other_address :
    (m : Message) (i j : ℤ) (a b : Authority) (auths : Map ℤ Authority)
    → Apart (λ a. a.addr) auths
    → eqz i j ≡ false
    → lookup i auths ≡ some a
    → lookup j auths ≡ some b
    → a.addr ≢ b.addr
unfolding lookup
other_address m i j a b [] apart off p q = absurd cc
other_address m i j a b ((k, x) ∷ auths) (far, apart) off p q = elim (Bool-cases (eqz k i)) [
  | inl at ↦
      let away : eqz k j ≡ false = ground (arith, eqz_iff k i, eqz_iff i j, eqz_iff k j) in
      let same : x ≡ a = some-injective x a (rw (at) at p) in
      λ e. lookup-apart (λ y. y.addr) m j b x auths far (rw (away) at q) (ap (λ y. y.addr) same ∙ e)
  | inr past ↦ elim (Bool-cases (eqz k j)) [
    | inl at ↦
        let same : x ≡ b = some-injective x b (rw (at) at q) in
        λ e.
          lookup-apart (λ y. y.addr) m i a x auths far (rw (past) at p)
            (ap (λ y. y.addr) same ∙ sym e)
    | inr past' ↦ other_address m i j a b auths apart off (rw (past) at p) (rw (past') at q)
  ]
]

module _ (c : Committee) (id : ℤ) (a : Authority) (apart : Apart (λ a. a.addr) c.authorities)
    (found : lookup id c.authorities ≡ some a) (real : a.addr ≢ []) where
  address_of : (m : Message) (to : ℤ) → bytes_eq (address c to) a.addr ≡ eqz to id
  unfolding address
  address_of m to = elim (Bool-cases (eqz to id)) [
    | inl own ↦
        rw (own, (eqz_iff to id).0 own, address, found) ((bytes_eq_iff a.addr a.addr).1 refl)
    | inr off ↦ rw (off) (elim (Option-cases (lookup to c.authorities)) [
      | inl unknown ↦ rw (address, unknown) (bytes_differ [] a.addr (λ e. real (sym e)))
      | inr (b, known) ↦
          rw (address, known)
            (bytes_differ b.addr a.addr
              (other_address m to id b a c.authorities apart off known found))
    ])
  ]

  sent_addressed :
      (from : ℤ) (es : List Effect)
      → eqz id from ≡ false
      → sent_to a.addr (transmitted c from es).msg_ch ≡ addressed id es
  unfolding transmitted addressed new_transmitor send sent_to broad_cast
  sent_addressed from [] off = refl
  sent_addressed from (Effect.receive m ∷ es) off = sent_addressed from es off
  sent_addressed from (Effect.go_proposal p ∷ es) off = sent_addressed from es off
  sent_addressed from (Effect.go_vote v ∷ es) off = sent_addressed from es off
  sent_addressed from (Effect.commits b ∷ es) off = sent_addressed from es off
  sent_addressed from (Effect.send to m ∷ es) off =
      let before = (transmitted c from es).msg_ch in
      let addrs = if eqz to none_id then broad_cast c from else address c to ∷ [] in
      let nm : NetMessage Message = record { msg = m; address = addrs } in
      sent_to-append a.addr before (nm ∷ [])
      ∙ rw (sent_addressed from es off, append-nil (sent_each a.addr m addrs))
          (ap (λ ms. addressed id es ++ ms)
            (elim (Bool-cases (eqz to none_id)) [
              | inl everyone ↦
                  rw (everyone) (
                    sent_each-others (λ y. y.addr) m id from a c.authorities apart found ∙ rw (off))
              | inr one ↦ rw (one, address_of m to, append-nil) refl
            ]))

module _ {W : Type 0} (sv : Services W) (cr : Primitives) (n : Site) (gob : Gob MessageType Message)
    (dial : ℕ → Bytes → Bool) where
  -- What the consensus of another member gets from a node with a trace.
  abbrev pub delivered : Bytes → List Effect → List Message
  delivered addr es =
      let sent = run_sender dial (transmitted n.committee n.name es).msg_ch new_sender in
      let conn = write_all (consensus_codec gob) (channel_of addr sent) [] in
      (each_received (receive module_of) (serve_conn (consensus_codec gob) conn).0
        new_transmitor).recv_ch

  addressed-All :
      (id : ℤ) (es : List Effect)
      → All (PassesVerify sv cr n) es
      → All (λ (m : Message). verify cr n.committee m ≡ ok true) (addressed id es)
  unfolding addressed
  addressed-All id [] h = tt
  addressed-All id (Effect.receive m ∷ es) (p, h) = addressed-All id es h
  addressed-All id (Effect.go_proposal q ∷ es) (p, h) = addressed-All id es h
  addressed-All id (Effect.go_vote v ∷ es) (p, h) = addressed-All id es h
  addressed-All id (Effect.commits b ∷ es) (p, h) = addressed-All id es h
  addressed-All id (Effect.send to m ∷ es) (p, h) =
      let P : Message → Type 0 = λ x. verify cr n.committee x ≡ ok true in
      let rest = addressed-All id es h in
      elim (Bool-cases (eqz to none_id || eqz to id)) [
        | inl here ↦ rw (here) (All-append P (addressed id es) (m ∷ []) rest (p, tt))
        | inr elsewhere ↦ rw (elsewhere) (All-append P (addressed id es) [] rest tt)
      ]

  -- Whatever inputs a new node meets, the consensus of another member gets exactly the messages that
  -- the node sends to it or to all, in order, and each passes `Verify` there: when the addresses of the
  -- committee differ, connections are made, gob reads back what it writes, and the committee has the
  -- node's public key, of 32 bytes, which verifies what its private key signs.
  pub run_delivered :
      (id : ℤ) (a : Authority) (w : W) (is : List Input)
      → length (name n.committee n.name) ≡ 32
      → ((d : Digest)
          → cr.ed_verify (name n.committee n.name) d (cr.ed_sign n.sig_service.pri_key d) ≡ true)
      → Apart (λ a. a.addr) n.committee.authorities
      → lookup id n.committee.authorities ≡ some a
      → a.addr ≢ []
      → eqz id n.name ≡ false
      → ((k : ℕ) → dial k a.addr ≡ true)
      → ((m : Message) → gob.encodes m ≡ true)
      → ((m : Message) → gob.decodes (type_of m) m ≡ ok m)
      → let es = (run_loop sv cr n is (new_core w)).1.trace in
        (delivered a.addr es ≡ addressed id es)
        × All (λ (m : Message). verify cr n.committee m ≡ ok true) (delivered a.addr es)
  run_delivered id a w is len good apart found real other up on back =
      let es = (run_loop sv cr n is (new_core w)).1.trace in
      let sent = run_sender dial (transmitted n.committee n.name es).msg_ch new_sender in
      let all : delivered a.addr es ≡ addressed id es =
        consensus_arrives gob (channel_of a.addr sent) on back
        ∙ sender_complete dial a.addr (transmitted n.committee n.name es).msg_ch up
        ∙ sent_addressed n.committee id a apart found real n.name es other in
      (
        all,
        subst (λ ms. All (λ (m : Message). verify cr n.committee m ≡ ok true) ms) (sym all)
            (addressed-All id es (sent_verified sv cr n len good w is)),
      )
