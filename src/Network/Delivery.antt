-- ===== src/Network/Delivery.antt =====
-- A broadcast, from the committee of core/config.go through the transmitors to the channels of the sender.
use s_mvba.Base.{
  ℕ, ℤ, [], ◌∷◌, append-nil, some, some-injective, Bool, true, false, Bool-cases, inl, inr, Map,
  lookup, int_eq, eqz, eqz_iff, bytes_eq, bytes_eq_iff, All, ◌≡◌, ◌≢◌, ◌∙◌, ap, keys, refl, sym,
  if◌then◌else◌,
}
use s_mvba.Crypto.{Bytes}
use s_mvba.Committee.{Authority, Committee, none_id, others, broad_cast, mempool_broad_cast}
use s_mvba.Network.{new_sender, run_sender}
use s_mvba.Network.Queues.{channel_of, sent_each, sent_to, sender_complete}
use s_mvba.Network.Transmitor.{new_transmitor, send, mempool_send}

pub bytes_differ : (a b : Bytes) → a ≢ b → bytes_eq a b ≡ false
bytes_differ a b h = grind keys

module _ (get : Authority → Bytes) where
  -- No two authorities have one address.
  abbrev pub Apart : Map ℤ Authority → Type 0
  Apart [] = Unit
  Apart ((id, a) ∷ rest) = All (λ (e : ℤ × Authority). get e.1 ≢ get a) rest × Apart rest

  module _ {Msg : Type 0} (m : Msg) where
    sent_each-others_apart :
        (a : Authority) (from : ℤ) (auths : Map ℤ Authority)
        → All (λ (e : ℤ × Authority). get e.1 ≢ get a) auths
        → sent_each (get a) m (others get from auths) ≡ []
    unfolding others
    sent_each-others_apart a from [] apart = refl
    sent_each-others_apart a from ((j, b) ∷ auths) (far, apart) = elim (Bool-cases (eqz j from)) [
      | inl own ↦ rw (own) (sent_each-others_apart a from auths apart)
      | inr other ↦
          rw (other, bytes_differ (get b) (get a) far) (sent_each-others_apart a from auths apart)
    ]

    -- Who has an address of a map that is apart from one has another address.
    pub lookup-apart :
        (id : ℤ) (a b : Authority) (auths : Map ℤ Authority)
        → All (λ (e : ℤ × Authority). get e.1 ≢ get b) auths
        → lookup id auths ≡ some a
        → get b ≢ get a
    unfolding lookup
    lookup-apart id a b [] apart found = absurd cc
    lookup-apart id a b ((j, c) ∷ auths) (far, apart) found = elim (Bool-cases (eqz j id)) [
      | inl here ↦
          λ e. let q : c ≡ a = some-injective c a (rw (here) at found) in far (ap get q ∙ sym e)
      | inr there ↦ lookup-apart id a b auths apart (rw (there) at found)
    ]

    pub sent_each-others :
        (id from : ℤ) (a : Authority) (auths : Map ℤ Authority)
        → Apart auths
        → lookup id auths ≡ some a
        → sent_each (get a) m (others get from auths) ≡ (if eqz id from then [] else m ∷ [])
    unfolding lookup others
    sent_each-others id from a [] apart found = absurd cc
    sent_each-others id from a ((j, b) ∷ auths) (far, apart) found = elim (Bool-cases (eqz j id)) [
      | inl here ↦
          let q : b ≡ a = some-injective b a (rw (here) at found) in
          let there : All (λ (e : ℤ × Authority). get e.1 ≢ get a) auths = rw (q) at far in
          rw (q, (eqz_iff j id).0 here)
            (elim (Bool-cases (eqz id from)) [
              | inl own ↦ rw (own) (sent_each-others_apart a from auths there)
              | inr other ↦
                  rw
                    (
                      other,
                      (bytes_eq_iff (get a) (get a)).1 refl,
                      sent_each-others_apart a from auths there,
                    )
                    refl
            ])
      | inr there ↦ elim (Bool-cases (eqz j from)) [
        | inl own ↦ rw (own) (sent_each-others id from a auths apart (rw (there) at found))
        | inr other ↦
            rw
              (
                other,
                bytes_differ (get b) (get a) (lookup-apart id a b auths far (rw (there) at found)),
              )
              (sent_each-others id from a auths apart (rw (there) at found))
      ]
    ]

module _ {Msg : Type 0} (dial : ℕ → Bytes → Bool)
    (up : (k : ℕ) (addr : Bytes) → dial k addr ≡ true) where
  sent_others :
      (get : Authority → Bytes) (auths : Map ℤ Authority) (from id : ℤ) (a : Authority) (m : Msg)
      → Apart get auths
      → lookup id auths ≡ some a
      → channel_of
          (get a)
          (run_sender dial (record { msg = m; address = others get from auths } ∷ []) new_sender)
        ≡ (if eqz id from then [] else m ∷ [])
  unfolding sent_to
  sent_others get auths from id a m apart found =
      let sent = sent_each (get a) m (others get from auths) in
      rw
        (
          sender_complete dial (get a) (record { msg = m; address = others get from auths } ∷ [])
              (λ k. up k (get a)),
          append-nil sent,
        )
        (sent_each-others get m id from a auths apart found)

  -- A message that a node broadcasts, as the consensus or as the mempool, is written once to the channel
  -- of every other member and not to its own, when the addresses of the committee differ and every
  -- connection is made.
  pub broadcast_reaches :
      (c : Committee) (from id : ℤ) (a : Authority) (m : Msg)
      → Apart (λ a. a.addr) c.authorities
      → Apart (λ a. a.mempool_addr) c.authorities
      → lookup id c.authorities ≡ some a
      → (channel_of a.addr
            (run_sender dial (send c from none_id m new_transmitor).msg_ch new_sender)
          ≡ (if eqz id from then [] else m ∷ []))
        × (channel_of a.mempool_addr
              (run_sender dial (mempool_send c from none_id m new_transmitor).msg_ch new_sender)
            ≡ (if eqz id from then [] else m ∷ []))
  unfolding send mempool_send broad_cast mempool_broad_cast new_transmitor eqz
  broadcast_reaches c from id a m apart apart' found = (
    sent_others (λ a. a.addr) c.authorities from id a m apart found,
    sent_others (λ a. a.mempool_addr) c.authorities from id a m apart' found,
  )
