-- ===== src/Network/Queues.antt =====
-- What the sender of network/network.go writes to each connection.
use s_mvba.Base.{
  ℕ, zero, suc, ◌+◌, ◌≤◌, length, length-append, arith, List, [], ◌∷◌, ◌++◌, append-nil,
  append_assoc, none, some, Bool, true, false, Bool-cases, Option-cases, inl, inr, lookup,
  lookup-insert, digest_eq, beq_refl, ◌⊎◌, bytes_eq, bytes_eq_iff, or_empty, ◌≡◌, refl, sym, ap,
  some-injective, if◌then◌else◌,
}
use s_mvba.Crypto.{Bytes}
use s_mvba.Network.{NetMessage, Sender, new_sender, send_one, send_each, run_sender}

module _ {Msg : Type 0} where
  -- The channel of an address.
  abbrev pub channel_of : Bytes → Sender Msg → List Msg
  channel_of addr s = or_empty (lookup addr s.conns)

  -- What is asked to be sent to an address, in order.
  abbrev pub sent_each : Bytes → Msg → List Bytes → List Msg
  sent_each addr m [] = []
  sent_each addr m (a ∷ addrs) = (if bytes_eq a addr then m ∷ [] else []) ++ sent_each addr m addrs

  unfoldable pub sent_to : Bytes → List (NetMessage Msg) → List Msg
  sent_to addr [] = []
  sent_to addr (nm ∷ nms) = sent_each addr nm.msg nm.address ++ sent_to addr nms

module _ (dial : ℕ → Bytes → Bool) (addr : Bytes) where
  -- How many of the first `k` dials fail when they are for the address.
  abbrev pub failures : ℕ → ℕ
  failures zero = 0
  failures (suc k) = let rest = failures k in if dial k addr then rest else suc rest

  failures-next :
      (k : ℕ) → failures (k + 1) ≡ (if dial k addr then failures k else suc (failures k))
  failures-next k = let e : k + 1 ≡ suc k = omega arith in ap (λ (j : ℕ). failures j) e

  more_failures : (k : ℕ) → failures k ≤ failures (k + 1)
  more_failures k = ground (arith, failures-next k)

module _ {Msg : Type 0} (dial : ℕ → Bytes → Bool) (addr : Bytes) where
  -- `s` becomes `t` while `ms` are asked to be sent: a channel that is there gets them all, and one that
  -- is not there gets them from the first connection on, and as many dials have failed as messages came
  -- before.
  abbrev Grows : List Msg → Sender Msg → Sender Msg → Type 0
  Grows ms s t =
      ((q : List Msg) → lookup addr s.conns ≡ some q → lookup addr t.conns ≡ some (q ++ ms))
      × (lookup addr s.conns ≡ none
          → ((lookup addr t.conns ≡ none)
              × (length ms + failures dial addr s.dials ≤ failures dial addr t.dials))
            ⊎ ((lost kept : List Msg) × (ms ≡ lost ++ kept)
                × (lookup addr t.conns ≡ some kept)
                × (length lost + failures dial addr s.dials ≤ failures dial addr t.dials)))
      × (failures dial addr s.dials ≤ failures dial addr t.dials)

  Grows-refl : (s : Sender Msg) → Grows [] s s
  Grows-refl s = (λ q h. rw (append-nil q) h, λ h. inl (h, omega arith), omega arith)

  Grows-trans :
      (ms ns : List Msg) (s t u : Sender Msg) → Grows ms s t → Grows ns t u → Grows (ms ++ ns) s u
  Grows-trans ms ns s t u (a, b, m) (c, d, n) = (
    λ q h. rw (append_assoc q ms ns) at (c (q ++ ms) (a q h)),
    λ h. elim (b h) [
      | inl (gone, f) ↦ elim (d gone) [
        | inl (still, f') ↦ inl (still, omega (arith, length-append ms ns))
        | inr (lost, kept, split, up, f') ↦ inr (
          ms ++ lost,
          kept,
          rw (split) (sym (append_assoc ms lost kept)),
          up,
          omega (arith, length-append ms lost),
        )
      ]
      | inr (lost, kept, split, up, f) ↦
          inr (lost, kept ++ ns, rw (split) (append_assoc lost kept ns), c kept up, omega arith)
    ],
    omega arith,
  )

module _ {Msg : Type 0} (dial : ℕ → Bytes → Bool) where
  -- Another channel stays what it was.
  send_one_other :
      (addr a : Bytes) (m : Msg) (s : Sender Msg)
      → bytes_eq a addr ≡ false
      → lookup addr (send_one dial m a s).conns ≡ lookup addr s.conns
  unfolding send_one
  send_one_other addr a m s other = elim (Option-cases (lookup a s.conns)) [
    | inl new ↦ elim (Bool-cases (dial s.dials a)) [
      | inl up ↦ rw (new, up, lookup-insert a addr (m ∷ []) s.conns, other) refl
      | inr down ↦ rw (new, down) refl
    ]
    | inr (q, old) ↦ rw (old, lookup-insert a addr (q ++ m ∷ []) s.conns, other) refl
  ]

  send_one-failures :
      (addr a : Bytes) (m : Msg) (s : Sender Msg)
      → failures dial addr s.dials ≤ failures dial addr (send_one dial m a s).dials
  unfolding send_one
  send_one-failures addr a m s = ground (arith, more_failures dial addr s.dials)

  send_one_self :
      (addr : Bytes) (m : Msg) (s : Sender Msg)
      → Grows dial addr (m ∷ []) s (send_one dial m addr s)
  unfolding send_one
  send_one_self addr m s = elim (Option-cases (lookup addr s.conns)) [
    | inl new ↦ elim (Bool-cases (dial s.dials addr)) [
      | inl up ↦
          rw (new, up, lookup-insert addr addr (m ∷ []) s.conns, beq_refl addr)
            (
              λ q h. absurd cc,
              λ h. inr ([], m ∷ [], refl, refl, omega (arith, more_failures dial addr s.dials)),
              more_failures dial addr s.dials,
            )
      | inr down ↦
          rw (new, down)
            (
              λ q h. absurd cc,
              λ h. inl (new, ground (arith, failures-next dial addr s.dials)),
              more_failures dial addr s.dials,
            )
    ]
    | inr (q, old) ↦
        rw (old, lookup-insert addr addr (q ++ m ∷ []) s.conns, beq_refl addr)
          (
            λ r h. ap (λ (p : List Msg). some (p ++ m ∷ [])) (some-injective q r h),
            λ h. absurd cc,
            omega arith,
          )
  ]

  send_one-Grows :
      (addr a : Bytes) (m : Msg) (s : Sender Msg)
      → Grows dial addr (if bytes_eq a addr then m ∷ [] else []) s (send_one dial m a s)
  send_one-Grows addr a m s = elim (Bool-cases (bytes_eq a addr)) [
    | inl same ↦ rw (same, (bytes_eq_iff a addr).0 same) (send_one_self addr m s)
    | inr other ↦
        let more = send_one-failures addr a m s in
        rw (other, send_one_other addr a m s other)
          (λ q h. rw (append-nil q) h, λ h. inl (h, omega (arith, more)), more)
  ]

  send_each-Grows :
      (addr : Bytes) (m : Msg) (addrs : List Bytes) (s : Sender Msg)
      → Grows dial addr (sent_each addr m addrs) s (send_each dial m addrs s)
  unfolding send_each
  send_each-Grows addr m [] s = Grows-refl dial addr s
  send_each-Grows addr m (a ∷ addrs) s =
      let next = send_one dial m a s in
      Grows-trans dial addr (if bytes_eq a addr then m ∷ [] else []) (sent_each addr m addrs) s next
        (send_each dial m addrs next) (send_one-Grows addr a m s)
        (send_each-Grows addr m addrs next)

  run_sender-Grows :
      (addr : Bytes) (nms : List (NetMessage Msg)) (s : Sender Msg)
      → Grows dial addr (sent_to addr nms) s (run_sender dial nms s)
  unfolding run_sender sent_to
  run_sender-Grows addr [] s = Grows-refl dial addr s
  run_sender-Grows addr (nm ∷ nms) s =
      let next = send_each dial nm.msg nm.address s in
      Grows-trans dial addr (sent_each addr nm.msg nm.address) (sent_to addr nms) s next
        (run_sender dial nms next) (send_each-Grows addr nm.msg nm.address s)
        (run_sender-Grows addr nms next)

  -- The channel of an address gets what is asked to be sent to it, in order and each once, after a first
  -- part that is lost; no more is lost than calls of `net.Dial` up to then fail for the address, so that
  -- nothing is lost where none of them does.
  pub sender_order :
      (addr : Bytes) (nms : List (NetMessage Msg))
      → let s = run_sender dial nms new_sender in
        (lost : List Msg) × (sent_to addr nms ≡ lost ++ channel_of addr s)
        × (length lost ≤ failures dial addr s.dials)
  unfolding new_sender lookup
  sender_order addr nms = elim ((run_sender-Grows addr nms new_sender).1 refl) [
    | inl (gone, f) ↦
        (sent_to addr nms, rw (gone) (sym (append-nil (sent_to addr nms))), omega arith)
    | inr (lost, kept, split, up, f) ↦ (lost, rw (up) split, omega arith)
  ]

  send_one-up :
      (addr a : Bytes) (m : Msg) (s : Sender Msg)
      → ((k : ℕ) → dial k addr ≡ true)
      → channel_of addr (send_one dial m a s)
        ≡ channel_of addr s ++ (if bytes_eq a addr then m ∷ [] else [])
  unfolding send_one
  send_one-up addr a m s up = elim (Bool-cases (bytes_eq a addr)) [
    | inl same ↦
        rw ((bytes_eq_iff a addr).0 same, (bytes_eq_iff addr addr).1 refl)
          (elim (Option-cases (lookup addr s.conns)) [
            | inl new ↦
                rw (new, up s.dials, lookup-insert addr addr (m ∷ []) s.conns, beq_refl addr) refl
            | inr (q, old) ↦
                rw (old, lookup-insert addr addr (q ++ m ∷ []) s.conns, beq_refl addr) refl
          ])
    | inr other ↦ rw (other, send_one_other addr a m s other) (sym (append-nil (channel_of addr s)))
  ]

  send_each-up :
      (addr : Bytes) (m : Msg) (addrs : List Bytes) (s : Sender Msg)
      → ((k : ℕ) → dial k addr ≡ true)
      → channel_of addr (send_each dial m addrs s) ≡ channel_of addr s ++ sent_each addr m addrs
  unfolding send_each
  send_each-up addr m [] s up = sym (append-nil (channel_of addr s))
  send_each-up addr m (a ∷ addrs) s up =
      rw (send_each-up addr m addrs (send_one dial m a s) up, send_one-up addr a m s up)
        (append_assoc (channel_of addr s) (if bytes_eq a addr then m ∷ [] else [])
          (sent_each addr m addrs))

  run_sender-up :
      (addr : Bytes) (nms : List (NetMessage Msg)) (s : Sender Msg)
      → ((k : ℕ) → dial k addr ≡ true)
      → channel_of addr (run_sender dial nms s) ≡ channel_of addr s ++ sent_to addr nms
  unfolding run_sender sent_to
  run_sender-up addr [] s up = sym (append-nil (channel_of addr s))
  run_sender-up addr (nm ∷ nms) s up =
      let next = send_each dial nm.msg nm.address s in
      rw (run_sender-up addr nms next up, send_each-up addr nm.msg nm.address s up)
        (append_assoc (channel_of addr s) (sent_each addr nm.msg nm.address) (sent_to addr nms))

  -- When every call of `net.Dial` for an address succeeds, its channel gets all that is sent to it.
  pub sender_complete :
      (addr : Bytes) (nms : List (NetMessage Msg))
      → ((k : ℕ) → dial k addr ≡ true)
      → channel_of addr (run_sender dial nms new_sender) ≡ sent_to addr nms
  unfolding new_sender lookup
  sender_complete addr nms up = run_sender-up addr nms new_sender up
