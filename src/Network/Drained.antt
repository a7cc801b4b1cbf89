-- ===== src/Network/Drained.antt =====
-- A connection of a receiver of network/network.go whose goroutine gets to run often enough.
use s_mvba.Base.{
  ℕ, zero, suc, ◌+◌, ◌<◌, ◌≤◌, List, [], ◌∷◌, ◌++◌, append-nil, some, true, false, lookup,
  insert-here, nat_eq, nat_iff, subst, length, replicate, All, ◌≡◌, refl, sym, ◌∙◌, arith,
  Bool-cases, inl, inr, ◌⊎◌,
}
use s_mvba.Error.{Outcome, ok, err, panic}
use s_mvba.Network.Codec.{Codec, read, write_all}
use s_mvba.Network.Streams.{Registered, encoded_prefix}
use s_mvba.Network.Listening.{
  Serving, Receiver, new_receiver, Event, serving, after_read, receiver_step, receiver_loop,
  run_receiver,
}
use s_mvba.Network.Reading.{read-length}
use s_mvba.Network.Listened.{came_on, connection_kept}

module _ {Ty Msg : Type 0} (codec : Codec Ty Msg) (i : ℕ) where
  -- The goroutine has returned, and what the other end sends is `sent`.
  abbrev Returned : Serving Msg → Receiver Msg → Type 0
  Returned g r =
      (g' : Serving Msg) × (lookup i r.conns ≡ some g') × (g'.sent ≡ g.sent) × (g'.returned ≡ true)

  step_idle :
      (g : Serving Msg) (r : Receiver Msg)
      → lookup i r.conns ≡ some g
      → g.returned ≡ true
      → receiver_step codec (serving i) r ≡ r
  unfolding receiver_step
  step_idle g r at back = ground arith

  loop-Returned :
      (k : ℕ) (g : Serving Msg) (r : Receiver Msg)
      → Returned g r
      → Returned g (receiver_loop codec (replicate k (serving i)) r)
  unfolding receiver_loop
  loop-Returned zero g r h = h
  loop-Returned (suc k) g r h =
      subst (λ x. Returned g (receiver_loop codec (replicate k (serving i)) x))
        (sym (step_idle h.0 r h.1 h.3)) (loop-Returned k g r h)

  -- The goroutine has returned, or less is left on its connection.
  abbrev Drains : Serving Msg → Receiver Msg → Type 0
  Drains g r =
      Returned g r
      ⊎ ((g' : Serving Msg) × (lookup i r.conns ≡ some g')
          × (g'.sent ≡ g.sent)
          × (r.crashed ≡ false)
          × (length g'.left + 1 ≤ length g.left))

  step_reads :
      (g : Serving Msg) (r : Receiver Msg)
      → lookup i r.conns ≡ some g
      → r.crashed ≡ false
      → g.returned ≡ false
      → receiver_step codec (serving i) r
        ≡ after_read codec i g (read codec g.left).0 (read codec g.left).1 r
  unfolding receiver_step
  step_reads g r at up on = ground arith

  after_read-Drains :
      (g : Serving Msg) (r : Receiver Msg) (o : Outcome Msg)
      → r.crashed ≡ false
      → (read codec g.left).0 ≡ o
      → Drains g (after_read codec i g o (read codec g.left).1 r)
  after_read-Drains g r (ok m) up e =
      let g' : Serving Msg = record g { left = (read codec g.left).1 } in
      inr (
        g',
        insert-here i i g' r.conns ((nat_iff i i).1 refl),
        refl,
        up,
        read-length codec g.left m e,
      )
  after_read-Drains g r (err x) up e =
      let g' : Serving Msg = record g { left = (read codec g.left).1; returned = true } in
      inl (g', insert-here i i g' r.conns ((nat_iff i i).1 refl), refl, refl)
  after_read-Drains g r panic up e =
      let g' : Serving Msg = record g { left = (read codec g.left).1; returned = true } in
      inl (g', insert-here i i g' r.conns ((nat_iff i i).1 refl), refl, refl)

  drains :
      (k : ℕ) (g : Serving Msg) (r : Receiver Msg)
      → lookup i r.conns ≡ some g
      → r.crashed ≡ false
      → length g.left < k
      → Returned g (receiver_loop codec (replicate k (serving i)) r)
  unfolding receiver_loop
  drains zero g r at up h = absurd (omega arith)
  drains (suc k) g r at up h = elim (Bool-cases g.returned) [
    | inl back ↦ loop-Returned (suc k) g r (g, at, refl, back)
    | inr on ↦
        subst (λ x. Returned g (receiver_loop codec (replicate k (serving i)) x))
          (sym (step_reads g r at up on))
          (elim (after_read-Drains g r (read codec g.left).0 up refl) [
            | inl done ↦
                loop-Returned k g
                  (after_read codec i g (read codec g.left).0 (read codec g.left).1 r) done
            | inr (g', there, same, fine, less) ↦
                let (x, found, sent, back) =
                  drains k g' (after_read codec i g (read codec g.left).0 (read codec g.left).1 r)
                    there fine (omega arith) in
                (x, found, sent ∙ same, back)
          ])
  ]

  receiver_loop-append :
      (es fs : List (Event Msg)) (r : Receiver Msg)
      → receiver_loop codec (es ++ fs) r ≡ receiver_loop codec fs (receiver_loop codec es r)
  unfolding receiver_loop
  receiver_loop-append [] fs r = refl
  receiver_loop-append (e ∷ es) fs r = receiver_loop-append es fs (receiver_step codec e r)

  -- Whatever ran before, with no panic, the receiver gets from a connection exactly what its other end
  -- sent, in order, up to the first message that gob does not encode, when the goroutine of the
  -- connection then reads once more often than there are values left on it. The types of the messages
  -- are in the map, and gob reads them back.
  pub connection_served :
      (es : List (Event Msg)) (g : Serving Msg) (ms : List Msg) (n : ℕ)
      → lookup i (run_receiver codec true es).conns ≡ some g
      → (run_receiver codec true es).crashed ≡ false
      → g.sent ≡ write_all codec ms []
      → All (Registered codec) ms
      → length g.left < n
      → came_on i (run_receiver codec true (es ++ replicate n (serving i))).msg
        ≡ encoded_prefix codec ms
  unfolding run_receiver
  connection_served es g ms n at up sent known enough =
      let after = receiver_loop-append es (replicate n (serving i)) new_receiver in
      let (g', there, same, back) = drains n g (receiver_loop codec es new_receiver) at up enough in
      let (rest, whole, done) =
        connection_kept codec true (es ++ replicate n (serving i)) i g' ms (rw after there)
          (same ∙ sent) known in
      sym (append-nil _) ∙ rw (← done back) whole
