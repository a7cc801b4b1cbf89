-- ===== src/Network/Listened.antt =====
-- What the connections of a receiver of network/network.go write to its channel, in any interleaving.
use s_mvba.Base.{
  ℕ, ◌≤◌, ◌==◌, List, [], ◌∷◌, ◌++◌, append-nil, append_assoc, Option, none, some, Bool, true,
  false, lookup, insert, insert-here, insert-else, int_eq, nat_eq, nat_iff, some-injective, All,
  Bool-cases, inl, inr, ◌≡◌, refl, sym, ◌∙◌, ap, arith, if◌then◌else◌,
}
use s_mvba.Error.{Outcome, ok, err, panic}
use s_mvba.Network.Codec.{Frame, Codec, read, serve_conn, write_all}
use s_mvba.Network.Reading.{serve_conn-read}
use s_mvba.Network.Streams.{Registered, encoded_prefix, serve-write}
use s_mvba.Network.Listening.{
  Serving, Receiver, new_receiver, Event, accepting, serving, after_read, serve_round, accept_round,
  receiver_step, receiver_loop, run_receiver,
}

-- What came on a connection.
abbrev pub came_on : {Msg : Type 0} → ℕ → List (ℕ × Msg) → List Msg
came_on i [] = []
came_on i ((j, m) ∷ msgs) = let rest = came_on i msgs in if j == i then m ∷ rest else rest

came_on-append :
    {Msg : Type 0} (i : ℕ) (xs ys : List (ℕ × Msg))
    → came_on i (xs ++ ys) ≡ came_on i xs ++ came_on i ys
came_on-append i [] ys = refl
came_on-append i ((j, m) ∷ xs) ys = elim (Bool-cases (j == i)) [
  | inl on ↦ rw (on, came_on-append i xs ys) refl
  | inr off ↦ rw (off, came_on-append i xs ys) refl
]

module _ {Ty Msg : Type 0} (codec : Codec Ty Msg) where
  -- What a connection still gives.
  abbrev left_over : Serving Msg → List Msg
  left_over g = if g.returned then [] else (serve_conn codec g.left).0

  -- What came on a connection and what it still gives are what its goroutine gives alone.
  abbrev pub Whole : Receiver Msg → ℕ → Serving Msg → Type 0
  Whole r i g = came_on i r.msg ++ left_over g ≡ (serve_conn codec g.sent).0

  abbrev pub Inv : Receiver Msg → Type 0
  Inv r =
      ((i : ℕ) (g : Serving Msg) → lookup i r.conns ≡ some g → Whole r i g)
      × ((j : ℕ) → r.accepted ≤ j → (lookup j r.conns ≡ none) × (came_on j r.msg ≡ []))

  -- A goroutine that changes leaves the others as they are.
  Inv-insert :
      (i : ℕ) (g g' : Serving Msg) (msgs : List Msg) (r : Receiver Msg) (all : List (ℕ × Msg))
      → lookup i r.conns ≡ some g
      → came_on i all ≡ came_on i r.msg ++ msgs
      → ((j : ℕ) → (i == j) ≡ false → came_on j all ≡ came_on j r.msg)
      → msgs ++ left_over g' ≡ left_over g
      → g'.sent ≡ g.sent
      → Inv r
      → Inv (record r { conns = insert i g' r.conns; msg = all })
  Inv-insert i g g' msgs r all at own other more same (whole, fresh) = (
    λ j x found. elim (Bool-cases (i == j)) [
      | inl on ↦
          let here : some g' ≡ some x = sym (insert-here i j g' r.conns on) ∙ found in
          rw
            (
              ← (nat_iff i j).0 on,
              ← some-injective g' x here,
              own,
              append_assoc (came_on i r.msg) msgs (left_over g'),
              more,
              same,
            )
            (whole i g at)
      | inr off ↦
          let there : lookup j r.conns ≡ some x = sym (insert-else i j g' r.conns off) ∙ found in
          rw (other j off) (whole j x there)
    ],
    λ j late. elim (Bool-cases (i == j)) [
      | inl on ↦
          let clash : none ≡ some g =
            sym (fresh j late).0 ∙ ap (λ k. lookup k r.conns) (sym ((nat_iff i j).0 on)) ∙ at in
          cc
      | inr off ↦
          (insert-else i j g' r.conns off ∙ (fresh j late).0, other j off ∙ (fresh j late).1)
    ],
  )

  if-Inv : (b : Bool) (x y : Receiver Msg) → Inv x → (b ≡ false → Inv y) → Inv (if b then x else y)
  if-Inv true x y p q = p
  if-Inv false x y p q = q refl

  after_read-Inv :
      (i : ℕ) (g : Serving Msg) (r : Receiver Msg) (o : Outcome Msg)
      → lookup i r.conns ≡ some g
      → g.returned ≡ false
      → (read codec g.left).0 ≡ o
      → Inv r
      → Inv (after_read codec i g o (read codec g.left).1 r)
  after_read-Inv i g r (ok m) at on e inv =
      Inv-insert i g (record g { left = (read codec g.left).1 }) (m ∷ []) r (r.msg ++ (i, m) ∷ [])
        at (rw (came_on-append i r.msg ((i, m) ∷ []), (nat_iff i i).1 refl) refl)
        (λ j off. rw (came_on-append j r.msg ((i, m) ∷ []), off) (append-nil (came_on j r.msg)))
        (rw (on, serve_conn-read codec g.left, e) refl) refl inv
  after_read-Inv i g r (err x) at on e inv =
      Inv-insert i g (record g { left = (read codec g.left).1; returned = true }) [] r r.msg at
        (sym (append-nil (came_on i r.msg))) (λ j off. refl)
        (rw (on, serve_conn-read codec g.left, e) refl) refl inv
  after_read-Inv i g r panic at on e inv =
      Inv-insert i g (record g { left = (read codec g.left).1; returned = true }) [] r r.msg at
        (sym (append-nil (came_on i r.msg))) (λ j off. refl)
        (rw (on, serve_conn-read codec g.left, e) refl) refl inv

  serve_round-Inv :
      (i : ℕ) (o : Option (Serving Msg)) (r : Receiver Msg)
      → lookup i r.conns ≡ o
      → Inv r
      → Inv (serve_round codec i o r)
  serve_round-Inv i none r at inv = inv
  serve_round-Inv i (some g) r at inv =
      if-Inv g.returned r (after_read codec i g (read codec g.left).0 (read codec g.left).1 r) inv
        λ on. after_read-Inv i g r (read codec g.left).0 at on refl inv

  accept_round-Inv :
      (conn : Option (List (Frame Msg))) (r : Receiver Msg)
      → Inv r
      → Inv (accept_round codec conn r)
  accept_round-Inv none r inv = inv
  accept_round-Inv (some frames) r (whole, fresh) =
      let g : Serving Msg = record { sent = frames; left = frames; returned = false } in
      (
        λ j x found. elim (Bool-cases (r.accepted == j)) [
          | inl on ↦
              let here : some g ≡ some x = sym (insert-here r.accepted j g r.conns on) ∙ found in
              rw
                (
                  ← some-injective g x here,
                  ← (nat_iff r.accepted j).0 on,
                  (fresh r.accepted (omega arith)).1,
                )
                refl
          | inr off ↦ whole j x (sym (insert-else r.accepted j g r.conns off) ∙ found)
        ],
        λ j late.
            let off : (r.accepted == j) ≡ false = ground arith in
            (
              insert-else r.accepted j g r.conns off ∙ (fresh j (omega arith)).0,
              (fresh j (omega arith)).1,
            ),
      )

  receiver_step-Inv : (e : Event Msg) (r : Receiver Msg) → Inv r → Inv (receiver_step codec e r)
  unfolding receiver_step
  receiver_step-Inv (accepting conn) r inv =
      if-Inv r.crashed r (accept_round codec conn r) inv λ up. accept_round-Inv conn r inv
  receiver_step-Inv (serving i) r inv =
      if-Inv r.crashed r (serve_round codec i (lookup i r.conns) r) inv
        λ up. serve_round-Inv i (lookup i r.conns) r refl inv

  receiver_loop-Inv :
      (es : List (Event Msg)) (r : Receiver Msg) → Inv r → Inv (receiver_loop codec es r)
  unfolding receiver_loop
  receiver_loop-Inv [] r inv = inv
  receiver_loop-Inv (e ∷ es) r inv =
      receiver_loop-Inv es (receiver_step codec e r) (receiver_step-Inv e r inv)

  run_receiver-Inv : (bound : Bool) (es : List (Event Msg)) → Inv (run_receiver codec bound es)
  unfolding run_receiver new_receiver lookup
  run_receiver-Inv true es =
      receiver_loop-Inv es new_receiver ((λ i g h. cc), (λ j late. (refl, refl)))
  run_receiver-Inv false es = ((λ i g h. cc), (λ j late. (refl, refl)))

  -- In any interleaving, what came on a connection is a prefix of what its other end sent, in order,
  -- up to the first message that gob does not encode; it is all of it when the goroutine of the
  -- connection has returned. The types of the messages are in the map, and gob reads them back.
  pub connection_kept :
      (bound : Bool) (es : List (Event Msg)) (i : ℕ) (g : Serving Msg) (ms : List Msg)
      → lookup i (run_receiver codec bound es).conns ≡ some g
      → g.sent ≡ write_all codec ms []
      → All (Registered codec) ms
      → (rest : List Msg) × (came_on i (run_receiver codec bound es).msg ++ rest
          ≡ encoded_prefix codec ms)
        × (g.returned ≡ true → rest ≡ [])
  connection_kept bound es i g ms at sent known = (
    left_over g,
    (run_receiver-Inv bound es).0 i g at
        ∙ ap (λ c. (serve_conn codec c).0) sent
        ∙ ap (λ s. s.0) (serve-write codec ms known),
    λ h. rw h refl,
  )
