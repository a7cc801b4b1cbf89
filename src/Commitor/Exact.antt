-- ===== src/Commitor/Exact.antt =====
-- Which blocks a call of `Commit` in core/smvba/consensus/commitor.go sends, and which wait after it.
use s_mvba.Base.{
  ℕ, zero, suc, ℤ, ltz, eqz, eqz_iff, lookup, insert, lookup-delete, int_eq, List, [], ◌∷◌, none,
  some, some-injective, Option-cases, Bool-cases, inl, inr, length, All, ◌≡◌, ◌⊎◌, sym, ◌∙◌, ap,
  arith, false, true, subst,
}
use s_mvba.Message.{ConsensusBlock}
use s_mvba.Commitor.{Committor, advance, drain, commit}
use s_mvba.Commitor.Order.{Consecutive, Keyed, insert-Keyed, commit_lem}
use s_mvba.Commitor.Kept.{drain-Waiting}

abbrev pub Sent : ConsensusBlock → List ConsensusBlock → Type 0
Sent x [] = ⊥
Sent x (b ∷ bs) = (x ≡ b) ⊎ Sent x bs

drain-Sent :
    (fuel : ℕ) (c : Committor) (e : ℤ) (x : ConsensusBlock)
    → lookup e c.blocks ≡ some x
    → Sent x (drain fuel c).0 ⊎ (lookup e (drain fuel c).1.blocks ≡ some x)
unfolding drain advance
drain-Sent zero c e x h = inr h
drain-Sent (suc fuel) c e x h = elim (Option-cases (lookup c.index c.blocks)) [
  | inl gone ↦ rw (gone, drain) (inr h)
  | inr (b, found) ↦
      rw (found, drain)
        (elim (Bool-cases (eqz c.index e)) [
          | inl now ↦ inl (
              inl (
                some-injective x b
                  (sym h ∙ ap (λ k. lookup k c.blocks) (sym ((eqz_iff c.index e).0 now)) ∙ found)))
          | inr later ↦
              elim (drain-Sent fuel (advance c) e x
                (ground (arith, lookup-delete c.index e c.blocks))) [
                  | inl s ↦ inl (inr s)
                  | inr w ↦ inr w
                ]
        ])
]

-- Nothing is lost, and nothing is made up: of the blocks that wait when the block has been put among them,
-- each is sent or still waits, and what is sent or still waits is one of them.
abbrev pub NothingLost : ConsensusBlock → Committor → List ConsensusBlock → Committor → Type 0
NothingLost b c out c' =
    let blocks = insert b.epoch b c.blocks in
    All (λ (x : ConsensusBlock). lookup x.epoch blocks ≡ some x) out
    × ((e : ℤ) (x : ConsensusBlock) → lookup e c'.blocks ≡ some x → lookup x.epoch blocks ≡ some x)
    × ((e : ℤ) (x : ConsensusBlock)
        → lookup e blocks ≡ some x
        → Sent x out ⊎ (lookup e c'.blocks ≡ some x))

drain-NothingLost :
    (b : ConsensusBlock) (c : Committor)
    → Keyed c
    → let (out, c') =
        drain
          (length (insert b.epoch b c.blocks))
          (record c { blocks = insert b.epoch b c.blocks }) in
      NothingLost b c out c'
drain-NothingLost b c k =
    let c1 : Committor = record c { blocks = insert b.epoch b c.blocks } in
    let waits =
      drain-Waiting (λ x. lookup x.epoch (insert b.epoch b c.blocks) ≡ some x)
        (length (insert b.epoch b c.blocks)) c1
        (λ e x h.
          subst (λ i. lookup i (insert b.epoch b c.blocks) ≡ some x)
            (sym (insert-Keyed b c k e x h)) h) in
    (waits.0, waits.1, drain-Sent (length (insert b.epoch b c.blocks)) c1)

-- A call of `Commit` with a block that is not older than `Index` puts it among the blocks that wait, sends
-- those of consecutive epochs from `Index` and no others, keeps the others, leaves `Index` behind the last
-- that it sent, and ends when the block of epoch `Index` is missing; an older block changes nothing.
pub commit_exact :
    (b : ConsensusBlock) (c : Committor)
    → Keyed c
    → let (out, c') = commit b c in
      Consecutive c.index out c'.index
      × Keyed c'
      × (((ltz b.epoch c.index ≡ false)
            × (lookup c'.index c'.blocks ≡ none)
            × NothingLost b c out c')
          ⊎ ((ltz b.epoch c.index ≡ true) × (out ≡ []) × (c' ≡ c)))
unfolding commit
commit_exact b c k =
    let l = commit_lem b c k in
    (
      l.0,
      l.1,
      elim l.2 [
        | inl (due, stops) ↦ inl (due, stops, rw (due) (drain-NothingLost b c k))
        | inr old ↦ inr old
      ],
    )
