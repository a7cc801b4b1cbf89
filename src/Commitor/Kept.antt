-- ===== src/Commitor/Kept.antt =====
-- What core/smvba/consensus/commitor.go sends is what it was handed.
use s_mvba.Base.{
  ℕ, zero, suc, ℤ, lookup, insert, lookup-insert, lookup-delete, int_eq, eqz, ltz, some,
  some-injective, Option-cases, Bool-cases, inl, inr, length, All, ◌≡◌, subst, arith,
}
use s_mvba.Message.{ConsensusBlock}
use s_mvba.Commitor.{Committor, advance, drain, commit}

module _ (P : ConsensusBlock → Type 0) where
  abbrev pub Waiting : Committor → Type 0
  Waiting c = (e : ℤ) (b : ConsensusBlock) → lookup e c.blocks ≡ some b → P b

  advance-Waiting : (c : Committor) → Waiting c → Waiting (advance c)
  unfolding advance
  advance-Waiting c w e b h = w e b (ground (arith, lookup-delete c.index e c.blocks))

  pub drain-Waiting :
      (fuel : ℕ) (c : Committor) → Waiting c → All P (drain fuel c).0 × Waiting (drain fuel c).1
  unfolding drain
  drain-Waiting zero c w = (tt, w)
  drain-Waiting (suc fuel) c w = elim (Option-cases (lookup c.index c.blocks)) [
    | inl e ↦ rw (e, drain) (tt, w)
    | inr (b, e) ↦
        let rest = drain-Waiting fuel (advance c) (advance-Waiting c w) in
        rw (e, drain) ((w c.index b e, rest.0), rest.1)
  ]

  insert-Waiting :
      (b : ConsensusBlock) (c : Committor)
      → P b
      → Waiting c
      → Waiting (record c { blocks = insert b.epoch b c.blocks })
  insert-Waiting b c p w e x h = elim (Bool-cases (eqz b.epoch e)) [
    | inl same ↦ subst P (some-injective b x (rw (lookup-insert b.epoch e b c.blocks, same) at h)) p
    | inr other ↦ w e x (rw (lookup-insert b.epoch e b c.blocks, other) at h)
  ]

  -- What holds of the blocks that wait, and of the one that is handed over, holds of what is sent.
  pub commit-Waiting :
      (b : ConsensusBlock) (c : Committor)
      → P b
      → Waiting c
      → All P (commit b c).0 × Waiting (commit b c).1
  unfolding commit
  commit-Waiting b c p w = elim (Bool-cases (ltz b.epoch c.index)) [
    | inl old ↦ rw (old) (tt, w)
    | inr new ↦ rw (new) (
        drain-Waiting (length (insert b.epoch b c.blocks))
          (record c { blocks = insert b.epoch b c.blocks }) (insert-Waiting b c p w))
  ]
