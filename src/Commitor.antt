-- ===== src/Commitor.antt =====
-- core/smvba/consensus/commitor.go: blocks are committed in the order of their epochs. What
-- `Commit` sends to `commitCh` is the list that it returns; `run`, which logs each block and
-- signals the call-back, is not modelled.
pub mod Order
pub mod Run
pub mod Kept
pub mod Exact
use s_mvba.Base.{
  ℕ, zero, suc, ℤ, pos, inc64, ltz, Map, lookup, insert, delete, int_eq, List, [], ◌∷◌, Option,
  none, some, length, if◌then◌else◌,
}
use s_mvba.Message.{ConsensusBlock}

pub record Committor : Type 0 where
  pub index : ℤ
  pub blocks : Map ℤ ConsensusBlock

unfoldable pub new_committor : Committor
new_committor = record { index = pos 0; blocks = [] }

unfoldable pub advance : Committor → Committor
advance c = record { index = inc64 c.index; blocks = delete c.index c.blocks }

-- The loop of `Commit`. Each round deletes a block, so the number of blocks is enough fuel.
unfoldable pub drain : ℕ → Committor → List ConsensusBlock × Committor
drain zero c = ([], c)
drain (suc fuel) c = elim (lookup c.index c.blocks) [
  | none ↦ ([], c)
  | some b ↦ let (out, c') = drain fuel (advance c) in (b ∷ out, c')
]

unfoldable pub commit : ConsensusBlock → Committor → List ConsensusBlock × Committor
commit b c =
    let blocks = insert b.epoch b c.blocks in
    if ltz b.epoch c.index then ([], c) else drain (length blocks) (record c { blocks = blocks })
