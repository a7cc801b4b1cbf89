-- ===== src/Commitor/Order.antt =====
-- The order in which core/smvba/consensus/commitor.go commits.
use s_mvba.Base.{
  keys, ◌⊎◌, ℕ, zero, suc, ◌≤◌, ◌+◌, ℤ, pos, inc64, ◌++◌, ltz, Map, lookup, insert, int_eq, List,
  [], ◌∷◌, none, some, length, length-delete, lookup-insert, lookup-delete, ◌≡◌, refl, arith, true,
  false, inl, inr, Option-cases, Bool-cases, subst, sym,
}
use s_mvba.Message.{ConsensusBlock}
use s_mvba.Commitor.{Committor, new_committor, advance, drain, commit}

-- The blocks have consecutive epochs from `start`, and `stop` is the epoch behind the last one.
pub data Consecutive : ℤ → List ConsensusBlock → ℤ → Type 0 where
  none_left : {start stop : ℤ} → start ≡ stop → Consecutive start [] stop
  then_next :
      {start stop : ℤ} {b : ConsensusBlock} {bs : List ConsensusBlock}
      → b.epoch ≡ start
      → Consecutive (inc64 start) bs stop
      → Consecutive start (b ∷ bs) stop

-- Each block waits under its own epoch.
abbrev pub Keyed : Committor → Type 0
Keyed c = (e : ℤ) (b : ConsensusBlock) → lookup e c.blocks ≡ some b → b.epoch ≡ e

advance-Keyed : (c : Committor) → Keyed c → Keyed (advance c)
unfolding advance
advance-Keyed c k e b h = k e b (ground (arith, lookup-delete c.index e c.blocks))

drain-Consecutive :
    (fuel : ℕ) (c : Committor)
    → Keyed c
    → Consecutive c.index (drain fuel c).0 (drain fuel c).1.index
unfolding drain advance
drain-Consecutive zero c k = none_left refl
drain-Consecutive (suc fuel) c k = elim (Option-cases (lookup c.index c.blocks)) [
  | inl e ↦ rw (e, drain) (none_left refl)
  | inr (b, e) ↦
      let rest = drain-Consecutive fuel (advance c) (advance-Keyed c k) in
      rw (e, drain) (then_next (k c.index b e) rest)
]

drain-Keyed : (fuel : ℕ) (c : Committor) → Keyed c → Keyed (drain fuel c).1
unfolding drain
drain-Keyed zero c k = k
drain-Keyed (suc fuel) c k = elim (Option-cases (lookup c.index c.blocks)) [
  | inl e ↦ rw (e, drain) k
  | inr (b, e) ↦ rw (e, drain) (drain-Keyed fuel (advance c) (advance-Keyed c k))
]

length-advance :
    (c : Committor) (b : ConsensusBlock)
    → lookup c.index c.blocks ≡ some b
    → length (advance c).blocks + 1 ≤ length c.blocks
unfolding advance
length-advance c b e = length-delete c.index b c.blocks e

lookup-no_blocks : (e : ℤ) (m : Map ℤ ConsensusBlock) → length m ≤ 0 → lookup e m ≡ none
unfolding lookup
lookup-no_blocks e [] h = refl
lookup-no_blocks e (b ∷ m) h = absurd (omega arith)

-- With as much fuel as there are blocks, the loop ends because the next block is missing.
drain-stops :
    (fuel : ℕ) (c : Committor)
    → length c.blocks ≤ fuel
    → lookup (drain fuel c).1.index (drain fuel c).1.blocks ≡ none
unfolding drain
drain-stops zero c h = lookup-no_blocks c.index c.blocks h
drain-stops (suc fuel) c h = elim (Option-cases (lookup c.index c.blocks)) [
  | inl e ↦ rw (e, drain) e
  | inr (b, e) ↦ rw (e, drain) (drain-stops fuel (advance c) (omega (arith, length-advance c b e)))
]

pub insert-Keyed :
    (b : ConsensusBlock) (c : Committor)
    → Keyed c
    → Keyed (record c { blocks = insert b.epoch b c.blocks })
insert-Keyed b c k e x h = grind (keys, lookup-insert b.epoch e b c.blocks, k e x)

-- A call of `Commit` sends blocks of consecutive epochs from `Index`, leaves `Index` behind the
-- last of them, and ends when the block of epoch `Index` is missing, if a block has come that is
-- not older than `Index`; an older one changes nothing.
pub commit_lem :
    (b : ConsensusBlock) (c : Committor)
    → Keyed c
    → let (out, c') = commit b c in
      Consecutive c.index out c'.index
      × Keyed c'
      × (((ltz b.epoch c.index ≡ false) × (lookup c'.index c'.blocks ≡ none))
          ⊎ ((ltz b.epoch c.index ≡ true) × (out ≡ []) × (c' ≡ c)))
unfolding commit
commit_lem b c k = elim (Bool-cases (ltz b.epoch c.index)) [
  | inl old ↦ rw old (none_left refl, k, inr (refl, refl, refl))
  | inr due ↦
      let c1 : Committor = record c { blocks = insert b.epoch b c.blocks } in
      let n : ℕ = length (insert b.epoch b c.blocks) in
      rw due (
        drain-Consecutive n c1 (insert-Keyed b c k),
        drain-Keyed n c1 (insert-Keyed b c k),
        inl (refl, drain-stops n c1 (omega arith)),
      )
]

pub Consecutive-append :
    {start middle stop : ℤ} {xs ys : List ConsensusBlock}
    → Consecutive start xs middle
    → Consecutive middle ys stop
    → Consecutive start (xs ++ ys) stop
Consecutive-append {stop = stop} {ys = ys} (none_left e) h =
    subst (λ s. Consecutive s ys stop) (sym e) h
Consecutive-append (then_next e r) h = then_next e (Consecutive-append r h)

-- All that a sequence of `Commit` calls sends.
unfoldable pub commit_all : List ConsensusBlock → Committor → List ConsensusBlock × Committor
commit_all [] c = ([], c)
commit_all (b ∷ bs) c =
    let (out, c') = commit b c in let (outs, c'') = commit_all bs c' in (out ++ outs, c'')

commit_all-Consecutive :
    (bs : List ConsensusBlock) (c : Committor)
    → Keyed c
    → Consecutive c.index (commit_all bs c).0 (commit_all bs c).1.index
unfolding commit_all
commit_all-Consecutive [] c k = none_left refl
commit_all-Consecutive (b ∷ bs) c k =
    let l = commit_lem b c k in
    Consecutive-append l.0 (commit_all-Consecutive bs (commit b c).1 l.1)

-- Whatever blocks are handed to a new committor, in any order and with any repetition, the blocks
-- that it sends have the epochs 0, 1, 2, ... with no gap and no repetition, and `Index` is the
-- epoch behind the last one.
pub commit_order :
    (bs : List ConsensusBlock)
    → let (out, c) = commit_all bs new_committor in Consecutive (pos 0) out c.index
unfolding new_committor
commit_order bs = commit_all-Consecutive bs new_committor (λ e b h. nothing e b h)
  where
    nothing : (e : ℤ) (b : ConsensusBlock) → lookup e [] ≡ some b → b.epoch ≡ e
    nothing e b h = cc (lookup-no_blocks e [] (omega arith))
