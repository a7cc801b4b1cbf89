-- ===== src/Protocol/Instances.antt =====
-- The broadcast instances of a node, over core/smvba/consensus/core.go and spb.go.
use s_mvba.Base.{
  keys, ℤ, pos, Bool, true, false, not, ◌&&◌, ◌||◌, some, List, ◌∷◌, ◌≡◌, ◌⊎◌, refl, sym, ◌∙◌, eqz,
  eqz_iff, touch, lookup, insert, lookup-insert, get2, get2-put2, int_eq, arith, if◌then◌else◌,
  or_empty, Bool-cases, inl, inr,
}
use s_mvba.Error.{ok, ◌>>=◌}
use s_mvba.Committee.{none_id}
use s_mvba.Crypto.{Digest, Primitives}
use s_mvba.Message.{new_fin_vote}
use s_mvba.Aggreator.{action_commit, add_fin_vote}
use s_mvba.Elector.{leader}
use s_mvba.Spb.{Site, Spb, new_spb, send, receive}
use s_mvba.Spb.Phases.{Inv, Keeps as PhaseKeeps, run_task-Inv}
use s_mvba.Core.{
  Services, Core, new_core, spb_of, set_spb, get_spb_instance, elector_leader, has_ready,
  process_leader, vote_on_leader, commit_block, Input, run_loop, messgae_filter, on_aggreator,
  handle_finvote, my_halt,
}
use s_mvba.Protocol.Frame.{plain, Moves, stays, runs, Holds, each, IsFrame}
use s_mvba.Protocol.Steps.{run_loop-Holds}

-- Every instance of the node, those not yet made included, satisfies the invariant of Spb/Phases.
abbrev pub Sound : {W : Type 0} → Core W → Type 0
Sound c = (e r x : ℤ) → Inv (spb_of e r x c)

spb_of-set_spb :
    {W : Type 0} (e r x a b y : ℤ) (s : Spb) (c : Core W)
    → spb_of a b y (set_spb e r x s c)
      ≡ (if (eqz e a && eqz r b) && eqz x y then s else spb_of a b y c)
unfolding spb_of set_spb
spb_of-set_spb e r x a b y s c = grind (
  keys,
  get2-put2 e r a b (insert x s (or_empty (get2 e r c.spb_instances))) c.spb_instances,
  lookup-insert x y s (or_empty (get2 e r c.spb_instances)),
)

and-true : (b c : Bool) → (b && c) ≡ true → (b ≡ true) × (c ≡ true)
and-true b c h = ground arith

implied : (b c : Bool) → (b ≡ true → c ≡ true) → (not b || c) ≡ true
implied true c h = h refl
implied false c h = refl

-- The instance that is written, or another one.
spb_of-cases :
    {W : Type 0} (e r x a b y : ℤ) (s : Spb) (c : Core W)
    → ((spb_of a b y (set_spb e r x s c) ≡ s) × (spb_of a b y c ≡ spb_of e r x c))
      ⊎ (spb_of a b y (set_spb e r x s c) ≡ spb_of a b y c)
spb_of-cases e r x a b y s c =
    let law = spb_of-set_spb e r x a b y s c in
    elim (Bool-cases ((eqz e a && eqz r b) && eqz x y)) [
      | inl h ↦
          let all = and-true (eqz e a && eqz r b) (eqz x y) h in
          let two = and-true (eqz e a) (eqz r b) all.0 in
          inl (
            law ∙ rw h,
            rw (
              sym ((eqz_iff e a).0 two.0),
              sym ((eqz_iff r b).0 two.1),
              sym ((eqz_iff x y).0 all.1),
            ),
          )
      | inr h ↦ inr (law ∙ rw h)
    ]

Moves-Inv : (cr : Primitives) (n : Site) (s t : Spb) → Inv s → Moves cr n s t → Inv t
Moves-Inv cr n s t v (stays e) = rw e v
Moves-Inv cr n s t v (runs k e) = rw e (run_task-Inv cr n k s v).0

-- The instance keeps its block, and its lock when it has a block.
abbrev pub Holding : Spb → Spb → Type 0
Holding s t =
    (d : Digest)
    → s.block_hash ≡ some d
    → (t.block_hash ≡ some d) × (s.lock_flag ≡ true → t.lock_flag ≡ true)

holding :
    (s t : Spb) (d : Digest)
    → s.block_hash ≡ some d
    → PhaseKeeps s.block_hash s t
    → (t.block_hash ≡ some d) × (s.lock_flag ≡ true → t.lock_flag ≡ true)
holding s t d h k = ground arith

Moves-Holding : (cr : Primitives) (n : Site) (s t : Spb) → Inv s → Moves cr n s t → Holding s t
Moves-Holding cr n s t v (stays e) d h = (rw e h, λ l. rw e l)
Moves-Holding cr n s t v (runs k e) d h =
    let kept = (run_task-Inv cr n k s v).1 in rw e (holding s _ d h kept)

module _ {W : Type 0} where
  abbrev pub KeepsBlocks : Core W → Core W → Type 0
  KeepsBlocks c d = (e r x : ℤ) → Holding (spb_of e r x c) (spb_of e r x d)

  abbrev Keeps : Core W → Core W → Type 0
  Keeps c d = Sound c → Sound d × KeepsBlocks c d

  unchanged : (c d : Core W) → d.spb_instances ≡ c.spb_instances → Keeps c d
  unfolding spb_of
  unchanged c d q g = (λ e r x. rw q (g e r x), λ e r x k h. (rw q h, λ l. rw q l))

  then-Keeps : (a b c : Core W) → Keeps a b → Keeps b c → Keeps a c
  then-Keeps a b c p q g =
      let (s, h) = p g in
      let (u, k) = q s in
      (
        u,
        λ e r x d m.
            let first = h e r x d m in
            let second = k e r x d first.0 in (second.0, λ l. second.1 (first.1 l)),
      )

  instance-Keeps :
      (cr : Primitives) (n : Site) (c : Core W) (e r x : ℤ) (s : Spb)
      → Moves cr n (spb_of e r x c) s
      → Keeps c (set_spb e r x s c)
  instance-Keeps cr n c e r x s m g = (
    λ a b y. elim (spb_of-cases e r x a b y s c) [
      | inl (p, q) ↦ rw p (Moves-Inv cr n (spb_of e r x c) s (g e r x) m)
      | inr p ↦ rw p (g a b y)
    ],
    λ a b y. elim (spb_of-cases e r x a b y s c) [
      | inl (p, q) ↦ rw (p, q) (Moves-Holding cr n (spb_of e r x c) s (g e r x) m)
      | inr p ↦ rw p (λ d h. (h, λ l. l))
    ],
  )

module _ {W : Type 0} {cr : Primitives} {n : Site} where
  Sound-IsFrame : IsFrame (Keeps {W = W}) cr n
  unfolding commit_block
  Sound-IsFrame = record {
    here = λ c. unchanged c c refl;
    then = then-Keeps;
    on_world = λ c w. unchanged c _ refl;
    on_emit = λ c e p. unchanged c _ refl;
    on_aggreator = λ c a. unchanged c _ refl;
    on_elector = λ c e. unchanged c _ refl;
    on_commit = λ c b. unchanged c _ refl;
    on_finish = λ c m. unchanged c _ refl;
    on_spb = instance-Keeps cr n;
    on_ready = λ c m. unchanged c _ refl;
    on_done_row = λ c e. unchanged c _ refl;
    on_announce = λ c e r h. unchanged c _ refl;
    on_halt_only = λ c e h. unchanged c _ refl;
    on_halt = λ c e h. unchanged c _ refl;
  }

module _ {W : Type 0} (sv : Services W) (cr : Primitives) (n : Site) where
  new_core-Sound : (w : W) → Sound (new_core w)
  unfolding new_core spb_of get2 lookup new_spb
  new_core-Sound w e r x = (refl, refl)

  -- Where each goroutine runs as one input: whatever inputs a new node meets, every instance with no block
  -- is unlocked and has counted no vote, and every instance with a block has nothing queued.
  pub instances-Sound : (w : W) (is : List Input) → Sound (run_loop sv cr n is (new_core w)).1
  instances-Sound w is = go (run_loop-Holds Keeps (plain Keeps sv Sound-IsFrame) is)
    where
      go : Holds Keeps (run_loop sv cr n is) → Sound (run_loop sv cr n is (new_core w)).1
      go (each g) = (g (new_core w) (new_core-Sound w)).0

  -- From any state in which the instances are as `instances-Sound` says, an instance that holds a
  -- block holds the same one after any sequence of inputs, and is locked if it was.
  pub blocks_kept :
      (is : List Input) (c : Core W) (e r x : ℤ) (d : Digest)
      → Sound c
      → (spb_of e r x c).block_hash ≡ some d
      → let s = spb_of e r x c in
        let t = spb_of e r x (run_loop sv cr n is c).1 in
        (t.block_hash ≡ some d) × ((not s.lock_flag || t.lock_flag) ≡ true)
  blocks_kept is c e r x d s h = go (run_loop-Holds Keeps (plain Keeps sv Sound-IsFrame) is)
    where
      go :
          Holds Keeps (run_loop sv cr n is)
          → ((spb_of e r x (run_loop sv cr n is c).1).block_hash ≡ some d)
            × ((not (spb_of e r x c).lock_flag
                  || (spb_of e r x (run_loop sv cr n is c).1).lock_flag)
                ≡ true)
      go (each g) = let k = (g c s).1 e r x d h in (k.0, implied (spb_of e r x c).lock_flag _ k.1)

  vote_on_leader_total :
      (e r x : ℤ) (c : Core W) → Inv (spb_of e r x c) → (vote_on_leader sv cr n e r x c).0 ≡ ok tt
  unfolding vote_on_leader get_spb_instance ◌>>=◌
  vote_on_leader_total e r x c v = ground arith

  process_leader_total_at :
      (e r : ℤ) (c : Core W) → Sound c → (process_leader sv cr n e r c).0 ≡ ok tt
  unfolding process_leader elector_leader has_ready ◌>>=◌ spb_of
  process_leader_total_at e r c s =
      let first = (leader e r c.elector).1 in
      let l = (leader e r first).0 in
      let c1 : Core W = record c {
        elector = (leader e r first).1;
        ready_flags = touch e c.ready_flags;
      } in
      ground (arith, vote_on_leader_total e r l c1 (s e r l))

  -- The panic "block hash is nil" does not happen: after any sequence of inputs to a new node,
  -- `processLeader` returns.
  pub process_leader_total :
      (w : W) (is : List Input) (e r : ℤ)
      → let c = (run_loop sv cr n is (new_core w)).1 in (process_leader sv cr n e r c).0 ≡ ok tt
  process_leader_total w is e r =
      process_leader_total_at e r (run_loop sv cr n is (new_core w)).1 (instances-Sound w is)

  -- A FinVote of the constructor that completes a unanimous YES makes the node send a Halt that names
  -- node 0 as the leader, whoever was elected: the constructor drops the leader that it is given.
  pub commit_names_zero :
      (author elected epoch round flag : ℤ) (d : Digest) (c : Core W)
      → messgae_filter epoch c ≡ false
      → (add_fin_vote n.committee
          (new_fin_vote cr n.sig_service author elected epoch round flag d)
          c.aggreator).0
        ≡ ok action_commit
      → let v = new_fin_vote cr n.sig_service author elected epoch round flag d in
        let a = (add_fin_vote n.committee v c.aggreator).1 in
        let m = my_halt cr n (pos 0) d epoch round in
        handle_finvote sv cr n v c
        ≡ (ok tt, record c { aggreator = a; trace = receive m ∷ send none_id m ∷ c.trace })
  unfolding handle_finvote on_aggreator new_fin_vote ◌>>=◌
  commit_names_zero author elected epoch round flag d c s h = ground arith
