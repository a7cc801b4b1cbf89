-- ===== src/Protocol/Frame.antt =====
-- A rule for core/smvba/consensus/core.go: a relation between states that every primitive change
-- of the node's state satisfies is satisfied by every input.
use s_mvba.Base.{
  ℤ, Bool, true, false, not, Option, none, some, ◌∷◌, ◌≡◌, refl, inc64, ltz, eqz, Map, Map2, insert,
  int_eq, get2, put2, touch,
}
use s_mvba.Error.{Outcome, ok, err, panic, M, gets, when, bind_outcome, ◌>>=◌}
use s_mvba.Committee.{none_id}
use s_mvba.Crypto.{Bytes, Digest, Primitives}
use s_mvba.Message.{ConsensusBlock, SpbProposal, SpbVote, done, block_hash}
use s_mvba.Message.Signing.{IsSigned}
use s_mvba.Elector.{Elector}
use s_mvba.Aggreator.{Aggreator}
use s_mvba.Spb.{Site, Spb, Effect, send, receive, commits}
use s_mvba.Spb.Phases.{Task, run_task}
use s_mvba.Core.{
  Services, Core, emit, elector_leader, get_spb_instance, spb_of, set_spb, on_aggreator, on_elector,
  commit_block, get_consensus_block, generator_block, verify_consensus_block, store_consensus_block,
  store_encoded, commit_verified, commit_late, commit_late_block, my_done, my_share,
  handle_spb_vote,
}

-- Not a Done that is sent, and not a commit.
abbrev pub IsPlain : Effect → Type 0
IsPlain (send to (done d)) = ⊥
IsPlain (commits b) = ⊥
IsPlain _ = Unit

-- A message that leaves the node, or goes to its own channel, is signed by it.
abbrev pub IsOwn : Primitives → Site → Effect → Type 0
IsOwn cr n (send to m) = IsSigned cr n.sig_service n.name m
IsOwn cr n (receive m) = IsSigned cr n.sig_service n.name m
IsOwn cr n _ = Unit

abbrev pub IsEmitted : Primitives → Site → Effect → Type 0
IsEmitted cr n e = IsPlain e × IsOwn cr n e

-- The state after `announce`.
abbrev pub announced : {W : Type 0} → Primitives → Site → ℤ → ℤ → Core W → Core W
announced cr n epoch round c = record c {
  trace =
      receive (my_share cr n epoch round)
      ∷ receive (my_done cr n epoch round)
      ∷ send none_id (my_share cr n epoch round)
      ∷ send none_id (my_done cr n epoch round)
      ∷ c.trace;
  done_flags = put2 epoch round tt c.done_flags;
}

-- What a goroutine does to an instance, or nothing.
pub data Moves (cr : Primitives) (n : Site) (s t : Spb) : Type 0 where
  stays : t ≡ s → Moves cr n s t
  runs : (k : Task) → t ≡ (run_task cr n k s).1 → Moves cr n s t

module _ {W : Type 0} (R : Core W → Core W → Type 0) where
  pub data Holds {A : Type 0} (m : M (Core W) A) : Type 0 where
    each : ((c : Core W) → R c (m c).1) → Holds m

  -- What a relation has to satisfy, for each primitive change of the state.
  pub record IsFrame (cr : Primitives) (n : Site) : Type 0 where
    pub here : (c : Core W) → R c c
    pub then : (a b c : Core W) → R a b → R b c → R a c
    pub on_world : (c : Core W) (w : W) → R c (record c { world = w })
    pub on_emit :
        (c : Core W) (e : Effect) → IsEmitted cr n e → R c (record c { trace = e ∷ c.trace })
    pub on_aggreator : (c : Core W) (a : Aggreator) → R c (record c { aggreator = a })
    pub on_elector : (c : Core W) (e : Elector) → R c (record c { elector = e })
    pub on_commit : (c : Core W) (b : ConsensusBlock) → R c (commit_block b c).1
    pub on_finish : (c : Core W) (m : Map2 (Map ℤ Digest)) → R c (record c { finish_flags = m })
    pub on_spb :
        (c : Core W) (e r x : ℤ) (s : Spb) → Moves cr n (spb_of e r x c) s → R c (set_spb e r x s c)
    pub on_ready : (c : Core W) (m : Map2 (Unit {0})) → R c (record c { ready_flags = m })
    pub on_done_row : (c : Core W) (e : ℤ) → R c (record c { done_flags = touch e c.done_flags })
    pub on_announce :
        (c : Core W) (e r : ℤ) → get2 e r c.done_flags ≡ none → R c (announced cr n e r c)
    pub on_halt_only :
        (c : Core W) (e : ℤ)
        → ltz c.epoch (inc64 e) ≡ false
        → R c (record c { halt_flags = insert e tt c.halt_flags })
    pub on_halt :
        (c : Core W) (e : ℤ)
        → ltz c.epoch (inc64 e) ≡ true
        → R c (record c { halt_flags = insert e tt c.halt_flags; epoch = inc64 e })

  -- The same, where what happens behind the services is what they do, and a block is committed when the
  -- mempool says that it is complete.
  pub record ServiceFrame (cr : Primitives) (n : Site) (sv : Services W) : Type 0 where
    pub here : (c : Core W) → R c c
    pub then : (a b c : Core W) → R a b → R b c → R a c
    pub on_write :
        (c : Core W) (d : Digest) (v : Bytes) → R c (record c { world = (sv.write d v c.world).1 })
    pub on_make :
        (c : Core W) (size : ℤ) → R c (record c { world = (sv.make_block size c.world).1 })
    pub on_verify : (c : Core W) (b : ConsensusBlock) → R c (verify_consensus_block sv cr n b c).1
    pub on_complete : (c : Core W) (b : ConsensusBlock) → R c (commit_verified sv cr n b c).1
    pub on_emit :
        (c : Core W) (e : Effect) → IsEmitted cr n e → R c (record c { trace = e ∷ c.trace })
    pub on_aggreator : (c : Core W) (a : Aggreator) → R c (record c { aggreator = a })
    pub on_elector : (c : Core W) (e : Elector) → R c (record c { elector = e })
    pub on_finish : (c : Core W) (m : Map2 (Map ℤ Digest)) → R c (record c { finish_flags = m })
    pub on_spb :
        (c : Core W) (e r x : ℤ) (s : Spb) → Moves cr n (spb_of e r x c) s → R c (set_spb e r x s c)
    pub on_ready : (c : Core W) (m : Map2 (Unit {0})) → R c (record c { ready_flags = m })
    pub on_done_row : (c : Core W) (e : ℤ) → R c (record c { done_flags = touch e c.done_flags })
    pub on_announce :
        (c : Core W) (e r : ℤ) → get2 e r c.done_flags ≡ none → R c (announced cr n e r c)
    pub on_halt_only :
        (c : Core W) (e : ℤ)
        → ltz c.epoch (inc64 e) ≡ false
        → R c (record c { halt_flags = insert e tt c.halt_flags })
    pub on_halt :
        (c : Core W) (e : ℤ)
        → ltz c.epoch (inc64 e) ≡ true
        → R c (record c { halt_flags = insert e tt c.halt_flags; epoch = inc64 e })

  -- A relation that no change behind the services, and no commit, disturbs.
  module _ {cr : Primitives} {n : Site} (sv : Services W) (f : IsFrame cr n) where
    verify-plain : (c : Core W) (b : ConsensusBlock) → R c (verify_consensus_block sv cr n b c).1
    unfolding verify_consensus_block
    verify-plain c b = f.on_world c _

    complete_plain : (c : Core W) (b : ConsensusBlock) → R c (commit_verified sv cr n b c).1
    unfolding commit_verified verify_consensus_block ◌>>=◌
    complete_plain c b =
        go (sv.verify_block b.proposer b.epoch b.pay_loads (block_hash cr b) c.world)
      where
        go : (r : Bool × W) → R c (when r.0 (commit_block b) (record c { world = r.1 })).1
        go (true, w) =
            f.then c (record c { world = w }) _ (f.on_world c w)
              (f.on_commit (record c { world = w }) b)
        go (false, w) = f.on_world c w

    pub plain : ServiceFrame cr n sv
    plain = record {
      here = f.here;
      then = f.then;
      on_write = λ c d v. f.on_world c _;
      on_make = λ c size. f.on_world c _;
      on_verify = verify-plain;
      on_complete = complete_plain;
      on_emit = f.on_emit;
      on_aggreator = f.on_aggreator;
      on_elector = f.on_elector;
      on_finish = f.on_finish;
      on_spb = f.on_spb;
      on_ready = f.on_ready;
      on_done_row = f.on_done_row;
      on_announce = f.on_announce;
      on_halt_only = f.on_halt_only;
      on_halt = f.on_halt;
    }

  module _ {cr : Primitives} {n : Site} {sv : Services W} (f : ServiceFrame cr n sv) where
    pub bind_outcome-Holds :
        {A B : Type 0} (k : A → M (Core W) B) (c t : Core W) (o : Outcome A)
        → R c t
        → ((a : A) → Holds (k a))
        → R c (bind_outcome o k t).1
    bind_outcome-Holds k c t (ok a) r h = at (h a)
      where
        at : Holds (k a) → R c (k a t).1
        at (each g) = f.then c t (k a t).1 r (g t)
    bind_outcome-Holds k c t (err e) r h = r
    bind_outcome-Holds k c t panic r h = r

    pub bind-Holds :
        {A B : Type 0} {m : M (Core W) A} {k : A → M (Core W) B}
        → Holds m
        → ((a : A) → Holds (k a))
        → Holds (m >>= k)
    unfolding ◌>>=◌
    bind-Holds {m = m} {k = k} (each h) g =
        each (λ c. bind_outcome-Holds k c (m c).1 (m c).0 (h c) g)

    pub gets-Holds : {A : Type 0} {g : Core W → A} → Holds (gets g)
    gets-Holds = each f.here

    pub when-Holds : (b : Bool) {m : M (Core W) (Unit {0})} → Holds m → Holds (when b m)
    when-Holds true h = h
    when-Holds false h = each f.here

    pub emit-Holds : (e : Effect) → IsEmitted cr n e → Holds (emit e)
    emit-Holds e p = each (λ c. f.on_emit c e p)

    pub get_spb-Holds : (e r x : ℤ) → Holds (get_spb_instance e r x)
    unfolding get_spb_instance
    get_spb-Holds e r x = each (λ c. f.on_spb c e r x (spb_of e r x c) (stays refl))

    pub leader-Holds : (e r : ℤ) → Holds (elector_leader e r)
    unfolding elector_leader
    leader-Holds e r = each (λ c. f.on_elector c _)

    pub on_aggreator-Holds : {A : Type 0} (m : M Aggreator A) → Holds (on_aggreator m)
    unfolding on_aggreator
    on_aggreator-Holds m = each (λ c. f.on_aggreator c _)

    pub on_elector-Holds : {A : Type 0} (m : M Elector A) → Holds (on_elector m)
    unfolding on_elector
    on_elector-Holds m = each (λ c. f.on_elector c _)

    pub get_block-Holds : (d : Digest) → Holds (get_consensus_block sv cr n d)
    unfolding get_consensus_block
    get_block-Holds d = each f.here

    pub generator-Holds : (e : ℤ) → Holds (generator_block sv cr n e)
    unfolding generator_block
    generator-Holds e = each (λ c. f.on_make c n.parameters.max_payload_size)

    pub verify-Holds : (b : ConsensusBlock) → Holds (verify_consensus_block sv cr n b)
    verify-Holds b = each (λ c. f.on_verify c b)

    pub store-Holds : (b : ConsensusBlock) → Holds (store_consensus_block sv cr n b)
    unfolding store_consensus_block
    store-Holds b = go (sv.encode b)
      where
        go : (v : Option Bytes) → Holds (store_encoded sv cr n b v)
        go none = each f.here
        go (some v) = each (λ c. f.on_write c (block_hash cr b) v)

    pub commit_verified-Holds : (b : ConsensusBlock) → Holds (commit_verified sv cr n b)
    commit_verified-Holds b = each (λ c. f.on_complete c b)

    pub commit_late-Holds : (p : SpbProposal) → Holds (commit_late sv cr n p)
    unfolding commit_late
    commit_late-Holds p = bind-Holds gets-Holds (λ x.
        when-Holds x
          (bind-Holds (leader-Holds p.epoch p.round) (λ l. when-Holds (eqz l p.author) (go p.b))))
      where
        go : (b : Option ConsensusBlock) → Holds (commit_late_block sv cr n b)
        go none = each f.here
        go (some b) = commit_verified-Holds b

    pub handle_spb_vote-Holds : (v : SpbVote) → Holds (handle_spb_vote sv cr n v)
    unfolding handle_spb_vote
    handle_spb_vote-Holds v = bind-Holds gets-Holds (λ stale.
        when-Holds (not stale)
          (bind-Holds (get_spb-Holds v.epoch v.round v.proposer) (λ s. emit-Holds _ (tt, tt))))
