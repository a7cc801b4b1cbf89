-- ===== src/Protocol/Commits.antt =====
-- What a node commits, over core/smvba/consensus/core.go and commitor.go.
use s_mvba.Base.{pos, List, [], ◌∷◌, ◌++◌, ◌≡◌, refl, sym, append_assoc, append-nil, lookup, int_eq}
use s_mvba.Crypto.{Primitives}
use s_mvba.Message.{ConsensusBlock}
use s_mvba.Spb.{Site, Effect, send, receive, go_proposal, go_vote, commits}
use s_mvba.Commitor
use s_mvba.Commitor.{Committor, new_committor}
use s_mvba.Commitor.Order.{Consecutive, none_left, Keyed, Consecutive-append, commit_lem}
use s_mvba.Core.{Services, Core, set_spb, new_core, commit_block, commits_onto, Input, run_loop}
use s_mvba.Protocol.Frame.{plain, IsPlain, Holds, each, IsFrame}
use s_mvba.Protocol.Steps.{run_loop-Holds}

-- The blocks sent to `commitCh`, the oldest first.
abbrev pub committed : List Effect → List ConsensusBlock
committed [] = []
committed (commits b ∷ t) = committed t ++ b ∷ []
committed (_ ∷ t) = committed t

pub committed-plain : (e : Effect) (t : List Effect) → IsPlain e → committed (e ∷ t) ≡ committed t
committed-plain (commits b) t p = absurd p
committed-plain (send to m) t p = refl
committed-plain (receive m) t p = refl
committed-plain (go_proposal q) t p = refl
committed-plain (go_vote v) t p = refl

pub committed-commits_onto :
    (bs : List ConsensusBlock) (t : List Effect) → committed (commits_onto bs t) ≡ committed t ++ bs
unfolding commits_onto
committed-commits_onto [] t = sym (append-nil (committed t))
committed-commits_onto (b ∷ bs) t =
    rw (committed-commits_onto bs (commits b ∷ t)) (append_assoc (committed t) (b ∷ []) bs)

-- The committed blocks have the epochs 0, 1, 2, ..., up to the committor's index.
abbrev pub InOrder : {W : Type 0} → Core W → Type 0
InOrder c = Consecutive (pos 0) (committed c.trace) c.commitor.index × Keyed c.commitor

module _ {W : Type 0} where
  abbrev Keeps : Core W → Core W → Type 0
  Keeps c d = InOrder c → InOrder d

  order-emit : (c : Core W) (e : Effect) → IsPlain e → Keeps c (record c { trace = e ∷ c.trace })
  order-emit c e p g = rw (committed-plain e c.trace p) g

  order-commit : (c : Core W) (b : ConsensusBlock) → Keeps c (commit_block b c).1
  unfolding commit_block
  order-commit c b g =
      let l = commit_lem b c.commitor g.1 in
      (
        rw (committed-commits_onto (Commitor.commit b c.commitor).0 c.trace)
            (Consecutive-append g.0 l.0),
        l.1,
      )

module _ {W : Type 0} {cr : Primitives} {n : Site} where
  InOrder-IsFrame : IsFrame (Keeps {W = W}) cr n
  unfolding set_spb
  InOrder-IsFrame = record {
    here = λ c g. g;
    then = λ a b c p q g. q (p g);
    on_world = λ c w g. g;
    on_emit = λ c e p. order-emit c e p.0;
    on_aggreator = λ c a g. g;
    on_elector = λ c e g. g;
    on_commit = order-commit;
    on_finish = λ c m g. g;
    on_spb = λ c e r x s m g. g;
    on_ready = λ c m g. g;
    on_done_row = λ c e g. g;
    on_announce = λ c e r h g. g;
    on_halt_only = λ c e h g. g;
    on_halt = λ c e h g. g;
  }

module _ {W : Type 0} (sv : Services W) (cr : Primitives) (n : Site) where
  -- Whatever inputs a new node meets, the blocks that it has committed have the epochs 0, 1, 2,
  -- ..., in this order, with no gap and no repetition.
  pub committed_in_order :
      (w : W) (is : List Input)
      → let c = (run_loop sv cr n is (new_core w)).1 in
        Consecutive (pos 0) (committed c.trace) c.commitor.index
  unfolding new_core new_committor lookup
  committed_in_order w is = go (run_loop-Holds Keeps (plain Keeps sv InOrder-IsFrame) is)
    where
      go :
          Holds Keeps (run_loop sv cr n is)
          → Consecutive
              (pos 0)
              (committed (run_loop sv cr n is (new_core w)).1.trace)
              (run_loop sv cr n is (new_core w)).1.commitor.index
      go (each g) = (g (new_core w) (none_left refl, λ e b h. cc)).0
