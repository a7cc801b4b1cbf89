-- ===== src/Protocol/Authored.antt =====
-- What a node sends is its own: the messages of core/smvba/consensus/core.go and spb.go are signed by it.
use s_mvba.Base.{List, [], ◌∷◌, All, All-imp, length, true, ◌≡◌}
use s_mvba.Error.{ok}
use s_mvba.Committee.{name}
use s_mvba.Crypto.{Digest, Primitives}
use s_mvba.Message.{ConsensusBlock, verify}
use s_mvba.Message.Signing.{by_share, signed-verify, new_done-IsSigned}
use s_mvba.Spb.{Site, Effect, send, receive, go_proposal, go_vote, commits}
use s_mvba.Commitor
use s_mvba.Core.{Services, Core, set_spb, new_core, commit_block, commits_onto, Input, run_loop}
use s_mvba.Protocol.Frame.{plain, IsOwn, Holds, each, IsFrame}
use s_mvba.Protocol.Steps.{run_loop-Holds}

module _ {W : Type 0} (sv : Services W) (cr : Primitives) (n : Site) where
  abbrev AllOwn : Core W → Type 0
  AllOwn c = All (IsOwn cr n) c.trace

  abbrev Keeps : Core W → Core W → Type 0
  Keeps c d = AllOwn c → AllOwn d

  commits_onto-All :
      (bs : List ConsensusBlock) (t : List Effect)
      → All (IsOwn cr n) t
      → All (IsOwn cr n) (commits_onto bs t)
  unfolding commits_onto
  commits_onto-All [] t h = h
  commits_onto-All (b ∷ bs) t h = commits_onto-All bs (commits b ∷ t) (tt, h)

  own-commit : (c : Core W) (b : ConsensusBlock) → Keeps c (commit_block b c).1
  unfolding commit_block
  own-commit c b h = commits_onto-All (Commitor.commit b c.commitor).0 c.trace h

  AllOwn-IsFrame : IsFrame Keeps cr n
  unfolding set_spb
  AllOwn-IsFrame =
      let done = new_done-IsSigned cr n.sig_service n.name in
      record {
        here = λ c g. g;
        then = λ a b c p q g. q (p g);
        on_world = λ c w g. g;
        on_emit = λ c e p g. (p.1, g);
        on_aggreator = λ c a g. g;
        on_elector = λ c e g. g;
        on_commit = own-commit;
        on_finish = λ c m g. g;
        on_spb = λ c e r x s m g. g;
        on_ready = λ c m g. g;
        on_done_row = λ c e g. g;
        on_announce = λ c e r h g. (by_share tt, (done e r, (by_share tt, (done e r, g))));
        on_halt_only = λ c e h g. g;
        on_halt = λ c e h g. g;
      }

  run_loop-AllOwn : (w : W) (is : List Input) → AllOwn (run_loop sv cr n is (new_core w)).1
  unfolding new_core
  run_loop-AllOwn w is = go (run_loop-Holds Keeps (plain Keeps sv AllOwn-IsFrame) is)
    where
      go : Holds Keeps (run_loop sv cr n is) → AllOwn (run_loop sv cr n is (new_core w)).1
      go (each h) = h (new_core w) tt

  -- A message that leaves the node, or goes to its own channel, passes `Verify`.
  abbrev pub PassesVerify : Effect → Type 0
  PassesVerify (send to m) = verify cr n.committee m ≡ ok true
  PassesVerify (receive m) = verify cr n.committee m ≡ ok true
  PassesVerify _ = Unit

  module _ (len : length (name n.committee n.name) ≡ 32)
      (good : (d : Digest)
        → cr.ed_verify (name n.committee n.name) d (cr.ed_sign n.sig_service.pri_key d)
          ≡ true) where
    own-PassesVerify : (e : Effect) → IsOwn cr n e → PassesVerify e
    own-PassesVerify (send to m) s = signed-verify cr n.sig_service n.name n.committee len good m s
    own-PassesVerify (receive m) s = signed-verify cr n.sig_service n.name n.committee len good m s
    own-PassesVerify (go_proposal p) s = tt
    own-PassesVerify (go_vote v) s = tt
    own-PassesVerify (commits b) s = tt

    -- Whatever inputs a new node meets, each message that it sends, or writes to its own channel, passes
    -- `Verify`, when the committee has its public key, of 32 bytes, and that key verifies what its private
    -- key signs.
    pub sent_verified :
        (w : W) (is : List Input) → All PassesVerify (run_loop sv cr n is (new_core w)).1.trace
    sent_verified w is =
        All-imp (IsOwn cr n) PassesVerify (run_loop sv cr n is (new_core w)).1.trace
          own-PassesVerify (run_loop-AllOwn w is)
