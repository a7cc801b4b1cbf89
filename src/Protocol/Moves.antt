-- ===== src/Protocol/Moves.antt =====
-- The rule of Protocol/Frame for the moves between rounds and epochs of core/smvba/consensus/core.go.
use s_mvba.Base.{
  ℤ, Bool, true, false, not, Option, none, some, ◌≡◌, refl, inc64, eqz, int_eq, get2, touch,
  get2-touch, ◌∙◌,
}
use s_mvba.Error.{when, ◌>>=◌}
use s_mvba.Committee.{none_id}
use s_mvba.Crypto.{Digest, Primitives}
use s_mvba.Message.{ConsensusBlock, Message}
use s_mvba.Message.Signing.{
  IsSigned, new_prevote-IsSigned, new_halt-IsSigned, new_spb_proposal-IsSigned,
}
use s_mvba.Aggreator.{Action, action_yes, action_no, action_commit, action_none}
use s_mvba.Spb.{Site, send, receive}
use s_mvba.Core.{
  Services, Core, my_proposal, broad_cast, has_ready, has_done, announce, invoke_done_and_share,
  on_leader, vote_by_lock, vote_on_leader, process_leader, propose, carried, advance_next_round,
  propose_first,
}
use s_mvba.Protocol.Frame.{
  IsPlain, announced, Holds, each, ServiceFrame, bind-Holds, gets-Holds, when-Holds, emit-Holds,
  get_spb-Holds, leader-Holds, get_block-Holds, generator-Holds,
}

module _ {W : Type 0} (R : Core W → Core W → Type 0) {cr : Primitives} {n : Site} {sv : Services W}
    (f : ServiceFrame R cr n sv) where
  pub broad_cast-Holds :
      (m : Message)
      → IsPlain (send none_id m)
      → IsSigned cr n.sig_service n.name m
      → Holds R (broad_cast m)
  broad_cast-Holds m p s =
      bind-Holds R f (emit-Holds R f _ (p, s)) (λ _. emit-Holds R f (receive m) (tt, s))

  pub invoke-Holds : (e r : ℤ) → Holds R (invoke_done_and_share sv cr n e r)
  unfolding invoke_done_and_share has_done announce ◌>>=◌
  invoke-Holds e r = each λ c. go c (get2 e r c.done_flags) refl
    where
      go :
          (c : Core W) (o : Option (Unit {0}))
          → get2 e r c.done_flags ≡ o
          → R c (invoke_done_and_share sv cr n e r c).1
      go c none h =
          let c1 : Core W = record c { done_flags = touch e c.done_flags } in
          rw (h, when)
            (f.then c c1 (announced cr n e r c1) (f.on_done_row c e)
              (f.on_announce c1 e r (get2-touch e e r c.done_flags ∙ h)))
      go c (some _) h = rw (h, when) (f.on_done_row c e)

  pub vote_on_leader-Holds : (e r l : ℤ) → Holds R (vote_on_leader sv cr n e r l)
  unfolding vote_on_leader
  vote_on_leader-Holds e r l =
      bind-Holds R f (get_spb-Holds R f e r l) (λ s. go s.lock_flag s.block_hash)
    where
      go : (b : Bool) (d : Option Digest) → Holds R (vote_by_lock sv cr n e r l b d)
      go true none = each f.here
      go true (some d) =
          broad_cast-Holds _ tt (new_prevote-IsSigned cr n.sig_service n.name _ _ _ _ _)
      go false d = broad_cast-Holds _ tt (new_prevote-IsSigned cr n.sig_service n.name _ _ _ _ _)

  pub process_leader-Holds : (e r : ℤ) → Holds R (process_leader sv cr n e r)
  unfolding process_leader has_ready
  process_leader-Holds e r = bind-Holds R f (leader-Holds R f e r) λ _.
      bind-Holds R f (each (λ c. f.on_ready c _)) λ ready. when-Holds R f ready (
        bind-Holds R f (leader-Holds R f e r)
          λ l. when-Holds R f (not (eqz l none_id)) (bind-Holds R f (gets-Holds R f) (go l)))
    where
      go : (l : ℤ) (d : Option Digest) → Holds R (on_leader sv cr n e r l d)
      go l none = vote_on_leader-Holds e r l
      go l (some d) = broad_cast-Holds _ tt (new_halt-IsSigned cr n.sig_service n.name _ _ _ _)

  my_proposal-Holds : (b : ConsensusBlock) (e r : ℤ) → Holds R (broad_cast (my_proposal cr n b e r))
  my_proposal-Holds b e r =
      broad_cast-Holds _ tt (new_spb_proposal-IsSigned cr n.sig_service n.name _ _ _ _)

  pub propose-Holds : (e r : ℤ) (b : Option ConsensusBlock) → Holds R (propose sv cr n e r b)
  propose-Holds e r none = bind-Holds R f (generator-Holds R f e) (λ b. my_proposal-Holds b _ _)
  propose-Holds e r (some b) = my_proposal-Holds b _ _

  pub propose_first-Holds : (e : ℤ) → Holds R (propose_first sv cr n e)
  unfolding propose_first
  propose_first-Holds e = bind-Holds R f (generator-Holds R f e) (λ b. my_proposal-Holds b _ _)

  pub carried-Holds : (a : Action) (e r : ℤ) (d : Digest) → Holds R (carried sv cr n a e r d)
  carried-Holds action_no e r d = bind-Holds R f (get_spb-Holds R f e r n.name) (λ s. each f.here)
  carried-Holds action_yes e r d = each f.here
  carried-Holds action_commit e r d = each f.here
  carried-Holds action_none e r d = each f.here

  pub advance_next_round-Holds :
      (e r : ℤ) (a : Action) (d : Digest) → Holds R (advance_next_round sv cr n e r a d)
  unfolding advance_next_round
  advance_next_round-Holds e r a d = bind-Holds R f (gets-Holds R f) λ stale.
      when-Holds R f (not stale) (
        bind-Holds R f (carried-Holds a e r d)
          λ d'. bind-Holds R f (get_block-Holds R f d') λ b. propose-Holds e (inc64 r) b)
