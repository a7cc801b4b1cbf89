-- ===== src/Protocol/Steps.antt =====
-- The rule of Protocol/Frame for the main loop of core/smvba/consensus/core.go and its goroutines.
use s_mvba.Base.{
  negsuc, Option, some, none, eqz, Bool-cases, inl, inr, lookup, ◌+◌, ◌==◌, ℤ, Bool, true, false,
  List, [], ◌∷◌, ◌++◌, map, ◌≡◌, refl, int_eq, arith, All, ap,
}
use s_mvba.Error.{Outcome, ok, err, panic}
use s_mvba.Crypto.{Digest, zero_digest, Primitives}
use s_mvba.Message.{
  ConsensusBlock, block_hash, spb_one_phase, spb_two_phase, SpbProposal, SpbVote, spb_vote, verify,
}
use s_mvba.Message.Signing.{
  IsSigned, new_spb_vote-IsSigned, new_spb_proposal-IsSigned, new_finish-IsSigned,
}
use s_mvba.Committee.{hight_threshold}
use s_mvba.Spb.{
  vote_of, one_phase, two_phase, accept_block, quorum, count_vote, count_of, reply, Site, Spb,
  Effect, Step, go_proposal, go_vote, process_proposal, process_vote,
}
use s_mvba.Spb.Phases.{Task, proposal, vote, run_task, effects_of}
use s_mvba.Core.{
  Services, Core, spb_of, set_spb, verified, receive_message, push, spb_done, on_spb, step, Input,
  message, loop_back, run_proposal, run_vote, next, run_loop,
}
use s_mvba.Protocol.Frame.{IsEmitted, Moves, runs, Holds, each, ServiceFrame}
use s_mvba.Protocol.Handlers.{handle_loop_back-Holds, handle-Holds}

module _ {W : Type 0} (R : Core W → Core W → Type 0) {cr : Primitives} {n : Site} {sv : Services W}
    (f : ServiceFrame R cr n sv) where
  pub push-Holds :
      (es : List Effect)
      → All (IsEmitted cr n) es
      → (c : Core W) → R c (record c { trace = push sv cr n es c.trace })
  push-Holds [] p c = f.here c
  push-Holds (e ∷ es) p c =
      let c1 : Core W = record c { trace = e ∷ c.trace } in
      f.then c c1 _ (f.on_emit c e p.0) (push-Holds es p.1 c1)

  abbrev PlainStep : (Spb → Step) → Type 0
  PlainStep g = (s : Spb) → All (IsEmitted cr n) (effects_of (g s).0)

  -- A goroutine's body as a task of the instance.
  abbrev Runs : Task → (Spb → Step) → Type 0
  Runs k g = (s : Spb) → g s ≡ run_task cr n k s

  pub on_spb-Holds :
      (e r x : ℤ) (k : Task) (g : Spb → Step)
      → Runs k g
      → PlainStep g
      → Holds R (on_spb sv cr n e r x g)
  unfolding on_spb
  on_spb-Holds e r x k g same plain = each λ c.
      go c (g (spb_of e r x c)).0 (g (spb_of e r x c)).1
        (runs k (ap (λ z. z.1) (same (spb_of e r x c)))) (plain (spb_of e r x c))
    where
      go :
          (c : Core W) (o : Outcome (List Effect)) (s : Spb)
          → Moves cr n (spb_of e r x c) s
          → All (IsEmitted cr n) (effects_of o)
          → R c (spb_done sv cr n o (set_spb e r x s c)).1
      go c (ok es) s m p =
          f.then c (set_spb e r x s c) _ (f.on_spb c e r x s m)
            (push-Holds es p (set_spb e r x s c))
      go c (err y) s m p = f.on_spb c e r x s m
      go c panic s m p = f.on_spb c e r x s m

  spawned-IsEmitted :
      (ps : List SpbProposal) (vs : List SpbVote)
      → All (IsEmitted cr n) (map go_proposal ps ++ map go_vote vs)
  spawned-IsEmitted [] [] = tt
  spawned-IsEmitted [] (v ∷ vs) = ((tt, tt), spawned-IsEmitted [] vs)
  spawned-IsEmitted (p ∷ ps) vs = ((tt, tt), spawned-IsEmitted ps vs)

  abbrev AllEmitted : List Effect → Type 0
  AllEmitted = All (IsEmitted cr n)

  reply-IsEmitted :
      (s : Spb) (v : SpbVote)
      → IsSigned cr n.sig_service n.name (spb_vote v)
      → IsEmitted cr n (reply n s v)
  reply-IsEmitted s v signed = ground (arith, signed)

  vote_of-IsEmitted :
      (p : SpbProposal) (hash : Digest) (s : Spb)
      → IsEmitted cr n (reply n s (vote_of cr n p hash s))
  vote_of-IsEmitted p hash s =
      reply-IsEmitted s (vote_of cr n p hash s)
        (new_spb_vote-IsSigned cr n.sig_service n.name p.author hash s.epoch s.round p.phase)

  one_phase-AllEmitted :
      (p : SpbProposal) (s : Spb) (d : Option Digest) (b : Option ConsensusBlock)
      → AllEmitted (effects_of (one_phase cr n p s d b).0)
  unfolding accept_block
  one_phase-AllEmitted p s (some _) b = tt
  one_phase-AllEmitted p s none none = tt
  one_phase-AllEmitted p s none (some b) = elim (Bool-cases (eqz s.proposer b.proposer)) [
    | inl same ↦ rw (same) (
      vote_of-IsEmitted p (block_hash cr b) s,
      spawned-IsEmitted s.un_handle_proposal s.un_handle_vote,
    )
    | inr off ↦ rw (off) tt
  ]

  two_phase-AllEmitted :
      (p : SpbProposal) (s : Spb) (d : Option Digest)
      → AllEmitted (effects_of (two_phase cr n p s d).0)
  two_phase-AllEmitted p s none = tt
  two_phase-AllEmitted p s (some _) = (vote_of-IsEmitted p zero_digest s, tt)

  proposal_plain : (p : SpbProposal) → PlainStep (process_proposal cr n p)
  unfolding process_proposal
  proposal_plain p s = elim (Bool-cases (eqz p.phase spb_one_phase)) [
    | inl one ↦ rw (one) (one_phase-AllEmitted p s s.block_hash p.b)
    | inr more ↦ elim (Bool-cases (eqz p.phase spb_two_phase)) [
      | inl two ↦ rw (more, two) (two_phase-AllEmitted p s s.block_hash)
      | inr none_of ↦ rw (more, none_of) tt
    ]
  ]

  quorum-AllEmitted : (phase : ℤ) (hash : Digest) (s : Spb) → AllEmitted (quorum cr n phase hash s)
  unfolding quorum
  quorum-AllEmitted phase hash s =
      let locks =
        new_spb_proposal-IsSigned cr n.sig_service n.name
          (some (record { proposer = s.proposer; pay_loads = []; epoch = negsuc 0 })) s.epoch
          s.round spb_two_phase in
      let ends = new_finish-IsSigned cr n.sig_service n.name hash s.epoch s.round in
      elim (Bool-cases (eqz phase spb_one_phase)) [
        | inl one ↦ rw (one) ((tt, locks), ((tt, locks), tt))
        | inr more ↦ elim (Bool-cases (eqz phase spb_two_phase)) [
          | inl two ↦ rw (more, two) ((tt, ends), ((tt, ends), tt))
          | inr none_of ↦ rw (more, none_of) tt
        ]
      ]

  vote_plain : (v : SpbVote) → PlainStep (process_vote cr n v)
  unfolding process_vote
  vote_plain v s = go s.block_hash
    where
      go : (d : Option Digest) → AllEmitted (effects_of (count_vote cr n v s d).0)
      go none = tt
      go (some hash) =
          let num = count_of (lookup v.phase s.votes) + 1 in
          elim (Bool-cases (num == hight_threshold n.committee)) [
            | inl full ↦ rw (full) (quorum-AllEmitted v.phase hash s)
            | inr short ↦ rw (short) tt
          ]

  -- Whatever input the node meets, its state before and after are related.
  pub step-Holds : (i : Input) → Holds R (step sv cr n i)
  unfolding step receive_message run_task
  step-Holds (message m) = go (verify cr n.committee m)
    where
      go : (o : Outcome Bool) → Holds R (verified sv cr n m o)
      go (ok true) = handle-Holds R f m
      go (ok false) = each f.here
      go (err e) = each f.here
      go panic = each f.here
  step-Holds (loop_back d) = handle_loop_back-Holds R f d
  step-Holds (run_proposal p) = on_spb-Holds _ _ _ (proposal p) _ (λ s. refl) (proposal_plain p)
  step-Holds (run_vote v) = on_spb-Holds _ _ _ (vote v) _ (λ s. refl) (vote_plain v)

  -- So are the states before and after any sequence of inputs.
  pub run_loop-Holds : (is : List Input) → Holds R (run_loop sv cr n is)
  unfolding run_loop
  run_loop-Holds [] = each f.here
  run_loop-Holds (i ∷ is) = go (step-Holds i) (run_loop-Holds is)
    where
      go :
          Holds R (step sv cr n i)
          → Holds R (run_loop sv cr n is)
          → Holds R (run_loop sv cr n (i ∷ is))
      go (each h) (each k) =
          each λ c. last c (step sv cr n i c).0 (step sv cr n i c).1 (h c) (k (step sv cr n i c).1)
        where
          last :
              (c : Core W) (o : Outcome (Unit {0})) (t : Core W)
              → R c t
              → R t (run_loop sv cr n is t).1
              → R c (next sv cr n (o, t) (run_loop sv cr n is)).1
          last c (ok _) t h k = f.then c t _ h k
          last c (err _) t h k = f.then c t _ h k
          last c panic t h k = h
