-- ===== src/Core/Loop.antt =====
-- `Run` of core/smvba/consensus/core.go, and the goroutines that its handlers start. What the node
-- meets is a list of inputs, in the order in which it meets them.
use s_mvba.Base.{ℤ, pos, Bool, true, false, List, [], ◌∷◌, ltz, if◌then◌else◌}
use s_mvba.Error.{Outcome, ok, err, panic, signature, M, pure, fail, crash, modify, ◌>>◌}
use s_mvba.Crypto.{Digest, Primitives}
use s_mvba.Message.{
  SpbProposal, SpbVote, Message, spb_proposal, spb_vote, finish, done, elect_share, prevote,
  fin_vote, halt, verify, msg_type,
}
use s_mvba.Spb.{Site, Spb, Step, Effect, process_proposal, process_vote}
use s_mvba.Core.State.{Services, Core, spb_of, set_spb}
use s_mvba.Core.Rounds.{propose_first}
use s_mvba.Core.Handlers.{
  handle_spb_proposal, handle_spb_vote, handle_finish, handle_done, handle_elect_share,
  handle_prevote, handle_finvote, handle_halt, handle_loop_back,
}

pub data Input : Type 0 where
  -- A message on `RecvChannel`, from the network or from the node itself.
  message : Message → Input
  -- A digest on `loopBackChannel`.
  loop_back : Digest → Input
  -- A goroutine gets to run.
  run_proposal : SpbProposal → Input
  run_vote : SpbVote → Input

module _ {W : Type 0} (sv : Services W) (cr : Primitives) (n : Site) where
  unfoldable pub handle : Message → M (Core W) (Unit {0})
  handle (spb_proposal p) = handle_spb_proposal sv cr n p
  handle (spb_vote v) = handle_spb_vote sv cr n v
  handle (finish f) = handle_finish sv cr n f
  handle (done d) = handle_done sv cr n d
  handle (elect_share s) = handle_elect_share sv cr n s
  handle (prevote p) = handle_prevote sv cr n p
  handle (fin_vote v) = handle_finvote sv cr n v
  handle (halt h) = handle_halt sv cr n h

  abbrev pub verified : Message → Outcome Bool → M (Core W) (Unit {0})
  verified m (ok true) = handle m
  verified m (ok false) = fail (signature (msg_type m))
  verified m (err e) = fail e
  verified m panic = crash

  -- The first case of the `select`.
  unfoldable pub receive_message : Message → M (Core W) (Unit {0})
  receive_message m = verified m (verify cr n.committee m)

  abbrev pub push : List Effect → List Effect → List Effect
  push [] trace = trace
  push (e ∷ es) trace = push es (e ∷ trace)

  abbrev pub spb_done : Outcome (List Effect) → M (Core W) (Unit {0})
  spb_done (ok es) = modify (λ c. record c { trace = push es c.trace })
  spb_done (err e) = fail e
  spb_done panic = crash

  -- A goroutine runs on the instance of its message.
  unfoldable pub on_spb : ℤ → ℤ → ℤ → (Spb → Step) → M (Core W) (Unit {0})
  on_spb epoch round node f c =
      let (o, s) = f (spb_of epoch round node c) in spb_done o (set_spb epoch round node s c)

  unfoldable pub step : Input → M (Core W) (Unit {0})
  step (message m) = receive_message m
  step (loop_back d) = handle_loop_back sv cr n d
  step (run_proposal p) = on_spb p.epoch p.round p.author (process_proposal cr n p)
  step (run_vote v) = on_spb v.epoch v.round v.proposer (process_vote cr n v)

  -- An error is logged and the loop goes on; a panic ends the process.
  abbrev pub next :
      Outcome (Unit {0}) × Core W
      → (Core W → Outcome (Unit {0}) × Core W)
      → Outcome (Unit {0}) × Core W
  next (ok _, c) k = k c
  next (err _, c) k = k c
  next (panic, c) k = (panic, c)

  unfoldable pub run_loop : List Input → M (Core W) (Unit {0})
  run_loop [] c = (ok tt, c)
  run_loop (i ∷ is) c = let rest = run_loop is in next (step i c) rest

  -- A node that counts as faulty does not start.
  unfoldable pub run : List Input → M (Core W) (Unit {0})
  run is =
      if ltz n.name n.parameters.faults
      then pure tt
      else (do propose_first sv cr n (pos 0); run_loop is)
