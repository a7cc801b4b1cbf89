-- ===== src/Spb/Voting.antt =====
-- How an instance of core/smvba/consensus/spb.go counts votes and certifies.
use s_mvba.Base.{
  keys, ℕ, zero, suc, ◌+◌, ℤ, List, [], ◌∷◌, ◌++◌, map, some, Bool, true, false, ◌≡◌, refl, arith,
  lookup, lookup-insert, int_eq, leb, replicate, if◌then◌else◌,
}
use s_mvba.Committee.{hight_threshold}
use s_mvba.Committee.Quorum.{hight-pos}
use s_mvba.Crypto.{Digest, Primitives}
use s_mvba.Message.{SpbProposal, SpbVote, finish, spb_two_phase}
use s_mvba.Spb.{
  Site, Spb, Effect, send, go_proposal, go_vote, count_of, process_proposal, process_vote, new_spb,
}
use s_mvba.Spb.Phases.{
  Task, proposal, vote, run_task, run_tasks, effects_of, count_if, count_if-append,
}

abbrev pub is_finish : Effect → Bool
is_finish (send to (finish f)) = true
is_finish _ = false

-- The Finish messages that are sent to the others.
abbrev pub finishes : List Effect → ℕ
finishes = count_if is_finish

pub finishes-spawned :
    (ps : List SpbProposal) (vs : List SpbVote)
    → finishes (map go_proposal ps ++ map go_vote vs) ≡ 0
finishes-spawned [] [] = refl
finishes-spawned [] (v ∷ vs) = finishes-spawned [] vs
finishes-spawned (p ∷ ps) vs = finishes-spawned ps vs

-- The votes of the second phase that an instance has counted.
abbrev pub second_votes : Spb → ℕ
second_votes s = count_of (lookup spb_two_phase s.votes)

abbrev pub reached : ℕ → ℕ → ℕ
reached th k = if leb th k then 1 else 0

module _ (cr : Primitives) (n : Site) where
  finishes-run_task :
      (t : Task) (s : Spb)
      → finishes (effects_of (run_task cr n t s).0)
          + reached (hight_threshold n.committee) (second_votes s)
        ≡ reached (hight_threshold n.committee) (second_votes (run_task cr n t s).1)
  unfolding run_task process_proposal process_vote
  finishes-run_task (proposal p) s =
      ground (arith, finishes-spawned s.un_handle_proposal s.un_handle_vote)
  finishes-run_task (vote v) s =
      grind
        (keys, lookup-insert v.phase spb_two_phase (count_of (lookup v.phase s.votes) + 1) s.votes)

  finishes-run_tasks :
      (ts : List Task) (s : Spb)
      → finishes (run_tasks cr n ts s).0 + reached (hight_threshold n.committee) (second_votes s)
        ≡ reached (hight_threshold n.committee) (second_votes (run_tasks cr n ts s).1)
  unfolding run_tasks
  finishes-run_tasks [] s = omega arith
  finishes-run_tasks (t ∷ ts) s = omega (
    arith,
    finishes-run_task t s,
    finishes-run_tasks ts (run_task cr n t s).1,
    count_if-append is_finish (effects_of (run_task cr n t s).0)
        (run_tasks cr n ts (run_task cr n t s).1).0,
  )

  -- Whatever proposals and votes reach a new instance, it sends one Finish if the votes of the
  -- second phase that it has counted reach the high threshold, and none if not.
  pub finish_once :
      (epoch round proposer : ℤ) (ts : List Task)
      → let (es, s) = run_tasks cr n ts (new_spb epoch round proposer) in
        finishes es ≡ reached (hight_threshold n.committee) (second_votes s)
  unfolding new_spb lookup
  finish_once epoch round proposer ts =
      ground (arith, finishes-run_tasks ts (new_spb epoch round proposer), hight-pos n.committee)

  second_votes-vote :
      (v : SpbVote) (d : Digest) (s : Spb)
      → v.phase ≡ spb_two_phase
      → s.block_hash ≡ some d
      → (second_votes (run_task cr n (vote v) s).1 ≡ second_votes s + 1)
        × ((run_task cr n (vote v) s).1.block_hash ≡ some d)
  unfolding run_task process_vote
  second_votes-vote v d s p h =
      grind
        (keys, lookup-insert v.phase spb_two_phase (count_of (lookup v.phase s.votes) + 1) s.votes)

  second_votes-replicate :
      (k : ℕ) (v : SpbVote) (d : Digest) (s : Spb)
      → v.phase ≡ spb_two_phase
      → s.block_hash ≡ some d
      → second_votes (run_tasks cr n (replicate k (vote v)) s).1 ≡ second_votes s + k
  unfolding run_tasks
  second_votes-replicate zero v d s p h = omega arith
  second_votes-replicate (suc k) v d s p h =
      let one = second_votes-vote v d s p h in
      omega (arith, one.0, second_votes-replicate k v d (run_task cr n (vote v) s).1 p one.1)

  -- Votes are counted by message and not by author: one vote of the second phase, handed over as
  -- often as the high threshold says, makes an instance that holds a block and has counted no such
  -- vote send its Finish.
  pub lone_voter :
      (v : SpbVote) (d : Digest) (s : Spb)
      → v.phase ≡ spb_two_phase
      → s.block_hash ≡ some d
      → second_votes s ≡ 0
      → finishes (run_tasks cr n (replicate (hight_threshold n.committee) (vote v)) s).0 ≡ 1
  lone_voter v d s p h z = ground (
    arith,
    hight-pos n.committee,
    finishes-run_tasks (replicate (hight_threshold n.committee) (vote v)) s,
    second_votes-replicate (hight_threshold n.committee) v d s p h,
  )
