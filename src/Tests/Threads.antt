-- ===== src/Tests/Threads.antt =====
-- Goroutines of one instance of core/smvba/consensus/spb.go that interleave.
use s_mvba.Base.{
  ℕ, ◌+◌, pos, List, [], ◌∷◌, none, some, ◌≡◌, ◌≢◌, refl, true, lookup, insert, int_eq, eqz,
}
use s_mvba.Committee.{hight_threshold, size}
use s_mvba.Message.{
  ConsensusBlock, SpbProposal, SpbVote, new_spb_proposal, new_spb_vote, block_hash, spb_one_phase,
  spb_two_phase,
}
use s_mvba.Spb.{new_spb, reply, vote_of, quorum}
use s_mvba.Spb.Phases.{Task, proposal, vote}
use s_mvba.Spb.Voting.{finishes, second_votes, reached}
use s_mvba.Spb.Threads.{finished, thread_step, system_step, run_schedule, starting}
use s_mvba.Spb.Interleaved.{lock_has_block}
use s_mvba.Spb.Certified.{about_to_finish, sum, finish_once_interleaved}
use s_mvba.Spb.Races.{first_proposal, double_vote, lost_vote}
use s_mvba.Tests.Toy.{toy, site, sigs, four, block}

abbrev first : SpbProposal
first =
    new_spb_proposal toy sigs (pos 1) (some (block (pos 1) (pos 0))) (pos 0) (pos 0) spb_one_phase

abbrev second : SpbProposal
second = new_spb_proposal toy sigs (pos 1) none (pos 0) (pos 0) spb_two_phase

abbrev vote_by : ℕ → SpbVote
vote_by k =
    new_spb_vote toy sigs (pos k) (pos 1) (block_hash toy (block (pos 1) (pos 0))) (pos 0) (pos 0)
      spb_two_phase

-- The first proposal is stored before the second one and three votes come, which then take turns.
abbrev tasks : List Task
tasks =
    proposal first ∷ proposal second ∷ vote (vote_by 0) ∷ vote (vote_by 2) ∷ vote (vote_by 3) ∷ []

abbrev turns : List ℕ
turns = 0 ∷ 0 ∷ 1 ∷ 2 ∷ 3 ∷ 4 ∷ 4 ∷ 3 ∷ 1 ∷ 2 ∷ 2 ∷ 3 ∷ 4 ∷ 0 ∷ []

locked : (run_schedule toy site turns (starting (pos 0) (pos 0) (pos 1) tasks)).spb.lock_flag ≡ true
unfolding run_schedule system_step thread_step new_spb eqz new_spb_proposal new_spb_vote lookup
    insert hight_threshold
locked = refl

lock_has_block_example :
    (run_schedule toy site turns (starting (pos 0) (pos 0) (pos 1) tasks)).spb.block_hash ≢ none
lock_has_block_example = lock_has_block toy site (pos 0) (pos 0) (pos 1) tasks turns locked

one_finish :
    finishes (run_schedule toy site turns (starting (pos 0) (pos 0) (pos 1) tasks)).done ≡ 1
unfolding run_schedule system_step thread_step new_spb eqz new_spb_proposal new_spb_vote quorum
    lookup insert hight_threshold size
one_finish = refl

finish_once_interleaved_example :
    let r = run_schedule toy site turns (starting (pos 0) (pos 0) (pos 1) tasks) in
    finishes r.done + sum (about_to_finish (hight_threshold four)) r.threads
    ≡ reached (hight_threshold four) (second_votes r.spb)
finish_once_interleaved_example =
    finish_once_interleaved toy site (pos 0) (pos 0) (pos 1) tasks turns

abbrev other : ConsensusBlock
other = record { proposer = pos 1; pay_loads = (3 ∷ []) ∷ []; epoch = pos 0 }

double_vote_example :
    let p = first_proposal (pos 1) (block (pos 1) (pos 0)) (pos 0) (pos 0) (record { sig = [] }) in
    let q = first_proposal (pos 1) other (pos 0) (pos 0) (record { sig = [] }) in
    let s = new_spb (pos 0) (pos 0) (pos 1) in
    (run_schedule toy site
      (0 ∷ 1 ∷ 0 ∷ 1 ∷ 0 ∷ 1 ∷ [])
      (starting (pos 0) (pos 0) (pos 1) (proposal p ∷ proposal q ∷ []))).done
    ≡ reply site s (vote_of toy site p (block_hash toy (block (pos 1) (pos 0))) s)
      ∷ reply site s (vote_of toy site q (block_hash toy other) s)
      ∷ []
double_vote_example =
    double_vote toy site (pos 0) (pos 0) (block (pos 1) (pos 0)) other (record { sig = [] })
      (record { sig = [] }) refl

lost_vote_example :
    let p = first_proposal (pos 1) (block (pos 1) (pos 0)) (pos 0) (pos 0) (record { sig = [] }) in
    let s =
      run_schedule toy site
        (1 ∷ 0 ∷ 0 ∷ 0 ∷ 0 ∷ 1 ∷ [])
        (starting (pos 0) (pos 0) (pos 1) (proposal p ∷ vote (vote_by 2) ∷ [])) in
    (s.threads ≡ finished ∷ finished ∷ [])
    × (s.spb.votes ≡ [])
    × (s.spb.un_handle_vote ≡ vote_by 2 ∷ [])
lost_vote_example =
    lost_vote toy site (pos 0) (pos 0) (block (pos 1) (pos 0)) (record { sig = [] }) (vote_by 2)
