-- ===== src/Tests/Parts.antt =====
-- The parts of the consensus on concrete votes, shares and blocks.
use s_mvba.Base.{
  ◌+◌, ◌⊎◌, ℤ, pos, List, [], ◌∷◌, ◌≡◌, refl, true, false, none, lookup, int_eq, ltz, eqz, map,
  arith,
}
use s_mvba.Committee.{Committee, size, hight_threshold, low_threshold}
use s_mvba.Message.{
  ConsensusBlock, Finish, Done, Prevote, FinVote, ElectShare, new_finish, new_done, new_prevote,
  new_fin_vote, new_elect_share, vote_flag_yes, vote_flag_no,
}
use s_mvba.Aggreator.{
  new_fin_vote_aggreator, finish_append, new_finish_aggreator, done_append, new_done_aggreator,
  PreVoteAggreator, fin_vote_append, ElectAggreator,
}
use s_mvba.Quorums.Distinct.{after, answers, distinct, reached}
use s_mvba.Quorums.Certificates.{is_quorum, finish_quorum_once, is_low, is_high, done_flags_once}
use s_mvba.Quorums.Ballots.{Decided, fin_vote_decision}
use s_mvba.Elector.{Elector}
use s_mvba.Commitor.{Committor, new_committor, commit}
use s_mvba.Commitor.Order.{Consecutive, Keyed, commit_lem}
use s_mvba.Commitor.Exact.{NothingLost, commit_exact}
use s_mvba.Tests.Toy.{toy, four, authority, sigs, block}

abbrev two : Committee
two = record { authorities = (pos 0, authority 0) ∷ (pos 1, authority 1) ∷ [] }

-- Blocks 1, 0, 0 and 3.
abbrev blocks : List ConsensusBlock
blocks =
    block (pos 2) (pos 1)
    ∷ block (pos 0) (pos 0)
    ∷ block (pos 1) (pos 0)
    ∷ block (pos 3) (pos 3)
    ∷ []

nothing_waits : Keyed new_committor
unfolding new_committor lookup
nothing_waits e b h = cc

-- The block of epoch 1 waits.
abbrev one_waits : Committor
one_waits = (commit (block (pos 2) (pos 1)) new_committor).1

commit_exact_example :
    let (out, c) = commit (block (pos 1) (pos 0)) one_waits in
    Consecutive one_waits.index out c.index
    × Keyed c
    × (((ltz (pos 0) one_waits.index ≡ false)
          × (lookup c.index c.blocks ≡ none)
          × NothingLost (block (pos 1) (pos 0)) one_waits out c)
        ⊎ ((ltz (pos 0) one_waits.index ≡ true) × (out ≡ []) × (c ≡ one_waits)))
commit_exact_example =
    commit_exact (block (pos 1) (pos 0)) one_waits
      (commit_lem (block (pos 2) (pos 1)) new_committor nothing_waits).1

abbrev fin_vote_by : ℤ → ℤ → FinVote
fin_vote_by author flag = new_fin_vote toy sigs author (pos 1) (pos 0) (pos 0) flag (9 ∷ [])

abbrev fin_votes : List FinVote
fin_votes =
    fin_vote_by (pos 0) vote_flag_yes
    ∷ fin_vote_by (pos 1) vote_flag_no
    ∷ fin_vote_by (pos 0) vote_flag_no
    ∷ []

fin_vote_decision_example :
    Decided four
      (fin_vote_append four
        (fin_vote_by (pos 2) vote_flag_yes)
        (after (fin_vote_append four) fin_votes new_fin_vote_aggreator)).0
      (1 + 1)
      (1 + 0)
unfolding new_fin_vote eqz
fin_vote_decision_example =
    fin_vote_decision four fin_votes (fin_vote_by (pos 2) vote_flag_yes) refl

abbrev finish_by : ℤ → Finish
finish_by author = new_finish toy sigs author (9 ∷ []) (pos 0) (pos 0)

abbrev finish_list : List Finish
finish_list = finish_by (pos 1) ∷ finish_by (pos 1) ∷ finish_by (pos 2) ∷ finish_by (pos 3) ∷ []

finish_quorum_once_example :
    answers is_quorum (finish_append four) finish_list new_finish_aggreator
    ≡ reached (hight_threshold four) (distinct [] (map (λ f. f.author) finish_list))
finish_quorum_once_example = finish_quorum_once four finish_list

abbrev done_list : List Done
done_list =
    new_done toy sigs (pos 1) (pos 0) (pos 0)
    ∷ new_done toy sigs (pos 2) (pos 0) (pos 0)
    ∷ new_done toy sigs (pos 3) (pos 0) (pos 0)
    ∷ []

done_flags_once_example :
    let k = distinct [] (map (λ d. d.author) done_list) in
    (answers is_low (done_append four) done_list new_done_aggreator
      ≡ reached (low_threshold four) k)
    × (answers is_high (done_append four) done_list new_done_aggreator
        ≡ reached (hight_threshold four) k)
unfolding size
done_flags_once_example = done_flags_once four done_list (omega arith)

abbrev prevote_by : ℤ → ℤ → Prevote
prevote_by author flag = new_prevote toy sigs author (pos 1) (pos 0) (pos 0) flag (9 ∷ [])

abbrev two_no : PreVoteAggreator
two_no = record {
  authors = (pos 0, tt) ∷ (pos 1, tt) ∷ [];
  yes_nums = 0;
  no_nums = 2;
  flag = false;
}

abbrev share_by : ℤ → ElectShare
share_by author = new_elect_share toy sigs author (pos 0) (pos 0)

abbrev two_shares : ElectAggreator
two_shares = record {
  shares = (share_by (pos 0)).sig_share ∷ (share_by (pos 1)).sig_share ∷ [];
  authors = (pos 0, tt) ∷ (pos 1, tt) ∷ [];
}

abbrev waiting : Elector
waiting = record { leaders = []; elect_aggreators = (pos 0, (pos 0, two_shares) ∷ []) ∷ [] }
