-- ===== src/Aggreator/Ballots.antt =====
-- `PreVoteAggreator` and `FinVoteAggreator` of core/smvba/consensus/aggreator.go.
use s_mvba.Base.{
  ℕ, ◌+◌, Bool, true, false, not, ◌&&◌, [], insert, int_eq, eqz, ltb, ◌==◌, if◌then◌else◌,
}
use s_mvba.Error.{ok, err, one_more_message, M}
use s_mvba.Committee.{Committee, hight_threshold}
use s_mvba.Message.{Prevote, FinVote, vote_flag_yes, vote_flag_no}
use s_mvba.Aggreator.Counting.{Authors, seen}

-- The constants ACTION_YES to ACTION_NONE.
pub data Action : Type 0 where
  action_yes action_no action_commit action_none : Action

pub record PreVoteAggreator : Type 0 where
  pub authors : Authors
  pub yes_nums : ℕ
  pub no_nums : ℕ
  pub flag : Bool

unfoldable pub new_prevote_aggreator : PreVoteAggreator
new_prevote_aggreator = record { authors = []; yes_nums = 0; no_nums = 0; flag = false }

count_prevote : Prevote → PreVoteAggreator → PreVoteAggreator
count_prevote v a =
    let authors = insert v.author tt a.authors in
    if eqz v.flag vote_flag_no
    then record a { authors = authors; no_nums = a.no_nums + 1 }
    else record a { authors = authors; yes_nums = a.yes_nums + 1 }

decide_prevote : Committee → M PreVoteAggreator Action
decide_prevote c a =
    if ltb 0 a.yes_nums && not a.flag
    then (ok action_yes, record a { flag = true })
    else if a.no_nums == hight_threshold c && not a.flag
    then (ok action_no, a)
    else (ok action_none, a)

unfoldable pub prevote_append : Committee → Prevote → M PreVoteAggreator Action
unfolding count_prevote decide_prevote
prevote_append c v a =
    if seen v.author a.authors
    then (err (one_more_message 5 v.epoch v.round v.author), a)
    else decide_prevote c (count_prevote v a)

pub record FinVoteAggreator : Type 0 where
  pub authors : Authors
  pub yes_nums : ℕ
  pub no_nums : ℕ

unfoldable pub new_fin_vote_aggreator : FinVoteAggreator
new_fin_vote_aggreator = record { authors = []; yes_nums = 0; no_nums = 0 }

count_fin_vote : FinVote → FinVoteAggreator → FinVoteAggreator
count_fin_vote v a =
    let authors = insert v.author tt a.authors in
    if eqz v.flag vote_flag_yes
    then record a { authors = authors; yes_nums = a.yes_nums + 1 }
    else record a { authors = authors; no_nums = a.no_nums + 1 }

decide_fin_vote : ℕ → ℕ → ℕ → Action
decide_fin_vote th yes_nums no_nums =
    if yes_nums + no_nums == th
    then (if yes_nums == th then action_commit else if no_nums == th then action_no else action_yes)
    else action_none

unfoldable pub fin_vote_append : Committee → FinVote → M FinVoteAggreator Action
unfolding count_fin_vote decide_fin_vote
fin_vote_append c v a =
    let a' = count_fin_vote v a in
    if seen v.author a.authors
    then (err (one_more_message 6 v.epoch v.round v.author), a)
    else (ok (decide_fin_vote (hight_threshold c) a'.yes_nums a'.no_nums), a')
