-- ===== src/Aggreator.antt =====
-- core/smvba/consensus/aggreator.go: votes are counted for each epoch and round. The aggregators
-- of one epoch and round are in the children; here they are found, or made, and appended to.
mod Counting
mod Ballots
mod Coin
unfoldable pub use Counting.*
unfoldable pub use Ballots.*
unfoldable pub use Coin.*
use s_mvba.Base.{ℤ, Bool, Option, none, some, Map2, get2, put2, [], ◌∷◌}
use s_mvba.Error.{Outcome, M}
use s_mvba.Committee.{Committee}
use s_mvba.Message.{Finish, Done, Prevote, FinVote}

pub record Aggreator : Type 0 where
  pub finish_aggreator : Map2 FinishAggreator
  pub done_aggreator : Map2 DoneAggreator
  pub prevote_aggreator : Map2 PreVoteAggreator
  pub finvote_aggreator : Map2 FinVoteAggreator

unfoldable pub new_aggreator : Aggreator
new_aggreator = record {
  finish_aggreator = [];
  done_aggreator = [];
  prevote_aggreator = [];
  finvote_aggreator = [];
}

abbrev pub or_new : {A : Type 0} → Option A → A → A
or_new none a = a
or_new (some a) b = a

-- The committee is the one that the node's aggregator was made with.
unfoldable pub add_finish_vote : Committee → Finish → M Aggreator Bool
add_finish_vote c f a =
    let item = or_new (get2 f.epoch f.round a.finish_aggreator) new_finish_aggreator in
    let (result, item') = finish_append c f item in
    (result, record a { finish_aggreator = put2 f.epoch f.round item' a.finish_aggreator })

unfoldable pub add_done_vote : Committee → Done → M Aggreator DoneFlag
add_done_vote c d a =
    let item = or_new (get2 d.epoch d.round a.done_aggreator) new_done_aggreator in
    let (result, item') = done_append c d item in
    (result, record a { done_aggreator = put2 d.epoch d.round item' a.done_aggreator })

unfoldable pub add_pre_vote : Committee → Prevote → M Aggreator Action
add_pre_vote c v a =
    let item = or_new (get2 v.epoch v.round a.prevote_aggreator) new_prevote_aggreator in
    let (result, item') = prevote_append c v item in
    (result, record a { prevote_aggreator = put2 v.epoch v.round item' a.prevote_aggreator })

unfoldable pub add_fin_vote : Committee → FinVote → M Aggreator Action
add_fin_vote c v a =
    let item = or_new (get2 v.epoch v.round a.finvote_aggreator) new_fin_vote_aggreator in
    let (result, item') = fin_vote_append c v item in
    (result, record a { finvote_aggreator = put2 v.epoch v.round item' a.finvote_aggreator })
