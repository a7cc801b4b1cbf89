-- ===== src/Aggreator/Counting.antt =====
-- `FinishAggreator` and `DoneAggreator` of core/smvba/consensus/aggreator.go.
use s_mvba.Base.{
  ℤ, Bool, true, false, Option, none, some, [], Map, lookup, insert, int_eq, length, ◌==◌,
  if◌then◌else◌,
}
use s_mvba.Error.{ok, err, one_more_message, M}
use s_mvba.Committee.{Committee, hight_threshold, low_threshold}
use s_mvba.Message.{Finish, Done}

-- `map[core.NodeID]struct{}`.
abbrev pub Authors : Type 0
Authors = Map ℤ (Unit {0})

abbrev pub is_some : Option (Unit {0}) → Bool
is_some none = false
is_some (some _) = true

unfoldable pub seen : ℤ → Authors → Bool
seen author m = is_some (lookup author m)

pub record FinishAggreator : Type 0 where
  pub authors : Authors

unfoldable pub new_finish_aggreator : FinishAggreator
new_finish_aggreator = record { authors = [] }

unfoldable pub finish_append : Committee → Finish → M FinishAggreator Bool
finish_append c f a =
    let authors = insert f.author tt a.authors in
    if seen f.author a.authors
    then (err (one_more_message 2 f.epoch f.round f.author), a)
    else (ok (length authors == hight_threshold c), record { authors = authors })

-- The constants DONE_LOW_FLAG, DONE_HIGH_FLAG and DONE_NONE_FLAG.
pub data DoneFlag : Type 0 where
  low_flag high_flag none_flag : DoneFlag

pub record DoneAggreator : Type 0 where
  pub authors : Authors

unfoldable pub new_done_aggreator : DoneAggreator
new_done_aggreator = record { authors = [] }

unfoldable pub done_append : Committee → Done → M DoneAggreator DoneFlag
done_append c d a =
    let authors = insert d.author tt a.authors in
    if seen d.author a.authors
    then (err (one_more_message 3 d.epoch d.round d.author), a)
    else if length authors == low_threshold c
    then (ok low_flag, record { authors = authors })
    else if length authors == hight_threshold c
    then (ok high_flag, record { authors = authors })
    else (ok none_flag, record { authors = authors })
