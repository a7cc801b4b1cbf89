-- ===== src/Aggreator/Coin.antt =====
-- `ElectAggreator` of core/smvba/consensus/aggreator.go: the shares of a coin, and the leader that
-- the coin stands for.
use s_mvba.Base.{
  ℕ, zero, suc, ◌+◌, ◌-◌, ◌*◌, ◌%◌, ℤ, pos, Option, none, some, List, [], ◌∷◌, ◌++◌, insert, int_eq,
  length, ltb, ◌==◌, if◌then◌else◌,
}
use s_mvba.Error.{Outcome, ok, err, panic, one_more_message, external, M}
use s_mvba.Committee.{Committee, hight_threshold, size, none_id}
use s_mvba.Crypto.{Bytes, Primitives, SignatureShare, SigService, combine_intact_ts_partial}
use s_mvba.Message.{ElectShare, elect_hash}
use s_mvba.Aggreator.Counting.{Authors, seen}

abbrev pub random_len : ℕ
random_len = 3

pub record ElectAggreator : Type 0 where
  pub shares : List SignatureShare
  pub authors : Authors

unfoldable pub new_elect_aggreator : ElectAggreator
new_elect_aggreator = record { shares = []; authors = [] }

-- The loop over the first bytes of the coin, of which `n` are left: `coin[i]` panics when the coin
-- is too short. A negated byte wraps around.
unfoldable pub coin_rand : ℕ → ℕ → Bytes → Option ℕ
coin_rand zero rand coin = some rand
coin_rand (suc n) rand [] = none
coin_rand (suc n) rand (byte ∷ coin) =
    coin_rand n (rand * 256 + (if ltb 0 byte then byte else (256 - byte) % 256)) coin

-- `%` by an empty committee panics.
unfoldable pub coin_leader : Committee → Bytes → Outcome ℤ
coin_leader c coin = elim (coin_rand random_len 0 coin) [
  | none ↦ panic
  | some rand ↦ if size c == 0 then panic else ok (pos (rand % size c))
]

combine : Primitives → Committee → SigService → ElectShare → List SignatureShare → Outcome ℤ
combine cr c sigs e shares =
    elim (combine_intact_ts_partial cr shares sigs.share_key (elect_hash cr e.epoch e.round)) [
      | none ↦ err (external 0)
      | some coin ↦ coin_leader c coin
    ]

unfoldable pub elect_append : Primitives → Committee → SigService → ElectShare → M ElectAggreator ℤ
unfolding combine
elect_append cr c sigs e a =
    let shares = a.shares ++ e.sig_share ∷ [] in
    let a' : ElectAggreator = record { shares = shares; authors = insert e.author tt a.authors } in
    if seen e.author a.authors
    then (err (one_more_message 4 e.epoch e.round e.author), a)
    else if length shares == hight_threshold c
    then (combine cr c sigs e shares, a')
    else (ok none_id, a')
