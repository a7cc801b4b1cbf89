-- ===== src/Elector.antt =====
-- core/smvba/consensus/elector.go: the leader of each epoch and round.
pub mod Election
use s_mvba.Base.{ℤ, Option, none, some, Map2, get2, put2, touch, [], eqz, not, if◌then◌else◌}
use s_mvba.Error.{Outcome, ok, err, panic, M}
use s_mvba.Committee.{Committee, none_id}
use s_mvba.Crypto.{Primitives, SigService}
use s_mvba.Message.{ElectShare}
use s_mvba.Aggreator.{ElectAggreator, new_elect_aggreator, elect_append, or_new}

pub record Elector : Type 0 where
  pub leaders : Map2 ℤ
  pub elect_aggreators : Map2 ElectAggreator

unfoldable pub new_elector : Elector
new_elector = record { leaders = []; elect_aggreators = [] }

unfoldable pub set_leader : ℤ → ℤ → ℤ → Elector → Elector
set_leader epoch round leader e = record e { leaders = put2 epoch round leader e.leaders }

abbrev pub or_none : Option ℤ → ℤ
or_none none = none_id
or_none (some node) = node

-- What `Leader` returns.
unfoldable pub leader_of : ℤ → ℤ → Elector → ℤ
leader_of epoch round e = or_none (get2 epoch round e.leaders)

-- The row of the epoch is made when it is missing.
unfoldable pub leader : ℤ → ℤ → Elector → ℤ × Elector
unfolding leader_of
leader epoch round e = (leader_of epoch round e, record e { leaders = touch epoch e.leaders })

-- An error of `Append` is dropped: the caller sees no leader and no error.
abbrev pub elected : ElectShare → Outcome ℤ → M Elector ℤ
elected s (ok node) e =
    (ok node, if not (eqz node none_id) then set_leader s.epoch s.round node e else e)
elected s (err x) e = (ok none_id, e)
elected s panic e = (panic, e)

unfoldable pub add_share_vote : Primitives → Committee → SigService → ElectShare → M Elector ℤ
add_share_vote cr c sigs s e =
    let item = or_new (get2 s.epoch s.round e.elect_aggreators) new_elect_aggreator in
    let (result, item') = elect_append cr c sigs s item in
    elected s result (record e { elect_aggreators = put2 s.epoch s.round item' e.elect_aggreators })
