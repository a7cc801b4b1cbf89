-- ===== src/Protocol/Halting.antt =====
-- `handleHalt` of core/smvba/consensus/core.go.
use s_mvba.Base.{false, none, ◌≡◌, ◌≢◌, lookup, int_eq, arith}
use s_mvba.Error.{Error, err, not_found_key, ◌>>=◌}
use s_mvba.Crypto.{Primitives}
use s_mvba.Elector.{set_leader}
use s_mvba.Message.{Halt}
use s_mvba.Spb.{Site}
use s_mvba.Core.{Services, Core, messgae_filter, handle_halt, handle_output, get_consensus_block}

module _ {W : Type 0} (sv : Services W) (cr : Primitives) (n : Site) where
  -- A Halt whose block cannot be read, because the store returns an error other than
  -- `ErrNotFoundKey`, is lost: the error is returned, the epoch is neither flagged as halted nor
  -- left, and nothing is sent; only the leader that the Halt names is recorded.
  pub halt_lost :
      (h : Halt) (c : Core W) (e : Error)
      → messgae_filter h.epoch c ≡ false
      → lookup h.epoch c.halt_flags ≡ none
      → sv.read h.block_hash c.world ≡ err e
      → e ≢ not_found_key
      → handle_halt sv cr n h c
        ≡ (err e, record c { elector = set_leader h.epoch h.round h.leader c.elector })
  unfolding handle_halt handle_output get_consensus_block ◌>>=◌
  halt_lost h c e s l r d = ground arith
