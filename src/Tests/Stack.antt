-- ===== src/Tests/Stack.antt =====
-- A node down to the database, and what another member gets from a node.
use s_mvba.Base.{
  pos, List, [], ◌∷◌, none, some, Bool, true, All, lookup, insert, int_eq, digest_eq, eqz, ltz,
  bytes_eq, bytes_eq_iff, ◌≡◌, refl, length,
}
use s_mvba.Error.{ok, err, external}
use s_mvba.Committee.{name}
use s_mvba.Message.{
  ConsensusBlock, Message, Halt, verify, new_halt, spb_one_phase, finish, spb_proposal,
  new_spb_proposal, new_finish,
}
use s_mvba.Message.Wire.{MessageType}
use s_mvba.Network.Codec.{Gob}
use s_mvba.Network.Delivery.{Apart}
use s_mvba.Store.{new_store}
use s_mvba.Mempool.{payload_hash, new_mempool}
use s_mvba.Core.{
  Core, Input, message, run_proposal, new_core, handle_halt, messgae_filter, run_loop,
}
use s_mvba.Elector.{set_leader}
use s_mvba.Protocol.Commits.{committed}
use s_mvba.Protocol.Exchange.{addressed, delivered, run_delivered}
use s_mvba.Node.{services_of, run_node}
use s_mvba.Node.Stack.{Around, stack_disk, committed-InNuts, halt_lost_nuts}
use s_mvba.Store.Kept.{InNuts}
use s_mvba.Tests.Toy.{toy, four, site, good, block, authority}
use s_mvba.Tests.Payloads.{plain, payload}
use s_mvba.Tests.Nuts.{Table, nuts, nuts_laws}
use s_mvba.Tests.Composed.{day, one_block}
use s_mvba.Core.{
  step, receive_message, handle, handle_spb_proposal, handle_finish, handle_done, handle_output,
  get_consensus_block, store_consensus_block, verify_consensus_block, commit_verified, commit_late,
  advance_next_epoch, generator_block, propose_first, invoke_done_and_share, announce,
  process_leader, elector_leader, has_done, has_ready, vote_on_leader, commit_block, commits_onto,
  on_aggreator, on_elector, on_spb, get_spb_instance, spb_of, set_spb, set_finish, has_finish,
  handle_finvote,
}
use s_mvba.Spb.{process_proposal, new_spb}
use s_mvba.Aggreator.{
  new_aggreator, add_finish_vote, finish_append, new_finish_aggreator, add_done_vote, done_append,
  new_done_aggreator, seen, add_fin_vote, fin_vote_append, new_fin_vote_aggreator,
}
use s_mvba.Elector.{new_elector, leader, leader_of}
use s_mvba.Commitor.{new_committor, commit, drain, advance}
use s_mvba.Base.{delete, get2, put2, touch, inc64}
use s_mvba.Committee.{size, hight_threshold, low_threshold}
use s_mvba.Crypto.{
  verify_signature, request_signature, verify_share, request_ts_sugnature, new_hasher, add, sum256,
}
use s_mvba.Message.{
  new_spb_vote, new_done, new_elect_share, proposal_hash, vote_hash, finish_hash, done_hash,
  elect_hash, halt_hash, block_hash, new_fin_vote, ballot_hash,
}
use s_mvba.Crypto.Binary.{append_int2}
use s_mvba.Error.{◌>>=◌}

abbrev around : Around Table (Unit {0})
around = record {
  encode = λ b. some (payload_hash plain b.proposer b.batch);
  decode = λ v. none;
  get_batch = λ q. (payload 5, q);
  range = λ ks w. ks;
}

committed-InNuts_example :
    let c =
      run_node
        (stack_disk nuts around)
        one_block
        plain
        site
        day
        (new_core (new_mempool (new_store (true, []), tt))) in
    All
      (λ (b : ConsensusBlock). All (InNuts nuts c.world.world.0.db) b.pay_loads)
      (committed c.trace)
committed-InNuts_example =
    committed-InNuts nuts around nuts_laws one_block plain site (true, []) tt day

abbrev absent : Halt
absent = new_halt plain site.sig_service (pos 1) (pos 1) (9 ∷ []) (pos 0) (pos 0)

abbrev fresh : Core (s_mvba.Mempool.Mempool (s_mvba.Store.Store Table × Unit {0}))
fresh = new_core (new_mempool (new_store (true, []), tt))

halt_lost_nuts_example :
    handle_halt (services_of (stack_disk nuts around) one_block plain site) plain site absent fresh
    ≡ (
      err (external 9),
      record fresh { elector = set_leader (pos 0) (pos 0) (pos 1) fresh.elector },
    )
unfolding new_core new_halt lookup messgae_filter ltz new_mempool new_store
halt_lost_nuts_example =
    halt_lost_nuts nuts around nuts_laws one_block plain site absent fresh (external 9) refl refl
      refl (λ h. cc)

-- A gob that reads back what it writes.
abbrev faithful : Gob MessageType Message
faithful = record { encodes = λ m. true; decodes = λ ty m. ok m }

abbrev inputs : List Input
inputs =
    message (
      spb_proposal (
        new_spb_proposal toy site.sig_service (pos 1) (some (block (pos 1) (pos 0))) (pos 0) (pos 0)
          spb_one_phase))
    ∷ run_proposal (
        new_spb_proposal toy site.sig_service (pos 1) (some (block (pos 1) (pos 0))) (pos 0) (pos 0)
          spb_one_phase)
    ∷ message (finish (new_finish toy site.sig_service (pos 1) (9 ∷ []) (pos 0) (pos 0)))
    ∷ message (finish (new_finish toy site.sig_service (pos 2) (9 ∷ []) (pos 0) (pos 0)))
    ∷ message (finish (new_finish toy site.sig_service (pos 3) (9 ∷ []) (pos 0) (pos 0)))
    ∷ []

own_key : length (name four (pos 0)) ≡ 32
unfolding name lookup eqz
own_key = refl

known : lookup (pos 1) four.authorities ≡ some (authority 1)
unfolding lookup eqz
known = refl

apart : Apart (λ a. a.addr) four.authorities
apart = (
  ((λ e. cc), ((λ e. cc), ((λ e. cc), tt))),
  (((λ e. cc), ((λ e. cc), tt)), (((λ e. cc), tt), (tt, tt))),
)

other : eqz (pos 1) (pos 0) ≡ Bool.false
unfolding eqz
other = refl

run_delivered_example :
    let es = (run_loop good toy site inputs (new_core [])).1.trace in
    (delivered good toy site faithful (λ k addr. true) (1 ∷ []) es ≡ addressed (pos 1) es)
    × All
        (λ (m : Message). verify toy four m ≡ ok true)
        (delivered good toy site faithful (λ k addr. true) (1 ∷ []) es)
run_delivered_example =
    run_delivered good toy site faithful (λ k addr. true) (pos 1) (authority 1) [] inputs own_key
      (λ d. (bytes_eq_iff d d).1 refl) apart known (λ e. cc) other (λ k. refl) (λ m. refl)
      (λ m. refl)

-- Its vote, its Done and its share.
three_sent : length (addressed (pos 1) (run_loop good toy site inputs (new_core [])).1.trace) ≡ 3
unfolding run_loop addressed step receive_message handle handle_spb_proposal handle_finish
    handle_done handle_halt handle_output get_consensus_block store_consensus_block
    verify_consensus_block commit_verified commit_late advance_next_epoch generator_block
    propose_first invoke_done_and_share announce process_leader elector_leader has_done has_ready
    vote_on_leader commit_block commits_onto on_aggreator on_elector on_spb get_spb_instance spb_of
    set_spb set_finish has_finish messgae_filter process_proposal new_core new_aggreator new_elector
    new_committor new_spb leader leader_of set_leader lookup insert delete get2 put2 touch
    add_finish_vote finish_append new_finish_aggreator add_done_vote done_append new_done_aggreator
    seen size hight_threshold low_threshold name verify verify_signature request_signature
    verify_share new_spb_proposal new_spb_vote new_finish new_done new_elect_share
    request_ts_sugnature proposal_hash vote_hash finish_hash done_hash elect_hash halt_hash
    block_hash new_hasher add sum256 append_int2 bytes_eq commit drain advance ◌>>=◌ eqz ltz inc64
    new_fin_vote ballot_hash add_fin_vote fin_vote_append new_fin_vote_aggreator handle_finvote
three_sent = refl
