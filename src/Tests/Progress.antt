-- ===== src/Tests/Progress.antt =====
-- A node whose store is empty gets a block and the Halt that decides it.
use s_mvba.Base.{
  pos, [], ◌∷◌, some, ◌++◌, ◌≡◌, refl, true, lookup, insert, int_eq, digest_eq, bytes_eq, ltz,
  inc64, eqz,
}
use s_mvba.Error.{ok}
use s_mvba.Committee.{name}
use s_mvba.Crypto.{new_hasher, add, sum256, verify_signature, request_signature}
use s_mvba.Crypto.Binary.{append_int2}
use s_mvba.Message.{
  SpbProposal, Halt, spb_proposal, halt, new_spb_proposal, new_halt, proposal_hash, halt_hash,
  block_hash, verify, spb_one_phase,
}
use s_mvba.Commitor
use s_mvba.Core.{new_core, Core, message, run_loop, messgae_filter}
use s_mvba.Protocol.Commits.{committed}
use s_mvba.Protocol.Progress.{proposal_then_halt}
use s_mvba.Tests.Toy.{toy, four, sigs, site, Disk, good, block}

abbrev brought : SpbProposal
brought =
    new_spb_proposal toy sigs (pos 1) (some (block (pos 1) (pos 0))) (pos 0) (pos 0) spb_one_phase

abbrev decided : Halt
decided = new_halt toy sigs (pos 2) (pos 1) (block_hash toy (block (pos 1) (pos 0))) (pos 0) (pos 0)

abbrev fresh : Core Disk
fresh = new_core []

both_pass :
    (verify toy four (spb_proposal brought) ≡ ok true) × (verify toy four (halt decided) ≡ ok true)
unfolding verify new_spb_proposal new_halt proposal_hash halt_hash block_hash lookup new_hasher add
    sum256 append_int2 bytes_eq verify_signature request_signature name eqz
both_pass = (refl, refl)

proposal_then_halt_example :
    let (o, c) =
      run_loop good toy site (message (spb_proposal brought) ∷ message (halt decided) ∷ []) fresh in
    (o ≡ ok tt)
    × (committed c.trace
        ≡ committed fresh.trace ++ (Commitor.commit (block (pos 1) (pos 0)) fresh.commitor).0)
    × (c.commitor ≡ (Commitor.commit (block (pos 1) (pos 0)) fresh.commitor).1)
    × (c.epoch ≡ pos 1)
unfolding new_spb_proposal new_halt new_core messgae_filter ltz inc64 lookup insert bytes_eq
    block_hash new_hasher add sum256 append_int2
proposal_then_halt_example =
    proposal_then_halt good toy site brought decided (block (pos 1) (pos 0)) (1 ∷ 0 ∷ []) fresh refl
      refl refl refl both_pass.0 both_pass.1 refl refl refl refl refl refl refl (λ d w. refl) refl
      (λ w h. refl)
