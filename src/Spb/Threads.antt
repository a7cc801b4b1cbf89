-- ===== src/Spb/Threads.antt =====
-- core/smvba/consensus/spb.go, one access to the shared fields at a time: `BlockHash` and `LockFlag`
-- are atomic values, the queues are under `uvm` and the votes under `vm`. Goroutines interleave by a
-- schedule, the list of the threads that move.
use s_mvba.Base.{
  ℕ, ◌+◌, ℤ, true, Option, none, some, List, [], ◌∷◌, ◌++◌, map, get_elem?, set, insert, lookup,
  int_eq, eqz, not, ◌==◌, if◌then◌else◌,
}
use s_mvba.Committee.{hight_threshold}
use s_mvba.Crypto.{Digest, zero_digest, Primitives}
use s_mvba.Message.{ConsensusBlock, SpbProposal, SpbVote, spb_one_phase, spb_two_phase, block_hash}
use s_mvba.Spb.{
  Site, Spb, Effect, send, receive, go_proposal, go_vote, commits, new_spb, reply, vote_of, quorum,
  count_of,
}
use s_mvba.Spb.Phases.{Task, proposal, vote}

-- Where a goroutine stands, with its local variables.
pub data Thread : Type 0 where
  start : Task → Thread
  -- `processProposal`, first phase: before the store, the vote and the drain of the queues.
  storing : SpbProposal → Digest → Thread
  voting_one : SpbProposal → Digest → Thread
  draining : Thread
  -- Second phase: before the append, or before the lock and the vote.
  queueing_proposal : SpbProposal → Thread
  locking : SpbProposal → Thread
  voting_two : SpbProposal → Thread
  -- `processVote`: before the append, before the count, and after it with the new number.
  queueing_vote : SpbVote → Thread
  counting : SpbVote → Thread
  counted : SpbVote → ℕ → Thread
  finished : Thread
  panicked : Thread

-- A goroutine's move: where it stands then, what it does outside, and the shared fields.
abbrev pub Move : Type 0
Move = Thread × List Effect × Spb

module _ (cr : Primitives) (n : Site) where
  -- The first load of `BlockHash` in the first phase; a nil block is dereferenced.
  abbrev pub check_block : SpbProposal → Spb → Option Digest → Option ConsensusBlock → Thread
  check_block p s (some _) b = finished
  check_block p s none none = panicked
  check_block p s none (some b) =
      if not (eqz s.proposer b.proposer) then finished else storing p (block_hash cr b)

  abbrev pub check_two : SpbProposal → Option Digest → Thread
  check_two p none = queueing_proposal p
  check_two p (some _) = locking p

  abbrev pub check_vote : SpbVote → Option Digest → Thread
  check_vote v none = queueing_vote v
  check_vote v (some _) = counting v

  abbrev pub begin : Task → Spb → Thread
  begin (proposal p) s =
      if eqz p.phase spb_one_phase
      then check_block p s s.block_hash p.b
      else if eqz p.phase spb_two_phase
      then check_two p s.block_hash
      else finished
  begin (vote v) s = check_vote v s.block_hash

  -- The second load, in the second phase: nil is no digest, and the assertion panics.
  abbrev pub certify : SpbVote → Spb → Option Digest → Move
  certify v s (some hash) = (finished, quorum cr n v.phase hash s, s)
  certify v s none =
      if eqz v.phase spb_two_phase
      then (panicked, [], s)
      else (finished, quorum cr n v.phase zero_digest s, s)

  unfoldable pub thread_step : Thread → Spb → Move
  unfolding quorum
  thread_step (start t) s = (begin t s, [], s)
  thread_step (storing p hash) s = (voting_one p hash, [], record s { block_hash = some hash })
  thread_step (voting_one p hash) s = (draining, reply n s (vote_of cr n p hash s) ∷ [], s)
  thread_step draining s = (
    finished,
    map go_proposal s.un_handle_proposal ++ map go_vote s.un_handle_vote,
    record s { un_handle_proposal = []; un_handle_vote = [] },
  )
  thread_step (queueing_proposal p) s =
      (finished, [], record s { un_handle_proposal = s.un_handle_proposal ++ p ∷ [] })
  thread_step (locking p) s = (voting_two p, [], record s { lock_flag = true })
  thread_step (voting_two p) s = (finished, reply n s (vote_of cr n p zero_digest s) ∷ [], s)
  thread_step (queueing_vote v) s =
      (finished, [], record s { un_handle_vote = s.un_handle_vote ++ v ∷ [] })
  thread_step (counting v) s =
      let num = count_of (lookup v.phase s.votes) + 1 in
      (counted v num, [], record s { votes = insert v.phase num s.votes })
  thread_step (counted v num) s =
      if num == hight_threshold n.committee then certify v s s.block_hash else (finished, [], s)
  thread_step finished s = (finished, [], s)
  thread_step panicked s = (panicked, [], s)

-- The goroutines that effects start.
abbrev pub spawned : List Effect → List Thread
spawned [] = []
spawned (go_proposal p ∷ es) = start (proposal p) ∷ spawned es
spawned (go_vote v ∷ es) = start (vote v) ∷ spawned es
spawned (send to m ∷ es) = spawned es
spawned (receive m ∷ es) = spawned es
spawned (commits b ∷ es) = spawned es

pub record System : Type 0 where
  pub spb : Spb
  pub threads : List Thread
  -- What was done outside, the newest last.
  pub done : List Effect

module _ (cr : Primitives) (n : Site) where
  abbrev moved : ℕ → System → Move → System
  moved i s (t, es, spb) = record {
    spb = spb;
    threads = set s.threads i t ++ spawned es;
    done = s.done ++ es;
  }

  abbrev pub pick : ℕ → System → Option Thread → System
  pick i s none = s
  pick i s (some t) = moved i s (thread_step cr n t s.spb)

  unfoldable pub system_step : ℕ → System → System
  system_step i s = pick i s (get_elem? s.threads i)

  unfoldable pub run_schedule : List ℕ → System → System
  run_schedule [] s = s
  run_schedule (i ∷ is) s = run_schedule is (system_step i s)

abbrev pub starting : ℤ → ℤ → ℤ → List Task → System
starting epoch round proposer tasks = record {
  spb = new_spb epoch round proposer;
  threads = map start tasks;
  done = [];
}
