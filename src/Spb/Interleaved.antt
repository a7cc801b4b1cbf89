-- ===== src/Spb/Interleaved.antt =====
-- What holds of an instance of core/smvba/consensus/spb.go under every interleaving of its goroutines.
use s_mvba.Base.{
  ℕ, ℤ, Bool, Option, none, some, List, [], ◌∷◌, map, All, ◌≡◌, ◌≢◌, refl, true, false, get_elem?,
  set, eqz, not, if◌then◌else◌, ◌==◌, Bool-cases, inl, inr, All-append, All-imp, All-set, All-get,
}
use s_mvba.Committee.{hight_threshold}
use s_mvba.Crypto.{Digest, Primitives}
use s_mvba.Message.{ConsensusBlock, SpbProposal, SpbVote, block_hash, spb_one_phase, spb_two_phase}
use s_mvba.Spb.{new_spb, Site, Spb, Effect, send, receive, go_proposal, go_vote, commits}
use s_mvba.Spb.Phases.{Task, proposal, vote}
use s_mvba.Spb.Threads.{
  Thread, start, storing, voting_one, draining, queueing_proposal, locking, voting_two,
  queueing_vote, counting, counted, finished, panicked, check_block, check_two, check_vote, certify,
  thread_step, spawned, System, pick, system_step, run_schedule, starting,
}

-- The points that a goroutine reaches only once a block is stored.
abbrev pub needs_block : Thread → Bool
needs_block (voting_one p hash) = true
needs_block draining = true
needs_block (locking p) = true
needs_block (voting_two p) = true
needs_block (counting v) = true
needs_block (counted v num) = true
needs_block _ = false

abbrev pub Guarded : Option Digest → Thread → Type 0
Guarded h t = needs_block t ≡ true → h ≢ none

abbrev pub Locked : Spb → Type 0
Locked s = s.lock_flag ≡ true → s.block_hash ≢ none

abbrev pub Safe : System → Type 0
Safe s = Locked s.spb × All (Guarded s.spb.block_hash) s.threads

spawned-Guarded : (h : Option Digest) (es : List Effect) → All (Guarded h) (spawned es)
spawned-Guarded h [] = tt
spawned-Guarded h (go_proposal p ∷ es) = (λ e. cc, spawned-Guarded h es)
spawned-Guarded h (go_vote v ∷ es) = (λ e. cc, spawned-Guarded h es)
spawned-Guarded h (send to m ∷ es) = spawned-Guarded h es
spawned-Guarded h (receive m ∷ es) = spawned-Guarded h es
spawned-Guarded h (commits b ∷ es) = spawned-Guarded h es

check_lem :
    (other : Bool) (p : SpbProposal) (hash : Digest)
    → Guarded none (if other then finished else storing p hash)
check_lem true p hash e = absurd cc
check_lem false p hash e = absurd cc

started-Guarded : (h : Option Digest) (ts : List Task) → All (Guarded h) (map start ts)
started-Guarded h [] = tt
started-Guarded h (t ∷ ts) = (λ e. absurd cc, started-Guarded h ts)

module _ (cr : Primitives) (n : Site) where
  begin_lem :
      (one two : Bool) (p : SpbProposal) (s : Spb) (h : Option Digest) (b : Option ConsensusBlock)
      → Guarded h
          (if one then check_block cr n p s h b else if two then check_two cr n p h else finished)
  begin_lem true two p s (some h) b = λ e q. cc
  begin_lem true two p s none none = λ e. absurd cc
  begin_lem true two p s none (some b) =
      check_lem (not (eqz s.proposer b.proposer)) p (block_hash cr b)
  begin_lem false true p s (some h) b = λ e q. cc
  begin_lem false true p s none b = λ e. absurd cc
  begin_lem false false p s h b = λ e. absurd cc

  check_vote_lem : (v : SpbVote) (h : Option Digest) → Guarded h (check_vote cr n v h)
  check_vote_lem v (some h) = λ e q. cc
  check_vote_lem v none = λ e. absurd cc

  certify_lem :
      (v : SpbVote) (s : Spb) (full : Bool) (h : Option Digest)
      → Locked s
      → let r = if full then certify cr n v s h else (finished, [], s) in
        Guarded r.2.block_hash r.0 × Locked r.2 × (s.block_hash ≢ none → r.2.block_hash ≢ none)
  certify_lem v s true (some hash) l = (λ e. absurd cc, l, λ h. h)
  certify_lem v s true none l = elim (Bool-cases (eqz v.phase spb_two_phase)) [
    | inl two ↦ rw (two) (λ e. absurd cc, l, λ h. h)
    | inr other ↦ rw (other) (λ e. absurd cc, l, λ h. h)
  ]
  certify_lem v s false h l = (λ e. cc, l, λ h. h)

  -- One move leaves a stored block stored, and reaches the guarded points only with one.
  thread_step_lem :
      (t : Thread) (s : Spb)
      → Locked s
      → Guarded s.block_hash t
      → let r = thread_step cr n t s in
        Guarded r.2.block_hash r.0 × Locked r.2 × (s.block_hash ≢ none → r.2.block_hash ≢ none)
  unfolding thread_step
  thread_step_lem (start (proposal p)) s l g = (
    begin_lem (eqz p.phase spb_one_phase) (eqz p.phase spb_two_phase) p s s.block_hash p.b,
    l,
    λ h. h,
  )
  thread_step_lem (start (vote v)) s l g = (check_vote_lem v s.block_hash, l, λ h. h)
  thread_step_lem (storing p hash) s l g = (λ e h. cc, λ e h. cc, λ e h. cc)
  thread_step_lem (voting_one p hash) s l g = (λ e. g refl, l, λ h. h)
  thread_step_lem draining s l g = (λ e. cc, l, λ h. h)
  thread_step_lem (queueing_proposal p) s l g = (λ e. cc, l, λ h. h)
  thread_step_lem (locking p) s l g = (λ e. g refl, λ e. g refl, λ h. h)
  thread_step_lem (voting_two p) s l g = (λ e. cc, l, λ h. h)
  thread_step_lem (queueing_vote v) s l g = (λ e. cc, l, λ h. h)
  thread_step_lem (counting v) s l g = (λ e. g refl, l, λ h. h)
  thread_step_lem (counted v num) s l g =
      certify_lem v s (num == hight_threshold n.committee) s.block_hash l
  thread_step_lem finished s l g = (λ e. cc, l, λ h. h)
  thread_step_lem panicked s l g = (λ e. cc, l, λ h. h)

  pub pick-Safe :
      (i : ℕ) (s : System) (t : Option Thread)
      → get_elem? s.threads i ≡ t
      → Safe s
      → Safe (pick cr n i s t)
  pick-Safe i s none q safe = safe
  pick-Safe i s (some t) q safe =
      let g = Guarded s.spb.block_hash in
      let r = thread_step cr n t s.spb in
      let h = Guarded r.2.block_hash in
      let (now, locked, stays) =
        thread_step_lem t s.spb safe.0 (All-get g s.threads i t q safe.1) in
      (
        locked,
        All-append h (set s.threads i r.0) (spawned r.1)
            (All-set h s.threads i r.0 now
              (All-imp g h s.threads (λ u guard needs. stays (guard needs)) safe.1))
            (spawned-Guarded r.2.block_hash r.1),
      )

  run_schedule-Safe : (is : List ℕ) (s : System) → Safe s → Safe (run_schedule cr n is s)
  unfolding run_schedule system_step
  run_schedule-Safe [] s safe = safe
  run_schedule-Safe (i ∷ is) s safe =
      run_schedule-Safe is (system_step cr n i s) (pick-Safe i s (get_elem? s.threads i) refl safe)

  pub starting-Safe :
      (epoch round proposer : ℤ) (ts : List Task) → Safe (starting epoch round proposer ts)
  unfolding new_spb
  starting-Safe epoch round proposer ts = ((λ e. absurd cc), started-Guarded none ts)

  -- Under every interleaving of the goroutines of any calls on a new instance, an instance that is
  -- locked holds the hash of a block.
  pub lock_has_block :
      (epoch round proposer : ℤ) (tasks : List Task) (is : List ℕ)
      → (run_schedule cr n is (starting epoch round proposer tasks)).spb.lock_flag ≡ true
      → (run_schedule cr n is (starting epoch round proposer tasks)).spb.block_hash ≢ none
  lock_has_block epoch round proposer tasks is locked =
      (run_schedule-Safe is (starting epoch round proposer tasks)
          (starting-Safe epoch round proposer tasks)).0
        locked
