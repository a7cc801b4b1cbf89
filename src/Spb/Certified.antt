-- ===== src/Spb/Certified.antt =====
-- The Finish messages of an instance of core/smvba/consensus/spb.go under every interleaving.
use s_mvba.Base.{
  keys, ℕ, zero, suc, ◌+◌, ◌==◌, ◌&&◌, ℤ, List, [], ◌∷◌, ◌++◌, map, Option, none, some,
  some-injective, Bool, true, false, ◌≡◌, ◌≢◌, refl, arith, All-get, get_elem?, set, lookup,
  lookup-insert, int_eq, eqz, if◌then◌else◌,
}
use s_mvba.Committee.{hight_threshold}
use s_mvba.Committee.Quorum.{hight-pos}
use s_mvba.Crypto.{Digest, Primitives}
use s_mvba.Message.{SpbVote, spb_two_phase}
use s_mvba.Spb.{
  Site, Spb, Effect, send, receive, go_proposal, go_vote, commits, count_of, quorum, new_spb,
}
use s_mvba.Spb.Phases.{Task, proposal, vote, count_if-append}
use s_mvba.Spb.Voting.{is_finish, finishes, finishes-spawned, second_votes, reached}
use s_mvba.Spb.Threads.{
  Thread, start, storing, voting_one, draining, queueing_proposal, locking, voting_two,
  queueing_vote, counting, counted, finished, panicked, certify, thread_step, spawned, System, pick,
  system_step, run_schedule, starting,
}
use s_mvba.Spb.Interleaved.{Guarded, Safe, pick-Safe, starting-Safe}

-- One for a goroutine that has seen the count of the second phase reach the threshold and has not acted
-- on it.
abbrev pub about_to_finish : ℕ → Thread → ℕ
about_to_finish th (counted v num) = if eqz v.phase spb_two_phase && (num == th) then 1 else 0
about_to_finish th _ = 0

abbrev pub sum : (Thread → ℕ) → List Thread → ℕ
sum w [] = 0
sum w (t ∷ ts) = w t + sum w ts

sum-append : (w : Thread → ℕ) (ts us : List Thread) → sum w (ts ++ us) ≡ sum w ts + sum w us
sum-append w [] us = omega arith
sum-append w (t ∷ ts) us = omega (arith, sum-append w ts us)

sum-set :
    (w : Thread → ℕ) (ts : List Thread) (i : ℕ) (t u : Thread)
    → get_elem? ts i ≡ some t
    → sum w (set ts i u) + w t ≡ sum w ts + w u
sum-set w [] i t u h = absurd cc
sum-set w (x ∷ ts) zero t u h = let q : x ≡ t = some-injective x t h in rw (q) (omega arith)
sum-set w (x ∷ ts) (suc i) t u h = omega (arith, sum-set w ts i t u h)

sum-spawned : (th : ℕ) (es : List Effect) → sum (about_to_finish th) (spawned es) ≡ 0
sum-spawned th [] = refl
sum-spawned th (go_proposal p ∷ es) = omega (arith, sum-spawned th es)
sum-spawned th (go_vote v ∷ es) = omega (arith, sum-spawned th es)
sum-spawned th (send to m ∷ es) = omega (arith, sum-spawned th es)
sum-spawned th (receive m ∷ es) = omega (arith, sum-spawned th es)
sum-spawned th (commits b ∷ es) = omega (arith, sum-spawned th es)

module _ (cr : Primitives) (n : Site) where
  abbrev th : ℕ
  th = hight_threshold n.committee

  certify_counts :
      (v : SpbVote) (s : Spb) (full : Bool) (h : Option Digest)
      → h ≢ none
      → let r = if full then certify cr n v s h else (finished, [], s) in
        finishes r.1 + about_to_finish th r.0 + reached th (second_votes s)
        ≡ (if eqz v.phase spb_two_phase && full then 1 else 0) + reached th (second_votes r.2)
  unfolding quorum
  certify_counts v s full none some_block = absurd (some_block refl)
  certify_counts v s true (some d) some_block = grind keys
  certify_counts v s false (some d) some_block = ground arith

  step_counts :
      (t : Thread) (s : Spb)
      → Guarded s.block_hash t
      → let r = thread_step cr n t s in
        finishes r.1 + about_to_finish th r.0 + reached th (second_votes s)
        ≡ about_to_finish th t + reached th (second_votes r.2)
  unfolding thread_step quorum
  step_counts (start (proposal p)) s g = grind keys
  step_counts (start (vote v)) s g = ground arith
  step_counts (storing p hash) s g = refl
  step_counts (voting_one p hash) s g = ground arith
  step_counts draining s g = ground (arith, finishes-spawned s.un_handle_proposal s.un_handle_vote)
  step_counts (queueing_proposal p) s g = refl
  step_counts (locking p) s g = refl
  step_counts (voting_two p) s g = ground arith
  step_counts (queueing_vote v) s g = refl
  step_counts (counting v) s g =
      grind
        (keys, lookup-insert v.phase spb_two_phase (count_of (lookup v.phase s.votes) + 1) s.votes)
  step_counts (counted v num) s g = certify_counts v s (num == th) s.block_hash (g refl)
  step_counts finished s g = refl
  step_counts panicked s g = refl

  moved_counts :
      (i : ℕ) (s : System) (t : Option Thread)
      → get_elem? s.threads i ≡ t
      → Safe s
      → let r = pick cr n i s t in
        finishes r.done + sum (about_to_finish th) r.threads + reached th (second_votes s.spb)
        ≡ finishes s.done + sum (about_to_finish th) s.threads + reached th (second_votes r.spb)
  moved_counts i s none q safe = refl
  moved_counts i s (some t) q safe =
      let (u, es, spb) = thread_step cr n t s.spb in
      let w = about_to_finish th in
      omega (
        arith,
        step_counts t s.spb (All-get (Guarded s.spb.block_hash) s.threads i t q safe.1),
        sum-append w (set s.threads i u) (spawned es),
        sum-set w s.threads i t u q,
        sum-spawned th es,
        count_if-append is_finish s.done es,
      )

  run_schedule_counts :
      (is : List ℕ) (s : System)
      → Safe s
      → let r = run_schedule cr n is s in
        finishes r.done + sum (about_to_finish th) r.threads + reached th (second_votes s.spb)
        ≡ finishes s.done + sum (about_to_finish th) s.threads + reached th (second_votes r.spb)
  unfolding run_schedule system_step
  run_schedule_counts [] s safe = refl
  run_schedule_counts (i ∷ is) s safe =
      let t = get_elem? s.threads i in
      omega (
        arith,
        moved_counts i s t refl safe,
        run_schedule_counts is (pick cr n i s t) (pick-Safe cr n i s t refl safe),
      )

  sum-start : (ts : List Task) → sum (about_to_finish th) (map start ts) ≡ 0
  sum-start [] = refl
  sum-start (t ∷ ts) = omega (arith, sum-start ts)

  -- Under every interleaving of the goroutines of any calls on a new instance, the Finish messages sent,
  -- with the goroutines that are about to send one, are one if the counted votes of the second phase
  -- have reached the high threshold, and none if not.
  pub finish_once_interleaved :
      (epoch round proposer : ℤ) (tasks : List Task) (is : List ℕ)
      → let r = run_schedule cr n is (starting epoch round proposer tasks) in
        finishes r.done + sum (about_to_finish th) r.threads ≡ reached th (second_votes r.spb)
  unfolding new_spb lookup
  finish_once_interleaved epoch round proposer tasks is = ground (
    arith,
    hight-pos n.committee,
    sum-start tasks,
    run_schedule_counts is (starting epoch round proposer tasks)
        (starting-Safe cr n epoch round proposer tasks),
  )
