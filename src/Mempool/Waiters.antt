-- ===== src/Mempool/Waiters.antt =====
-- How often the synchronizer of mempool/synchronizer.go starts a waiter.
use s_mvba.Base.{
  keys, ℕ, ◌+◌, ◌≤◌, ℤ, Option, none, some, List, [], ◌∷◌, ◌≡◌, refl, Map, lookup, delete,
  lookup-insert, lookup-delete, digest_eq, bytes_eq, arith,
}
use s_mvba.Crypto.{Digest}
use s_mvba.Spb.Phases.{count_if, count_if-append}
use s_mvba.Mempool.{uint64, sync_block, sync_clean_up_block}
use s_mvba.Mempool.Sync.{
  Entry, Synchronizer, new_synchronizer, SyncInput, inter, waiting, tick, old_keys, delete_keys,
  sync_clean_up, sync_answered, due_entries, sync_step, sync_run,
}

abbrev pub times : Digest → List Digest → ℕ
times d = count_if (λ x. bytes_eq x d)

abbrev pub entry_count : Option Entry → ℕ
entry_count none = 0
entry_count (some v) = 1

delete_keys-count :
    (ks : List Digest) (d : Digest) (m : Map Digest Entry)
    → entry_count (lookup d m) ≤ times d ks + entry_count (lookup d (delete_keys ks m))
unfolding delete_keys
delete_keys-count [] d m = omega arith
delete_keys-count (k ∷ ks) d m =
    grind (keys, delete_keys-count ks d (delete k m), lookup-delete k d m)

due_entries-count :
    (name : ℤ) (retry now : ℕ) (d : Digest) (m : Map Digest Entry)
    → entry_count (lookup d (due_entries name retry now m)) ≡ entry_count (lookup d m)
unfolding due_entries lookup
due_entries-count name retry now d [] = refl
due_entries-count name retry now d ((k, v) ∷ m) =
    ground (arith, due_entries-count name retry now d m)

-- A waiter is running, or was closed, or has answered, for each one that was started.
abbrev pub Accounted : Digest → Synchronizer → Type 0
Accounted d s =
    times d s.started
    ≤ times d s.closed + times d s.loop_back_chan + entry_count (lookup d s.pending)

step-Accounted :
    (name : ℤ) (retry now : ℕ) (d : Digest) (i : SyncInput) (s : Synchronizer)
    → Accounted d s
    → Accounted d (sync_step name retry now i s)
unfolding sync_step sync_clean_up sync_answered
step-Accounted name retry now d (inter (sync_block ms author epoch hash)) s h =
    let v : Entry = record {
      epoch = uint64 epoch;
      last_send = now;
      missing = ms;
      author = author;
    } in
    grind (keys, lookup-insert hash d v s.pending)
step-Accounted name retry now d (inter (sync_clean_up_block epoch)) s h = omega (
  arith,
  h,
  delete_keys-count (old_keys epoch s.pending) d s.pending,
  count_if-append (λ x. bytes_eq x d) (old_keys epoch s.pending) s.closed,
)
step-Accounted name retry now d (waiting b) s h = grind (keys, lookup-delete b d s.pending)
step-Accounted name retry now d tick s h =
    omega (arith, h, due_entries-count name retry now d s.pending)

run-Accounted :
    (name : ℤ) (retry : ℕ) (d : Digest) (is : List (ℕ × SyncInput)) (s : Synchronizer)
    → Accounted d s
    → Accounted d (sync_run name retry is s)
unfolding sync_run
run-Accounted name retry d [] s h = h
run-Accounted name retry d ((now, i) ∷ is) s h =
    run-Accounted name retry d is (sync_step name retry now i s)
      (step-Accounted name retry now d i s h)

-- Over any inputs to a new synchronizer, a waiter is started for a block no more often than one was
-- closed for it, one answered for it, and one more if the block is pending: while a block is asked
-- for, no second waiter is started for it.
pub waiter_once :
    (name : ℤ) (retry_delay : ℕ) (is : List (ℕ × SyncInput)) (d : Digest)
    → let s = sync_run name retry_delay is new_synchronizer in
      times d s.started
      ≤ times d s.closed + times d s.loop_back_chan + entry_count (lookup d s.pending)
unfolding new_synchronizer
waiter_once name retry_delay is d =
    run-Accounted name retry_delay d is new_synchronizer (omega arith)
