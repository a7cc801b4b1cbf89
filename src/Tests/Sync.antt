-- ===== src/Tests/Sync.antt =====
-- The synchronizer of mempool/synchronizer.go on concrete inputs.
use s_mvba.Base.{
  ℕ, ◌+◌, ◌≤◌, pos, List, [], ◌∷◌, ◌≡◌, refl, lookup, insert, delete, digest_eq, bytes_eq,
}
use s_mvba.Committee.{none_id}
use s_mvba.Mempool.{request_block, sync_block, sync_clean_up_block}
use s_mvba.Mempool.Sync.{
  Synchronizer, new_synchronizer, SyncInput, inter, waiting, tick, old_keys, delete_keys,
  sync_clean_up, sync_answered, due_entries, due_requests, sync_step, sync_run,
}
use s_mvba.Mempool.Waiters.{times, entry_count, waiter_once}

abbrev ask : ℕ → SyncInput
ask k = inter (sync_block ((k ∷ []) ∷ []) (pos 1) (pos k) (k ∷ 7 ∷ []))

-- Block 3 is asked for twice, asked of all others, and comes; block 4 is cleaned up.
abbrev inputs : List (ℕ × SyncInput)
inputs =
    (0, ask 3)
    ∷ (1, ask 3)
    ∷ (2, ask 4)
    ∷ (11, tick)
    ∷ (12, waiting (3 ∷ 7 ∷ []))
    ∷ (13, inter (sync_clean_up_block 4))
    ∷ []

abbrev end : Synchronizer
end = sync_run (pos 0) 10 inputs new_synchronizer

waiter_once_example :
    times (3 ∷ 7 ∷ []) end.started
    ≤ times (3 ∷ 7 ∷ []) end.closed
      + times (3 ∷ 7 ∷ []) end.loop_back_chan
      + entry_count (lookup (3 ∷ 7 ∷ []) end.pending)
waiter_once_example = waiter_once (pos 0) 10 inputs (3 ∷ 7 ∷ [])

end_lem : end ≡ record {
  pending = [];
  started = (4 ∷ 7 ∷ []) ∷ (3 ∷ 7 ∷ []) ∷ [];
  closed = (4 ∷ 7 ∷ []) ∷ [];
  sent =
      (none_id, request_block ((3 ∷ []) ∷ []) (pos 0))
      ∷ (pos 1, request_block ((4 ∷ []) ∷ []) (pos 0))
      ∷ (pos 1, request_block ((3 ∷ []) ∷ []) (pos 0))
      ∷ [];
  loop_back_chan = (3 ∷ 7 ∷ []) ∷ [];
}
unfolding sync_run sync_step sync_clean_up sync_answered old_keys delete_keys due_entries
    due_requests new_synchronizer lookup insert delete bytes_eq
end_lem = refl
