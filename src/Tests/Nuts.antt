-- ===== src/Tests/Nuts.antt =====
-- A database as store/nutsdb.go sees it, over a map, and a waiter of mempool/synchronizer.go over it.
use s_mvba.Base.{
  Bool, true, false, List, [], ◌∷◌, ◌++◌, Option, none, some, Map, lookup, insert, lookup-insert,
  digest_eq, bytes_eq, keys, All, replicate, length, ◌+◌, ◌*◌, ◌≡◌, ◌≢◌, refl, if◌then◌else◌,
  delete,
}
use s_mvba.Error.{Error, external, panic}
use s_mvba.Crypto.{Bytes, Digest}
use s_mvba.Store.{new_store, write_req, queue_of, serve}
use s_mvba.Store.Nuts.{Nuts, default_bucket, nuts_db, new_default_nuts_db, get, put, update}
use s_mvba.Store.Kept.{NutsLaws, reopen_panics}
use s_mvba.Mempool.Waiter.{
  WaiterEvent, other, go_on, see_finish, WaiterState, new_waiter, waiter_run, waiter_step, request,
  any_of,
}
use s_mvba.Mempool.Waiter.Progress.{Present}
use s_mvba.Mempool.Waiter.Answers.{waiter_truthful}
use s_mvba.Mempool.Waiter.Finishes.{waiter_finishes}

-- Whether the bucket was made, and what it holds.
abbrev pub Table : Type 0
Table = Bool × Map Bytes Bytes

abbrev got : Option Bytes → Bytes × Option Error
got none = ([], some (external 9))
got (some v) = (v, none)

abbrev pub nuts : Nuts Table
nuts = record {
  open_dir = λ dir. some (false, []);
  begins = λ d. none;
  commits = λ d. none;
  tx_new_bucket = λ b d. if d.0 then (some (external 8), d) else (none, (true, d.1));
  tx_get = λ b k d. got (lookup k d.1);
  tx_put = λ b k v d. (none, (d.0, insert k v d.1));
}

put_own :
    (k v : Bytes) (d : Table)
    → nuts.tx_get default_bucket k (nuts.tx_put default_bucket k v d).1 ≡ (v, none)
put_own k v d = grind (keys, lookup-insert k k v d.1)

put_other :
    (k j v : Bytes) (d : Table)
    → k ≢ j
    → nuts.tx_get default_bucket j (nuts.tx_put default_bucket k v d).1
      ≡ nuts.tx_get default_bucket j d
put_other k j v d h = grind (keys, lookup-insert k j v d.1)

pub nuts_laws : NutsLaws nuts
nuts_laws = record { opened = λ d. refl; put_own = λ k v d h. put_own k v d; put_other = put_other }

once :
    (b : Bytes) (u : Table)
    → (nuts.tx_new_bucket b u).0 ≡ none
    → (nuts.tx_new_bucket b (nuts.tx_new_bucket b u).1).0 ≢ none
once b (true, m) h = cc
once b (false, m) h = λ e. cc

reopen_panics_example :
    new_default_nuts_db (record nuts { open_dir = λ path. some (true, []) }) (1 ∷ []) ≡ panic
unfolding new_default_nuts_db update
reopen_panics_example = reopen_panics nuts (1 ∷ []) (true, []) once refl

taken : (k v : Bytes) (d : Table) → ((nuts_db nuts).get k ((nuts_db nuts).put k v d).1).1 ≡ none
unfolding nuts_db get put update
taken k v d = grind (keys, lookup-insert k k v d.1)

untouched :
    (k j v : Bytes) (d : Table)
    → k ≢ j
    → (nuts_db nuts).get j ((nuts_db nuts).put k v d).1 ≡ (nuts_db nuts).get j d
unfolding nuts_db get put update
untouched k j v d h = grind (keys, lookup-insert k j v d.1)

-- Payloads 1 and 2 are missing; 1 is written before its read, and 2 after.
abbrev missing : List Digest
missing = (1 ∷ []) ∷ (2 ∷ []) ∷ []

abbrev block : Digest
block = 7 ∷ []

abbrev writes : List WaiterEvent
writes =
    other (write_req (1 ∷ []) (9 ∷ []) 5)
    ∷ go_on
    ∷ go_on
    ∷ go_on
    ∷ other (write_req (2 ∷ []) (8 ∷ []) 6)
    ∷ []

abbrev full : List WaiterEvent
full = writes ++ go_on ∷ go_on ∷ see_finish ∷ []

abbrev after : List WaiterEvent → WaiterState Table
after es = waiter_run (nuts_db nuts) 3 block es (new_waiter missing (new_store (true, [])))

answers : (after full).answer ≡ some block
unfolding waiter_run waiter_step request any_of new_waiter new_store serve queue_of nuts_db get put
    update lookup insert delete bytes_eq
answers = refl

-- The second read waits until the write.
waits_for_two : (after (go_on ∷ see_finish ∷ [])).answer ≡ none
unfolding waiter_run waiter_step request any_of new_waiter new_store serve queue_of nuts_db get put
    update lookup insert delete bytes_eq
waits_for_two = refl

waiter_truthful_example : All (Present (nuts_db nuts) 3 (after full).store) missing
waiter_truthful_example =
    waiter_truthful (nuts_db nuts) 3 taken untouched block missing (true, []) full
      (refl, (tt, (tt, (tt, (refl, (tt, (tt, (tt, tt)))))))) (λ e. cc) answers

open_still : (after writes).closed ≡ false
unfolding waiter_run waiter_step request any_of new_waiter new_store serve queue_of nuts_db get put
    update lookup insert delete bytes_eq
open_still = refl

both_stored : All (Present (nuts_db nuts) 3 (after writes).store) missing
unfolding waiter_run waiter_step request any_of new_waiter new_store serve queue_of nuts_db get put
    update lookup insert delete bytes_eq
both_stored = (refl, (refl, tt))

waiter_finishes_example :
    (after (writes ++ (replicate (2 * length missing + 1) go_on ++ see_finish ∷ []))).answer
    ≡ some block
waiter_finishes_example =
    waiter_finishes (nuts_db nuts) 3 taken untouched block missing (true, []) writes
      (refl, (tt, (tt, (tt, (refl, tt))))) open_still both_stored
