-- ===== src/Mempool/Waiter.antt =====
-- `waiter` of mempool/synchronizer.go, over the store of store/store.go. Its inner goroutine reads the
-- missing payloads one after the other by `NotifyRead`, while others use the store. Events come in the
-- order in which the store serves the requests; an event that cannot happen changes nothing.
pub mod Progress
pub mod Answers
pub mod Finishes
use s_mvba.Base.{ℕ, Bool, true, false, ◌||◌, ◌==◌, List, [], ◌∷◌, Option, none, some, if◌then◌else◌}
use s_mvba.Crypto.{Digest, zero_digest}
use s_mvba.Store.{Db, StoreReq, Store, notify_req, serve}

-- Where the inner goroutine stands: before the reads of a list, in the read of a digest with a list
-- left, or after `close(finish)`.
pub data Reader : Type 0 where
  asking : List Digest → Reader
  reading : Digest → List Digest → Reader
  finished : Reader

-- The store with one waiter.
pub record WaiterState (D : Type 0) : Type 0 where
  pub store : Store D
  pub reader : Reader
  -- Whether the channel `Done` of the current read holds a reply.
  pub replied : Bool
  -- Whether the synchronizer has closed `notify`.
  pub closed : Bool
  -- What `waiter` has returned.
  pub answer : Option Digest

pub data WaiterEvent : Type 0 where
  -- Another caller's request is served.
  other : StoreReq → WaiterEvent
  -- The inner goroutine goes on: it makes the next request, takes a reply, or closes `finish`.
  go_on : WaiterEvent
  close_notify : WaiterEvent
  -- The two cases of the `select`.
  see_finish : WaiterEvent
  see_notify : WaiterEvent

unfoldable pub new_waiter : {D : Type 0} → List Digest → Store D → WaiterState D
new_waiter missing s = record {
  store = s;
  reader = asking missing;
  replied = false;
  closed = false;
  answer = none;
}

-- Whether a request of the waiter is among these. Each read makes a channel of its own; all have one
-- number, since no two are in use at once.
unfoldable pub any_of : ℕ → List StoreReq → Bool
any_of me [] = false
any_of me (r ∷ rs) = r.done == me || any_of me rs

abbrev pub no_answer : Option Digest → Bool
no_answer none = true
no_answer (some d) = false

abbrev pub is_finished : Reader → Bool
is_finished finished = true
is_finished _ = false

abbrev pub answer_with : {D : Type 0} → Bool → Digest → WaiterState D → WaiterState D
answer_with ready d w =
    if ready then if no_answer w.answer then record w { answer = some d } else w else w

module _ {D : Type 0} (db : Db D) (me : ℕ) where
  -- The store serves a request, and what is sent back to the waiter is in its channel.
  unfoldable pub request : StoreReq → WaiterState D → WaiterState D
  unfolding any_of
  request req w =
      let (out, s) = serve db req w.store in
      record w { store = s; replied = w.replied || any_of me out }

  abbrev pub reader_moves : Reader → WaiterState D → WaiterState D
  reader_moves (asking []) w = record w { reader = finished }
  reader_moves (asking (d ∷ left)) w = record (request (notify_req d me) w) {
    reader = reading d left;
  }
  reader_moves (reading d left) w =
      if w.replied then record w { reader = asking left; replied = false } else w
  reader_moves finished w = w

  unfoldable pub waiter_step : Digest → WaiterEvent → WaiterState D → WaiterState D
  unfolding request
  waiter_step block (other req) w = request req w
  waiter_step block go_on w = reader_moves w.reader w
  waiter_step block close_notify w = record w { closed = true }
  waiter_step block see_finish w = answer_with (is_finished w.reader) block w
  waiter_step block see_notify w = answer_with w.closed zero_digest w

  unfoldable pub waiter_run : Digest → List WaiterEvent → WaiterState D → WaiterState D
  unfolding waiter_step
  waiter_run block [] w = w
  waiter_run block (e ∷ es) w = waiter_run block es (waiter_step block e w)
