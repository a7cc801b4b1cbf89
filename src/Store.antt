-- ===== src/Store.antt =====
-- store/store.go: one goroutine serves requests of three kinds over a database, and keeps the readers
-- that wait for a key. A request is sent back on its channel `Done` with `val` and `err` filled in; the
-- channel is a number. store/nutsdb.go is the record `Db`.
pub mod Waiting
pub mod Wakeups
pub mod Nuts
pub mod Calls
pub mod Kept
use s_mvba.Base.{ℕ, Option, none, some, List, [], ◌∷◌, ◌++◌, Map, lookup, insert, delete, digest_eq}
use s_mvba.Error.{Error}
use s_mvba.Crypto.{Bytes}

-- `DB`, over the state `D` of a database.
pub record Db (D : Type 0) : Type 0 where
  pub get : Bytes → D → Bytes × Option Error
  pub put : Bytes → Bytes → D → Option Error × D

pub data RequestType : Type 0 where
  read write notify_read : RequestType

pub record StoreReq : Type 0 where
  pub typ : RequestType
  pub key : Bytes
  pub val : Bytes
  pub err : Option Error
  pub done : ℕ

pub record Store (D : Type 0) : Type 0 where
  pub db : D
  pub pending : Map Bytes (List StoreReq)

unfoldable pub new_store : {D : Type 0} → D → Store D
new_store d = record { db = d; pending = [] }

-- The requests of `Read`, `Write` and `NotifyRead`.
abbrev pub read_req : Bytes → ℕ → StoreReq
read_req key done = record { typ = read; key = key; val = []; err = none; done = done }

abbrev pub write_req : Bytes → Bytes → ℕ → StoreReq
write_req key val done = record { typ = write; key = key; val = val; err = none; done = done }

abbrev pub notify_req : Bytes → ℕ → StoreReq
notify_req key done = record { typ = notify_read; key = key; val = []; err = none; done = done }

abbrev or_nobody : Option (List StoreReq) → List StoreReq
or_nobody none = []
or_nobody (some queue) = queue

-- `pending[string(key)]`, which is nil for a missing key.
unfoldable pub queue_of : Bytes → Map Bytes (List StoreReq) → List StoreReq
queue_of key pending = or_nobody (lookup key pending)

-- The loop over the readers that wait for a key.
abbrev pub wake : Bytes → List StoreReq → List StoreReq
wake val [] = []
wake val (r ∷ queue) = record r { val = val } ∷ wake val queue

module _ {D : Type 0} (db : Db D) where
  abbrev pub serve_read : StoreReq → Store D → List StoreReq × Store D
  serve_read req s =
      let (val, e) = db.get req.key s.db in (record req { val = val; err = e } ∷ [], s)

  -- Those who wait are woken whether the database took the value or not.
  abbrev pub serve_write : StoreReq → Store D → List StoreReq × Store D
  serve_write req s =
      let (e, d) = db.put req.key req.val s.db in
      (
        record req { err = e } ∷ wake req.val (queue_of req.key s.pending),
        record { db = d; pending = delete req.key s.pending },
      )

  abbrev pub notified : StoreReq → Store D → Bytes → Option Error → List StoreReq × Store D
  notified req s val none = (record req { val = val } ∷ [], s)
  notified req s val (some e) =
      ([], record s { pending = insert req.key (queue_of req.key s.pending ++ req ∷ []) s.pending })

  abbrev pub serve_as : RequestType → StoreReq → Store D → List StoreReq × Store D
  serve_as read req s = serve_read req s
  serve_as write req s = serve_write req s
  serve_as notify_read req s = let (val, e) = db.get req.key s.db in notified req s val e

  -- One round of the goroutine: the requests that are sent back, and the new state.
  unfoldable pub serve : StoreReq → Store D → List StoreReq × Store D
  serve req s = serve_as req.typ req s

  unfoldable pub serve_all : List StoreReq → Store D → List StoreReq × Store D
  serve_all [] s = ([], s)
  serve_all (req ∷ reqs) s =
      let (out, s') = serve req s in let (rest, s'') = serve_all reqs s' in (out ++ rest, s'')
