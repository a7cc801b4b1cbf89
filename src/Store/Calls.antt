-- ===== src/Store/Calls.antt =====
-- The methods `Read`, `Write` and `NotifyRead` of store/store.go as whole calls: a request, and the reply on its channel.
use s_mvba.Base.{ℕ, Option, none, some, List, [], ◌∷◌, ◌≡◌, refl}
use s_mvba.Error.{Error, Outcome, ok, err, panic}
use s_mvba.Crypto.{Bytes}
use s_mvba.Store.{Db, StoreReq, Store, read_req, write_req, serve}

-- What a method returns of `resp.val` and `resp.err`.
abbrev pub returned : Bytes → Option Error → Outcome Bytes
returned val none = ok val
returned val (some e) = err e

-- The first request that is sent back is the caller's own; with none the call would wait for ever.
abbrev pub reply_of : List StoreReq → Outcome Bytes
reply_of [] = panic
reply_of (r ∷ rs) = returned r.val r.err

abbrev pub reply_err : List StoreReq → Option Error
reply_err [] = none
reply_err (r ∷ rs) = r.err

module _ {D : Type 0} (db : Db D) (me : ℕ) where
  unfoldable pub store_read : Bytes → Store D → Outcome Bytes × Store D
  store_read key s = let (out, s') = serve db (read_req key me) s in (reply_of out, s')

  unfoldable pub store_write : Bytes → Bytes → Store D → Option Error × Store D
  store_write key val s = let (out, s') = serve db (write_req key val me) s in (reply_err out, s')

  -- The calls against the database: a read changes nothing, and a write is one put.
  pub store_read_lem :
      (key : Bytes) (s : Store D)
      → store_read key s ≡ (returned (db.get key s.db).0 (db.get key s.db).1, s)
  unfolding store_read serve
  store_read_lem key s = refl

  pub store_write_lem :
      (key val : Bytes) (s : Store D)
      → ((store_write key val s).0 ≡ (db.put key val s.db).0)
        × ((store_write key val s).1.db ≡ (db.put key val s.db).1)
  unfolding store_write serve
  store_write_lem key val s = (refl, refl)
