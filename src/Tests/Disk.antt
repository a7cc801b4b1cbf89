-- ===== src/Tests/Disk.antt =====
-- The requests of store/store.go over a map.
use s_mvba.Base.{
  ◌+◌, List, [], ◌∷◌, ◌++◌, ◌≡◌, refl, Option, none, some, Map, lookup, insert, delete, digest_eq,
  bytes_eq,
}
use s_mvba.Error.{Error, not_found_key}
use s_mvba.Crypto.{Bytes}
use s_mvba.Spb.Phases.{count_if}
use s_mvba.Store.{
  Db, StoreReq, new_store, read_req, write_req, notify_req, queue_of, serve, serve_all,
}
use s_mvba.Store.Waiting.{is_for, waiting, served_once, write_answers_all}

abbrev Table : Type 0
Table = Map Bytes Bytes

abbrev found : Option Bytes → Bytes × Option Error
found none = ([], some not_found_key)
found (some v) = (v, none)

abbrev table_db : Db Table
table_db = record { get = λ k d. found (lookup k d); put = λ k v d. (none, insert k v d) }

-- Two readers of key 1 and one of key 2, then a read, and a write of key 1.
abbrev early : List StoreReq
early =
    notify_req (1 ∷ []) 10
    ∷ notify_req (2 ∷ []) 11
    ∷ notify_req (1 ∷ []) 12
    ∷ read_req (1 ∷ []) 13
    ∷ []

abbrev all : List StoreReq
all = early ++ write_req (1 ∷ []) (9 ∷ []) 14 ∷ []

served_once_example :
    let (out, s) = serve_all table_db all (new_store []) in
    count_if (is_for (2 ∷ []) 11) out + waiting (2 ∷ []) 11 s.pending
    ≡ count_if (is_for (2 ∷ []) 11) all
served_once_example = served_once table_db [] all (2 ∷ []) 11

write_answers_all_example :
    count_if (is_for (1 ∷ []) 12) (serve_all table_db all (new_store [])).0
    ≡ count_if (is_for (1 ∷ []) 12) all
write_answers_all_example = write_answers_all table_db [] early (1 ∷ []) (9 ∷ []) 14 12

-- What comes back: the read finds nothing, then the write and both readers of its key.
answers_lem :
    (serve_all table_db all (new_store [])).0
    ≡ record (read_req (1 ∷ []) 13) { err = some not_found_key }
      ∷ write_req (1 ∷ []) (9 ∷ []) 14
      ∷ record (notify_req (1 ∷ []) 10) { val = 9 ∷ [] }
      ∷ record (notify_req (1 ∷ []) 12) { val = 9 ∷ [] }
      ∷ []
unfolding serve_all serve new_store queue_of lookup insert delete bytes_eq
answers_lem = refl
