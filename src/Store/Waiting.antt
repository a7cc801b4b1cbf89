-- ===== src/Store/Waiting.antt =====
-- Who waits in store/store.go, and who is answered.
use s_mvba.Base.{
  keys, subst, ℕ, ◌+◌, Bool, true, false, ◌&&◌, Option, none, some, List, [], ◌∷◌, ◌++◌, ◌≡◌, refl,
  ap, All, Map, lookup, insert, delete, lookup-insert, lookup-delete, digest_eq, bytes_eq,
  bytes_eq_iff, ◌==◌, if◌then◌else◌, arith,
}
use s_mvba.Error.{Error}
use s_mvba.Crypto.{Bytes}
use s_mvba.Spb.Phases.{count_if, count_if-append}
use s_mvba.Store.{
  Db, RequestType, read, write, notify_read, StoreReq, Store, new_store, write_req, queue_of, wake,
  notified, serve_as, serve, serve_all,
}

pub queue_of-insert :
    (k j : Bytes) (q : List StoreReq) (m : Map Bytes (List StoreReq))
    → queue_of j (insert k q m) ≡ (if bytes_eq k j then q else queue_of j m)
unfolding queue_of
queue_of-insert k j q m = ground (arith, lookup-insert k j q m)

pub queue_of-delete :
    (k j : Bytes) (m : Map Bytes (List StoreReq))
    → queue_of j (delete k m) ≡ (if bytes_eq k j then [] else queue_of j m)
unfolding queue_of
queue_of-delete k j m = ground (arith, lookup-delete k j m)

-- The request that has a key and a channel.
abbrev pub is_for : Bytes → ℕ → StoreReq → Bool
is_for key done r = bytes_eq r.key key && (r.done == done)

-- Each request waits under its own key.
abbrev pub Filed : Map Bytes (List StoreReq) → Type 0
Filed m = (k : Bytes) → All (λ (r : StoreReq). r.key ≡ k) (queue_of k m)

abbrev pub waiting : Bytes → ℕ → Map Bytes (List StoreReq) → ℕ
waiting key done m = count_if (is_for key done) (queue_of key m)

count-wake :
    (key : Bytes) (x : ℕ) (val : Bytes) (q : List StoreReq)
    → count_if (is_for key x) (wake val q) ≡ count_if (is_for key x) q
count-wake key x val [] = refl
count-wake key x val (r ∷ q) = ground (arith, count-wake key x val q)

count-other :
    (key k : Bytes) (x : ℕ) (q : List StoreReq)
    → bytes_eq k key ≡ false
    → All (λ (r : StoreReq). r.key ≡ k) q
    → count_if (is_for key x) q ≡ 0
count-other key k x [] h a = refl
count-other key k x (r ∷ q) h (e, a) = ground (arith, count-other key k x q h a)

All-snoc :
    (k : Bytes) (q : List StoreReq) (r : StoreReq)
    → All (λ (s : StoreReq). s.key ≡ k) q
    → r.key ≡ k
    → All (λ (s : StoreReq). s.key ≡ k) (q ++ r ∷ [])
All-snoc k [] r a e = (e, tt)
All-snoc k (s ∷ q) r (b, a) e = (b, All-snoc k q r a e)

choose-All :
    (b : Bool) (k : Bytes) (p q : List StoreReq)
    → (b ≡ true → All (λ (r : StoreReq). r.key ≡ k) p)
    → All (λ (r : StoreReq). r.key ≡ k) q
    → All (λ (r : StoreReq). r.key ≡ k) (if b then p else q)
choose-All true k p q h a = h refl
choose-All false k p q h a = a

count-added :
    (key : Bytes) (x : ℕ) (req : StoreReq) (m : Map Bytes (List StoreReq))
    → waiting key x (insert req.key (queue_of req.key m ++ req ∷ []) m)
      ≡ count_if (is_for key x) (req ∷ []) + waiting key x m
count-added key x req m = grind (
  keys,
  queue_of-insert req.key key (queue_of req.key m ++ req ∷ []) m,
  count_if-append (is_for key x) (queue_of key m) (req ∷ []),
)

count-woken :
    (key : Bytes) (x : ℕ) (req : StoreReq) (m : Map Bytes (List StoreReq))
    → Filed m
    → count_if (is_for key x) (wake req.val (queue_of req.key m)) + waiting key x (delete req.key m)
      ≡ waiting key x m
count-woken key x req m f = grind (
  keys,
  queue_of-delete req.key key m,
  count-wake key x req.val (queue_of req.key m),
  count-other key req.key x (queue_of req.key m),
  f req.key,
)

module _ {D : Type 0} (db : Db D) where
  notified-Filed :
      (req : StoreReq) (s : Store D) (val : Bytes) (e : Option Error)
      → Filed s.pending
      → Filed (notified db req s val e).1.pending
  notified-Filed req s val none f k = f k
  notified-Filed req s val (some e) f k =
      rw (queue_of-insert req.key k (queue_of req.key s.pending ++ req ∷ []) s.pending) (
        choose-All (bytes_eq req.key k) k (queue_of req.key s.pending ++ req ∷ [])
          (queue_of k s.pending)
          (λ h.
            subst (λ j. All (λ (r : StoreReq). r.key ≡ j) (queue_of req.key s.pending ++ req ∷ []))
              ((bytes_eq_iff req.key k).0 h)
              (All-snoc req.key (queue_of req.key s.pending) req (f req.key) refl))
          (f k))

  serve_as-Filed :
      (t : RequestType) (req : StoreReq) (s : Store D)
      → Filed s.pending
      → Filed (serve_as db t req s).1.pending
  serve_as-Filed read req s f k = f k
  serve_as-Filed write req s f k =
      rw (queue_of-delete req.key k s.pending)
        (choose-All (bytes_eq req.key k) k [] (queue_of k s.pending) (λ h. tt) (f k))
  serve_as-Filed notify_read req s f k =
      notified-Filed req s (db.get req.key s.db).0 (db.get req.key s.db).1 f k

  notified_counts :
      (req : StoreReq) (s : Store D) (key : Bytes) (x : ℕ) (val : Bytes) (e : Option Error)
      → count_if (is_for key x) (notified db req s val e).0
          + waiting key x (notified db req s val e).1.pending
        ≡ count_if (is_for key x) (req ∷ []) + waiting key x s.pending
  notified_counts req s key x val none = refl
  notified_counts req s key x val (some e) = omega (arith, count-added key x req s.pending)

  serve_as_counts :
      (t : RequestType) (req : StoreReq) (s : Store D) (key : Bytes) (x : ℕ)
      → Filed s.pending
      → count_if (is_for key x) (serve_as db t req s).0
          + waiting key x (serve_as db t req s).1.pending
        ≡ count_if (is_for key x) (req ∷ []) + waiting key x s.pending
  serve_as_counts read req s key x f = refl
  serve_as_counts write req s key x f = ground (arith, count-woken key x req s.pending f)
  serve_as_counts notify_read req s key x f =
      notified_counts req s key x (db.get req.key s.db).0 (db.get req.key s.db).1

  serve_all_counts :
      (reqs : List StoreReq) (s : Store D) (key : Bytes) (x : ℕ)
      → Filed s.pending
      → count_if (is_for key x) (serve_all db reqs s).0
          + waiting key x (serve_all db reqs s).1.pending
        ≡ count_if (is_for key x) reqs + waiting key x s.pending
  unfolding serve_all serve
  serve_all_counts [] s key x f = refl
  serve_all_counts (req ∷ reqs) s key x f =
      let s' = (serve db req s).1 in
      ground (
        arith,
        serve_as_counts req.typ req s key x f,
        serve_all_counts reqs s' key x (serve_as-Filed req.typ req s f),
        count_if-append (is_for key x) (serve db req s).0 (serve_all db reqs s').0,
      )

  -- Over any requests to a new store, each request is sent back once, or waits for a write of its key:
  -- the requests for a key and a channel that came in are as many as those that were sent back and
  -- those that wait.
  pub served_once :
      (d : D) (reqs : List StoreReq) (key : Bytes) (x : ℕ)
      → let (out, s) = serve_all db reqs (new_store d) in
        count_if (is_for key x) out + waiting key x s.pending ≡ count_if (is_for key x) reqs
  unfolding new_store queue_of lookup
  served_once d reqs key x = omega (arith, serve_all_counts reqs (new_store d) key x (λ k. tt))

  write_empties :
      (reqs : List StoreReq) (s : Store D) (key val : Bytes) (x : ℕ)
      → queue_of key (serve_all db (reqs ++ write_req key val x ∷ []) s).1.pending ≡ []
  unfolding serve_all serve
  write_empties [] s key val x = grind (keys, queue_of-delete key key s.pending)
  write_empties (req ∷ reqs) s key val x = write_empties reqs (serve db req s).1 key val x

  -- When a write of a key has been served, every request for the key that came before it, on whatever
  -- channel, has been sent back, and so has the write itself, also if the database refused the value.
  pub write_answers_all :
      (d : D) (reqs : List StoreReq) (key val : Bytes) (x y : ℕ)
      → let all = reqs ++ write_req key val x ∷ [] in
        count_if (is_for key y) (serve_all db all (new_store d)).0 ≡ count_if (is_for key y) all
  write_answers_all d reqs key val x y =
      let all = reqs ++ write_req key val x ∷ [] in
      omega (
        arith,
        served_once d all key y,
        ap (count_if (is_for key y)) (write_empties reqs (new_store d) key val x),
      )
