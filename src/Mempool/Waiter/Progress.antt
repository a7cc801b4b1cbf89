-- ===== src/Mempool/Waiter/Progress.antt =====
-- Where `waiter` of mempool/synchronizer.go stands, and what the store holds then.
use s_mvba.Base.{
  ℕ, Bool, true, false, ◌||◌, ◌==◌, List, [], ◌∷◌, ◌++◌, Option, none, some, All, All-imp, ◌≡◌,
  refl, sym, ◌∙◌, subst, inl, inr, Bool-cases, bytes_eq, bytes_eq_iff, digest_eq, arith, keys,
  append-nil, append_assoc, All-append, if◌then◌else◌,
}
use s_mvba.Error.{Error}
use s_mvba.Crypto.{Bytes, Digest}
use s_mvba.Store.{
  Db, RequestType, read, write, notify_read, StoreReq, Store, notify_req, queue_of, wake, notified,
  serve_as, serve,
}
use s_mvba.Store.Waiting.{queue_of-insert, queue_of-delete}
use s_mvba.Mempool.Waiter.{
  Reader, asking, reading, finished, WaiterState, any_of, request, reader_moves,
}

any_of-wake : (me : ℕ) (val : Bytes) (q : List StoreReq) → any_of me (wake val q) ≡ any_of me q
unfolding any_of
any_of-wake me val [] = refl
any_of-wake me val (r ∷ q) = ground (arith, any_of-wake me val q)

any_of-snoc :
    (me : ℕ) (q : List StoreReq) (r : StoreReq)
    → any_of me (q ++ r ∷ []) ≡ (any_of me q || (r.done == me))
unfolding any_of
any_of-snoc me [] r = ground arith
any_of-snoc me (s ∷ q) r = ground (arith, any_of-snoc me q r)

module _ {D : Type 0} (db : Db D) (me : ℕ) where
  -- Whether the waiter waits for a key.
  abbrev pub waits : Bytes → Store D → Bool
  waits key s = any_of me (queue_of key s.pending)

  abbrev pub Present : Store D → Bytes → Type 0
  Present s key = (db.get key s.db).1 ≡ none

  -- What a served request of another caller does to the waiter: nothing, or it writes a key.
  pub data Served (replied : Bool) (s : Store D) (replied' : Bool) (s' : Store D) : Type 0 where
    quiet :
        replied' ≡ replied → ((k : Bytes) → waits k s' ≡ waits k s) → Served replied s replied' s'
    woke :
        (key : Bytes)
        → Present s' key
        → replied' ≡ (replied || waits key s)
        → ((k : Bytes) → waits k s' ≡ (if bytes_eq key k then false else waits k s))
        → Served replied s replied' s'

  notified-Served :
      (replied : Bool) (req : StoreReq) (s : Store D) (val : Bytes) (e : Option Error)
      → (req.done == me) ≡ false
      → let (out, s') = notified db req s val e in Served replied s (replied || any_of me out) s'
  unfolding any_of
  notified-Served replied req s val none foreign = quiet (ground arith) (λ k. refl)
  notified-Served replied req s val (some e) foreign = quiet (ground arith) (λ k.
      elim (Bool-cases (bytes_eq req.key k)) [
        | inl h ↦
            rw (queue_of-insert req.key k (queue_of req.key s.pending ++ req ∷ []) s.pending, h)
              (grind (
                arith,
                any_of-snoc me (queue_of req.key s.pending) req,
                (bytes_eq_iff req.key k).0 h,
              ))
        | inr h ↦
            rw (queue_of-insert req.key k (queue_of req.key s.pending ++ req ∷ []) s.pending, h)
              refl
      ])

  module _ (kept : (k v : Bytes) (d : D) → (db.get k (db.put k v d).1).1 ≡ none) where
    pub serve_as-Served :
        (t : RequestType) (replied : Bool) (req : StoreReq) (s : Store D)
        → (req.done == me) ≡ false
        → let (out, s') = serve_as db t req s in Served replied s (replied || any_of me out) s'
    unfolding any_of
    serve_as-Served read replied req s foreign = quiet (ground arith) (λ k. refl)
    serve_as-Served write replied req s foreign =
        woke req.key (kept req.key req.val s.db)
          (ground (arith, any_of-wake me req.val (queue_of req.key s.pending)))
          (λ k. ground (arith, queue_of-delete req.key k s.pending))
    serve_as-Served notify_read replied req s foreign =
        notified-Served replied req s (db.get req.key s.db).0 (db.get req.key s.db).1 foreign

  abbrev pub NoneWaits : Store D → Type 0
  NoneWaits s = (k : Bytes) → waits k s ≡ false

  -- In the read of a digest: the reply is there and the digest was found, or the waiter waits for it.
  pub data InRead (d : Digest) (replied : Bool) (s : Store D) : Type 0 where
    answered : replied ≡ true → Present s d → NoneWaits s → InRead d replied s
    waiting :
        replied ≡ false
        → waits d s ≡ true
        → ((k : Bytes) → waits k s ≡ true → k ≡ d)
        → InRead d replied s

  -- The waiter waits for no other key.
  waits-other :
      (d : Digest) (s : Store D)
      → ((k : Bytes) → waits k s ≡ true → k ≡ d)
      → (k : Bytes) → bytes_eq k d ≡ false
      → waits k s ≡ false
  waits-other d s only k apart = elim (Bool-cases (waits k s)) [
    | inl w ↦ cc (apart, (bytes_eq_iff k d).1 (only k w))
    | inr none_here ↦ none_here
  ]

  InRead-Served :
      (d : Digest) (r r' : Bool) (s s' : Store D)
      → ((k : Bytes) → Present s k → Present s' k)
      → Served r s r' s'
      → InRead d r s
      → InRead d r' s'
  InRead-Served d r r' s s' stays (quiet e same) (answered a p nobody) =
      answered (e ∙ a) (stays d p) (λ k. same k ∙ nobody k)
  InRead-Served d r r' s s' stays (quiet e same) (waiting a w only) =
      waiting (e ∙ a) (same d ∙ w) (λ k h. only k (sym (same k) ∙ h))
  InRead-Served d r r' s s' stays (woke key p e change) (answered a q nobody) =
      answered (ground arith) (stays d q) (λ k. ground (arith, change k, nobody k))
  InRead-Served d r r' s s' stays (woke key p e change) (waiting a w only) =
      elim (Bool-cases (bytes_eq key d)) [
        | inl h ↦
            let same : key ≡ d = (bytes_eq_iff key d).0 h in
            let here : waits key s ≡ true = subst (λ k. waits k s ≡ true) (sym same) w in
            answered (ground arith) (subst (Present s') same p) (λ k.
              elim (Bool-cases (bytes_eq key k)) [
                | inl at ↦ change k ∙ rw at
                | inr off ↦
                    let off' : bytes_eq k d ≡ false = grind (keys) in
                    change k ∙ rw (off, waits-other d s only k off')
              ])
        | inr h ↦
            let missed = waits-other d s only key h in
            waiting (ground arith) (ground (arith, change d))
              (λ k u. only k (ground (arith, change k)))
      ]

  module _ (missing : List Digest) where
    -- Where the goroutine stands, with the digests that it has read.
    abbrev pub Progress : Reader → Bool → Store D → Type 0
    Progress (asking left) replied s =
        (done : List Digest) × (missing ≡ done ++ left)
        × All (Present s) done
        × (replied ≡ false)
        × NoneWaits s
    Progress (reading d left) replied s =
        (done : List Digest) × (missing ≡ done ++ d ∷ left)
        × All (Present s) done
        × InRead d replied s
    Progress finished replied s = All (Present s) missing

    pub Progress-Served :
        (rd : Reader) (r r' : Bool) (s s' : Store D)
        → ((k : Bytes) → Present s k → Present s' k)
        → Served r s r' s'
        → Progress rd r s
        → Progress rd r' s'
    Progress-Served (asking left) r r' s s' stays (quiet e same) (done, split, there, a, nobody) = (
      done,
      split,
      All-imp (Present s) (Present s') done stays there,
      e ∙ a,
      λ k. same k ∙ nobody k,
    )
    Progress-Served (asking left) r r' s s' stays (woke key p e change)
          (done, split, there, a, nobody) =
        (
          done,
          split,
          All-imp (Present s) (Present s') done stays there,
          ground (arith, nobody key),
          λ k. ground (arith, change k, nobody k),
        )
    Progress-Served (reading d left) r r' s s' stays m (done, split, there, at) = (
      done,
      split,
      All-imp (Present s) (Present s') done stays there,
      InRead-Served d r r' s s' stays m at,
    )
    Progress-Served finished r r' s s' stays m there =
        All-imp (Present s) (Present s') missing stays there

  -- The waiter's own request.
  asked-InRead :
      (d : Digest) (s : Store D) (val : Bytes) (e : Option Error)
      → (db.get d s.db).1 ≡ e
      → NoneWaits s
      → let (out, s') = notified db (notify_req d me) s val e in InRead d (any_of me out) s'
  unfolding any_of
  asked-InRead d s val none g nobody = answered (ground arith) g nobody
  asked-InRead d s val (some e) g nobody =
      let req = notify_req d me in
      let q = queue_of d s.pending ++ req ∷ [] in
      waiting refl
        (rw (queue_of-insert d d q s.pending, (bytes_eq_iff d d).1 refl)
          (any_of-snoc me (queue_of d s.pending) req ∙ ground arith))
        (λ k u. elim (Bool-cases (bytes_eq d k)) [
          | inl h ↦ sym ((bytes_eq_iff d k).0 h)
          | inr h ↦ ground (arith, queue_of-insert d k q s.pending, nobody k)
        ])

  pub notified-Present :
      (req : StoreReq) (s : Store D) (val : Bytes) (e : Option Error) (k : Bytes)
      → Present s k
      → Present (notified db req s val e).1 k
  notified-Present req s val none k h = h
  notified-Present req s val (some e) k h = h

  module _ (missing : List Digest) where
    pub reader_moves-Progress :
        (rd : Reader) (w : WaiterState D)
        → w.reader ≡ rd
        → Progress missing rd w.replied w.store
        → let w' = reader_moves db me rd w in Progress missing w'.reader w'.replied w'.store
    unfolding request serve
    reader_moves-Progress (asking []) w at (done, split, there, a, nobody) =
        subst (All (Present w.store)) (sym (split ∙ append-nil done)) there
    reader_moves-Progress (asking (d ∷ left)) w at (done, split, there, a, nobody) =
        let (val, e) = db.get d w.store.db in
        let s' = (notified db (notify_req d me) w.store val e).1 in
        (
          done,
          split,
          All-imp (Present w.store) (Present s') done
              (notified-Present (notify_req d me) w.store val e) there,
          rw (a) (asked-InRead d w.store val e refl nobody),
        )
    reader_moves-Progress (reading d left) w at (done, split, there, answered a p nobody) = rw (a) (
      done ++ d ∷ [],
      split ∙ sym (append_assoc done (d ∷ []) left),
      All-append (Present w.store) done (d ∷ []) there (p, tt),
      refl,
      nobody,
    )
    reader_moves-Progress (reading d left) w at (done, split, there, waiting a u only) =
        rw (a, at) (done, split, there, waiting refl u only)
    reader_moves-Progress finished w at there = rw (at) there
