-- ===== src/Store/Wakeups.antt =====
-- No reader of store/store.go waits for a key that the database has.
use s_mvba.Base.{
  ◌⊎◌, subst, Option, none, some, [], ◌∷◌, ◌++◌, ◌≡◌, ◌≢◌, refl, ◌∙◌, digest_eq, bytes_eq,
  bytes_eq_iff, Bool-cases, inl, inr,
}
use s_mvba.Error.{Error}
use s_mvba.Crypto.{Bytes}
use s_mvba.Store.{
  Db, RequestType, read, write, notify_read, StoreReq, Store, queue_of, notified, serve_as,
}
use s_mvba.Store.Waiting.{queue_of-insert, queue_of-delete}

module _ {D : Type 0} (db : Db D) where
  abbrev pub Absent : Store D → Type 0
  Absent s =
      (k : Bytes) → (queue_of k s.pending ≡ []) ⊎ ((e : Error) × ((db.get k s.db).1 ≡ some e))

  notified-Absent :
      (req : StoreReq) (s : Store D) (val : Bytes) (e : Option Error)
      → (db.get req.key s.db).1 ≡ e
      → Absent s
      → Absent (notified db req s val e).1
  notified-Absent req s val none g a k = a k
  notified-Absent req s val (some e) g a k = elim (Bool-cases (bytes_eq req.key k)) [
    | inl h ↦ inr (e, subst (λ j. (db.get j s.db).1 ≡ some e) ((bytes_eq_iff req.key k).0 h) g)
    | inr h ↦
        rw (queue_of-insert req.key k (queue_of req.key s.pending ++ req ∷ []) s.pending, h) (a k)
  ]

  module _ (apart : (k j v : Bytes) (d : D) → k ≢ j → db.get j (db.put k v d).1 ≡ db.get j d) where
    pub serve_as-Absent :
        (t : RequestType) (req : StoreReq) (s : Store D) → Absent s → Absent (serve_as db t req s).1
    serve_as-Absent read req s a k = a k
    serve_as-Absent write req s a k = elim (Bool-cases (bytes_eq req.key k)) [
      | inl h ↦ inl (queue_of-delete req.key k s.pending ∙ rw h)
      | inr h ↦
          rw
            (
              queue_of-delete req.key k s.pending,
              h,
              apart req.key k req.val s.db (λ e. cc ((bytes_eq_iff req.key k).1 e, h)),
            )
            (a k)
    ]
    serve_as-Absent notify_read req s a k =
        notified-Absent req s (db.get req.key s.db).0 (db.get req.key s.db).1 refl a k
