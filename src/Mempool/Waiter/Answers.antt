-- ===== src/Mempool/Waiter/Answers.antt =====
-- When `waiter` of mempool/synchronizer.go answers its block.
use s_mvba.Base.{
  ℕ, Bool, true, false, ◌||◌, ◌==◌, List, [], ◌∷◌, Option, none, some, All, All-imp, ◌≡◌, ◌≢◌, refl,
  ◌∙◌, subst, ◌⊎◌, inl, inr, Bool-cases, bytes_eq, bytes_eq_iff, digest_eq, lookup, some-injective,
  if◌then◌else◌,
}
use s_mvba.Crypto.{Bytes, Digest, zero_digest}
use s_mvba.Store.{
  Db, RequestType, read, write, notify_read, StoreReq, Store, new_store, notify_req, queue_of,
  serve_as, serve,
}
use s_mvba.Store.Wakeups.{Absent, serve_as-Absent}
use s_mvba.Mempool.Waiter.{
  Reader, asking, reading, finished, WaiterState, WaiterEvent, other, go_on, close_notify,
  see_finish, see_notify, new_waiter, any_of, answer_with, is_finished, request, reader_moves,
  waiter_step, waiter_run,
}
use s_mvba.Mempool.Waiter.Progress.{
  Present, Progress, serve_as-Served, Progress-Served, reader_moves-Progress, notified-Present,
}

-- The requests of other callers have other channels.
abbrev pub IsForeign : ℕ → WaiterEvent → Type 0
IsForeign me (other req) = (req.done == me) ≡ false
IsForeign me _ = Unit

module _ {D : Type 0} (db : Db D) (me : ℕ)
    (kept : (k v : Bytes) (d : D) → (db.get k (db.put k v d).1).1 ≡ none)
    (apart : (k j v : Bytes) (d : D) → k ≢ j → db.get j (db.put k v d).1 ≡ db.get j d)
    (block : Digest) (missing : List Digest) where
  pub serve_as-Present :
      (t : RequestType) (req : StoreReq) (s : Store D) (k : Bytes)
      → Present db me s k
      → Present db me (serve_as db t req s).1 k
  serve_as-Present read req s k h = h
  serve_as-Present write req s k h = elim (Bool-cases (bytes_eq req.key k)) [
    | inl e ↦
        subst (λ j. (db.get j (db.put req.key req.val s.db).1).1 ≡ none)
          ((bytes_eq_iff req.key k).0 e) (kept req.key req.val s.db)
    | inr e ↦ rw (apart req.key k req.val s.db (λ q. cc ((bytes_eq_iff req.key k).1 q, e))) h
  ]
  serve_as-Present notify_read req s k h =
      notified-Present db me req s (db.get req.key s.db).0 (db.get req.key s.db).1 k h

  -- An answer is the block, with all its payloads in the database, or the zero digest after a close.
  abbrev pub Truthful : Store D → Bool → Option Digest → Type 0
  Truthful s closed answer =
      (d : Digest)
      → answer ≡ some d
      → ((d ≡ zero_digest) × (closed ≡ true)) ⊎ ((d ≡ block) × All (Present db me s) missing)

  abbrev pub Sound : WaiterState D → Type 0
  Sound w =
      Progress db me missing w.reader w.replied w.store
      × Absent db w.store
      × Truthful w.store w.closed w.answer

  Truthful-stays :
      (s s' : Store D) (closed : Bool) (answer : Option Digest)
      → ((k : Bytes) → Present db me s k → Present db me s' k)
      → Truthful s closed answer
      → Truthful s' closed answer
  Truthful-stays s s' closed answer stays t d h = elim (t d h) [
    | inl z ↦ inl z
    | inr (e, all) ↦ inr (e, All-imp (Present db me s) (Present db me s') missing stays all)
  ]

  request-Sound :
      (req : StoreReq) (w : WaiterState D)
      → (req.done == me) ≡ false
      → Sound w
      → Sound (request db me req w)
  unfolding request serve
  request-Sound req w foreign (p, a, t) =
      let s' = (serve_as db req.typ req w.store).1 in
      let stays = serve_as-Present req.typ req w.store in
      (
        Progress-Served db me missing w.reader w.replied
            (w.replied || any_of me (serve_as db req.typ req w.store).0) w.store s' stays
            (serve_as-Served db me kept req.typ w.replied req w.store foreign) p,
        serve_as-Absent db apart req.typ req w.store a,
        Truthful-stays w.store s' w.closed w.answer stays t,
      )

  reader_moves-Truthful :
      (rd : Reader) (w : WaiterState D)
      → Absent db w.store
      → Truthful w.store w.closed w.answer
      → let w' = reader_moves db me rd w in
        Absent db w'.store × Truthful w'.store w'.closed w'.answer
  unfolding request serve
  reader_moves-Truthful (asking []) w a t = (a, t)
  reader_moves-Truthful (asking (d ∷ left)) w a t =
      let req = notify_req d me in
      (
        serve_as-Absent db apart notify_read req w.store a,
        Truthful-stays w.store (serve_as db notify_read req w.store).1 w.closed w.answer
            (serve_as-Present notify_read req w.store) t,
      )
  reader_moves-Truthful (reading d left) w a t = go w.replied
    where
      go :
          (b : Bool)
          → let w' = if b then record w { reader = asking left; replied = false } else w in
            Absent db w'.store × Truthful w'.store w'.closed w'.answer
      go true = (a, t)
      go false = (a, t)
  reader_moves-Truthful finished w a t = (a, t)

  pub go_on-Sound : (w : WaiterState D) → Sound w → Sound (reader_moves db me w.reader w)
  go_on-Sound w (p, a, t) =
      let (a', t') = reader_moves-Truthful w.reader w a t in
      (reader_moves-Progress db me missing w.reader w refl p, a', t')

  answer_with-Sound :
      (ready : Bool) (d : Digest) (w : WaiterState D)
      → (ready ≡ true
          → ((d ≡ zero_digest) × (w.closed ≡ true))
            ⊎ ((d ≡ block) × All (Present db me w.store) missing))
      → Sound w
      → Sound (answer_with ready d w)
  answer_with-Sound false d w good g = g
  answer_with-Sound true d w good (p, a, t) = go w.answer refl
    where
      go : (o : Option Digest) → w.answer ≡ o → Sound (answer_with true d w)
      go none e = rw (e) (p, a, λ x h. rw (← some-injective d x h) (good refl))
      go (some x) e = rw (e) (p, a, λ y h. t y (e ∙ h))

  finished-All :
      (w : WaiterState D)
      → Progress db me missing w.reader w.replied w.store
      → is_finished w.reader ≡ true
      → All (Present db me w.store) missing
  finished-All w p h = go w.reader p h
    where
      go :
          (rd : Reader)
          → Progress db me missing rd w.replied w.store
          → is_finished rd ≡ true
          → All (Present db me w.store) missing
      go (asking left) q e = absurd cc
      go (reading d left) q e = absurd cc
      go finished q e = q

  step-Sound :
      (e : WaiterEvent) (w : WaiterState D)
      → IsForeign me e
      → Sound w
      → Sound (waiter_step db me block e w)
  unfolding waiter_step
  step-Sound (other req) w foreign g = request-Sound req w foreign g
  step-Sound go_on w f g = go_on-Sound w g
  step-Sound close_notify w f (p, a, t) =
      (p, a, λ d h. elim (t d h) [ inl (z, shut) ↦ inl (z, refl) | inr all ↦ inr all ])
  step-Sound see_finish w f g =
      answer_with-Sound (is_finished w.reader) block w (λ h. inr (refl, finished-All w g.0 h)) g
  step-Sound see_notify w f g = answer_with-Sound w.closed zero_digest w (λ h. inl (refl, h)) g

  pub run-Sound :
      (es : List WaiterEvent) (w : WaiterState D)
      → All (IsForeign me) es
      → Sound w
      → Sound (waiter_run db me block es w)
  unfolding waiter_run
  run-Sound [] w f g = g
  run-Sound (e ∷ es) w (here, more) g =
      run-Sound es (waiter_step db me block e w) more (step-Sound e w here g)

  pub start-Sound : (d : D) → Sound (new_waiter missing (new_store d))
  unfolding new_waiter new_store queue_of lookup any_of
  start-Sound d = (([], refl, tt, refl, λ k. refl), λ k. inl refl, λ x h. absurd cc)

  -- Whatever else the store serves, an answer of the block means that the database has all the payloads
  -- that were missing, when each put takes its value and changes no other key.
  pub waiter_truthful :
      (d : D) (es : List WaiterEvent)
      → All (IsForeign me) es
      → block ≢ zero_digest
      → (waiter_run db me block es (new_waiter missing (new_store d))).answer ≡ some block
      → All
          (Present db me (waiter_run db me block es (new_waiter missing (new_store d))).store)
          missing
  waiter_truthful d es f real h =
      let (p, a, t) = run-Sound es (new_waiter missing (new_store d)) f (start-Sound d) in
      elim (t block h) [ inl (z, shut) ↦ absurd (real z) | inr (e, all) ↦ all ]
