-- ===== src/Mempool/Waiter/Finishes.antt =====
-- That `waiter` of mempool/synchronizer.go answers its block.
use s_mvba.Base.{
  ℕ, zero, suc, ◌+◌, ◌-◌, ◌*◌, ◌≤◌, Bool, true, false, List, [], ◌∷◌, ◌++◌, Option, none, some, All,
  All-imp, ◌≡◌, ◌≢◌, refl, sym, ◌∙◌, subst, ap, inl, inr, digest_eq, arith, length, length-append,
  replicate, if◌then◌else◌,
}
use s_mvba.Crypto.{Bytes, Digest}
use s_mvba.Store.{Db, notify_read, Store, new_store, notify_req, serve}
use s_mvba.Store.Wakeups.{Absent}
use s_mvba.Mempool.Waiter.{
  Reader, asking, reading, finished, WaiterState, WaiterEvent, go_on, see_finish, new_waiter,
  any_of, answer_with, is_finished, request, reader_moves, waiter_step, waiter_run,
}
use s_mvba.Mempool.Waiter.Progress.{Present, answered, waiting, Progress}
use s_mvba.Mempool.Waiter.Answers.{
  IsForeign, Sound, run-Sound, start-Sound, go_on-Sound, serve_as-Present,
}

-- How many moves the goroutine has left.
abbrev moves_left : Reader → ℕ
moves_left (asking left) = 2 * length left + 1
moves_left (reading d left) = 2 * length left + 2
moves_left finished = 0

none_left : (rd : Reader) → moves_left rd ≤ 0 → rd ≡ finished
none_left (asking left) h = absurd (omega arith)
none_left (reading d left) h = absurd (omega arith)
none_left finished h = refl

module _ {D : Type 0} (db : Db D) (me : ℕ)
    (kept : (k v : Bytes) (d : D) → (db.get k (db.put k v d).1).1 ≡ none)
    (apart : (k j v : Bytes) (d : D) → k ≢ j → db.get j (db.put k v d).1 ≡ db.get j d)
    (block : Digest) (missing : List Digest) where
  All-middle :
      (done : List Digest) (x : Digest) (left : List Digest) (s : Store D)
      → All (Present db me s) (done ++ x ∷ left)
      → Present db me s x
  All-middle [] x left s (h, rest) = h
  All-middle (y ∷ done) x left s (h, rest) = All-middle done x left s rest

  -- A goroutine that waits for a reply does not meet a database that has everything.
  reader_moves_left :
      (rd : Reader) (w : WaiterState D)
      → w.reader ≡ rd
      → Progress db me missing rd w.replied w.store
      → Absent db w.store
      → All (Present db me w.store) missing
      → moves_left (reader_moves db me rd w).reader ≤ moves_left rd - 1
  unfolding request any_of
  reader_moves_left (asking []) w at p a all = omega arith
  reader_moves_left (asking (d ∷ left)) w at p a all = omega arith
  reader_moves_left (reading d left) w at (done, split, there, answered r q nobody) a all =
      rw (r) (omega arith)
  reader_moves_left (reading d left) w at (done, split, there, waiting r u only) a all =
      let here = All-middle done d left w.store (subst (All (Present db me w.store)) split all) in
      elim (a d) [
        | inl empty ↦ let nobody : true ≡ false = sym u ∙ ap (any_of me) empty in cc
        | inr (e, gone) ↦ cc
      ]
  reader_moves_left finished w at p a all = rw (at) (omega arith)

  -- What a move leaves alone.
  reader_moves_rest :
      (rd : Reader) (w : WaiterState D)
      → ((reader_moves db me rd w).closed ≡ w.closed)
        × ((k : Bytes) → Present db me w.store k → Present db me (reader_moves db me rd w).store k)
  unfolding request serve
  reader_moves_rest (asking []) w = (refl, λ k h. h)
  reader_moves_rest (asking (d ∷ left)) w =
      (refl, serve_as-Present db me kept apart block missing notify_read (notify_req d me) w.store)
  reader_moves_rest (reading d left) w = go w.replied
    where
      go :
          (b : Bool)
          → let w' = if b then record w { reader = asking left; replied = false } else w in
            (w'.closed ≡ w.closed)
            × ((k : Bytes) → Present db me w.store k → Present db me w'.store k)
      go true = (refl, λ k h. h)
      go false = (refl, λ k h. h)
  reader_moves_rest finished w = (refl, λ k h. h)

  waiter_run-append :
      (es fs : List WaiterEvent) (w : WaiterState D)
      → waiter_run db me block (es ++ fs) w
        ≡ waiter_run db me block fs (waiter_run db me block es w)
  unfolding waiter_run
  waiter_run-append [] fs w = refl
  waiter_run-append (e ∷ es) fs w = waiter_run-append es fs (waiter_step db me block e w)

  abbrev Ready : WaiterState D → Type 0
  Ready w =
      Sound db me kept apart block missing w
      × (w.closed ≡ false)
      × All (Present db me w.store) missing

  drive :
      (n : ℕ) (w : WaiterState D)
      → Ready w
      → moves_left w.reader ≤ n
      → let w' = waiter_run db me block (replicate n go_on) w in Ready w' × (w'.reader ≡ finished)
  unfolding waiter_run waiter_step
  drive zero w r h = (r, none_left w.reader h)
  drive (suc n) w (g, shut, all) h =
      let w' = reader_moves db me w.reader w in
      let (same, stays) = reader_moves_rest w.reader w in
      let fewer = reader_moves_left w.reader w refl g.0 g.1 all in
      drive n w'
        (
          go_on-Sound db me kept apart block missing w g,
          same ∙ shut,
          All-imp (Present db me w.store) (Present db me w'.store) missing stays all,
        )
        (omega arith)

  moves_left-le :
      (rd : Reader) (r : Bool) (s : Store D)
      → Progress db me missing rd r s
      → moves_left rd ≤ 2 * length missing + 1
  moves_left-le (asking left) r s (done, split, there, a, nobody) =
      omega (arith, ap (length {0}) split, length-append {0} done left)
  moves_left-le (reading d left) r s (done, split, there, at) =
      omega (arith, ap (length {0}) split, length-append {0} done (d ∷ left))
  moves_left-le finished r s p = omega arith

  answer_once :
      (w : WaiterState D)
      → Ready w
      → w.reader ≡ finished
      → (answer_with (is_finished w.reader) block w).answer ≡ some block
  answer_once w (g, shut, all) at =
      subst (λ rd. (answer_with (is_finished rd) block w).answer ≡ some block) (sym at)
        (go w.answer refl)
    where
      go : (o : Option Digest) → w.answer ≡ o → (answer_with true block w).answer ≡ some block
      go none e = rw (e) refl
      go (some x) e = elim (g.2 x e) [
        | inl (z, closed) ↦ cc
        | inr (same, there) ↦ rw (e) (ap some same)
      ]

  -- No waiter is forgotten: when the database has all the payloads that were missing, whatever the store
  -- has served until then, and `notify` is not closed, the waiter answers its block after at most
  -- 2n + 1 more moves for n payloads, when each put takes its value and changes no other key.
  pub waiter_finishes :
      (d : D) (es : List WaiterEvent)
      → All (IsForeign me) es
      → (waiter_run db me block es (new_waiter missing (new_store d))).closed ≡ false
      → All
          (Present db me (waiter_run db me block es (new_waiter missing (new_store d))).store)
          missing
      → (waiter_run db me block
          (es ++ (replicate (2 * length missing + 1) go_on ++ see_finish ∷ []))
          (new_waiter missing (new_store d))).answer
        ≡ some block
  unfolding waiter_run waiter_step
  waiter_finishes d es f shut all =
      let w0 = new_waiter missing (new_store d) in
      let w = waiter_run db me block es w0 in
      let g =
        run-Sound db me kept apart block missing es w0 f
          (start-Sound db me kept apart block missing d) in
      let n = 2 * length missing + 1 in
      let (r, at) = drive n w (g, shut, all) (moves_left-le w.reader w.replied w.store g.0) in
      rw
        (
          waiter_run-append es (replicate n go_on ++ see_finish ∷ []) w0,
          waiter_run-append (replicate n go_on) (see_finish ∷ []) w,
        )
        (answer_once (waiter_run db me block (replicate n go_on) w) r at)
