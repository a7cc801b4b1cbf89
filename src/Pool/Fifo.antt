-- ===== src/Pool/Fifo.antt =====
-- The queue of pool/pool.go as a queue: what comes out in batches is what went in, in order.
use mathlib.Core.Path.{ap₂}
use native.Mathlib.Nat.{mod-add-mod}
use s_mvba.Base.{
  subst, ℕ, zero, suc, ◌+◌, ◌*◌, ◌%◌, ◌<◌, int64, true, false, Option, none, some, List, [], ◌∷◌,
  ◌++◌, ◌≡◌, ◌≢◌, inl, inr, refl, sym, ap, ◌∙◌, set, length, length-append, length-set,
  length-replicate, append-nil, append_assoc, leb, ◌==◌, Bool-cases, arith,
}
use s_mvba.Pool.{
  Transaction, Batch, TxQueue, new_tx_queue, next_rind, is_full, write_tx, flush, take_batch,
  make_batch, add_tx, run_queue,
}
use s_mvba.Pool.Ring.{window, window-write, start, pending, InRing, take_batch_lem}

-- Fewer transactions wait than make a batch, and the place that is written next lies behind them.
pub record Ready (q : TxQueue) : Type 0 where
  pub ring_size : length q.queue ≡ q.max_queue_size
  pub some_batch : 0 < q.batch_size
  pub batch_fits : q.batch_size < q.max_queue_size
  pub few : q.nums < q.batch_size
  pub next_place : q.wind ≡ (start q + q.nums) % q.max_queue_size
  pub in_ring : InRing q.rind q.max_queue_size

new_tx_queue-Ready : (m b n id : ℕ) → 0 < b → b < m → Ready (new_tx_queue m b n id)
unfolding new_tx_queue
new_tx_queue-Ready m b n id h k = record {
  ring_size = length-replicate m [];
  some_batch = h;
  batch_fits = k;
  few = h;
  next_place = omega arith;
  in_ring = tt;
}

not_last : (r m k : ℕ) → r < m → k + 1 < m → ((r + 1) % m + k) % m ≢ r
not_last r m k h l e = grind arith

not_last_test : (r m k w : ℕ) → r < m → k + 1 < m → w ≡ ((r + 1) % m + k) % m → (w == r) ≡ false
not_last_test r m k w h l e = ground (arith, not_last r m k h l)

-- The ring is never found full.
room : (q : TxQueue) → Ready q → is_full q q.rind ≡ false
room q g = go q.rind g.in_ring g.next_place
  where
    go :
        (r : Option ℕ)
        → InRing r q.max_queue_size
        → q.wind ≡ (next_rind r q.max_queue_size + q.nums) % q.max_queue_size
        → is_full q r ≡ false
    go none i e = refl
    go (some r) i e =
        not_last_test r q.max_queue_size q.nums q.wind i (omega (arith, g.few, g.batch_fits)) e

-- The transactions of batches, in order.
abbrev pub contents : List Batch → List Transaction
contents [] = []
contents (b ∷ bs) = b.txs ++ contents bs

-- The batches are of one size, and are numbered by the `int64` of `id + n * j`, for j from `first` up to `last`.
abbrev pub Numbered : ℕ → ℕ → ℕ → ℕ → List Batch → ℕ → Type 0
Numbered id n size first [] last = first ≡ last
Numbered id n size first (b ∷ bs) last =
    (b.id ≡ int64 (id + n * first)) × (length b.txs ≡ size) × Numbered id n size (first + 1) bs last

-- What a run of the queue leaves, when the transactions `txs` come in and the batches `bs` go out.
pub record Served (txs : List Transaction) (q : TxQueue) (bs : List Batch) (q' : TxQueue)
    : Type 0 where
  pub ready : Ready q'
  pub same_batch : q'.batch_size ≡ q.batch_size
  pub same_n : q'.n ≡ q.n
  pub same_id : q'.id ≡ q.id
  pub order : contents bs ++ pending q' ≡ pending q ++ txs
  pub numbered : Numbered q.id q.n q.batch_size q.bcnt bs q'.bcnt

pending-write_tx :
    (tx : Transaction) (q : TxQueue) → Ready q → pending (write_tx tx q) ≡ pending q ++ tx ∷ []
pending-write_tx tx q g =
    ap₂ (λ (w k : ℕ). window (set q.queue w tx) q.max_queue_size (start q) 0 k) {v = suc q.nums}
      g.next_place (omega arith)
    ∙ window-write q.queue q.max_queue_size (start q) q.nums tx g.ring_size
        (omega (arith, g.few, g.batch_fits))

step_on : (s k m w : ℕ) → w ≡ (s + k) % m → (w + 1) % m ≡ (s + (k + 1)) % m
step_on s k m w e =
    ap (λ (x : ℕ). (x + 1) % m) e ∙ mod-add-mod (s + k) m 1 ∙ ap (λ (x : ℕ). x % m) (omega arith)

rests : (x m s k n : ℕ) → s ≡ x % m → k ≡ 0 → n ≡ m → x % m ≡ (s + k) % n
rests x m s k n p q r = rw (p, q, r) (sym (mod-add-mod x m 0 ∙ ap (λ (y : ℕ). y % m) (omega arith)))

length-window : (ring : List Transaction) (m s i k : ℕ) → length (window ring m s i k) ≡ k
length-window ring m s i zero = refl
length-window ring m s i (suc k) = ap suc (length-window ring m s (suc i) k)

write_tx-Served :
    (tx : Transaction) (q : TxQueue)
    → Ready q
    → leb q.batch_size (q.nums + 1) ≡ false
    → Served (tx ∷ []) q [] (write_tx tx q)
write_tx-Served tx q g h = record {
  ready = record {
    ring_size = length-set q.queue q.wind tx ∙ g.ring_size;
    some_batch = g.some_batch;
    batch_fits = g.batch_fits;
    few = ground arith;
    next_place = step_on (start q) q.nums q.max_queue_size q.wind g.next_place;
    in_ring = g.in_ring;
  };
  same_batch = refl;
  same_n = refl;
  same_id = refl;
  order = pending-write_tx tx q g;
  numbered = refl;
}

flush-Served :
    (tx : Transaction) (q : TxQueue)
    → Ready q
    → leb q.batch_size (q.nums + 1) ≡ true
    → Served (tx ∷ []) q (flush (write_tx tx q)).0 (flush (write_tx tx q)).1
unfolding make_batch
flush-Served tx q g h =
    let q1 = write_tx tx q in
    let (e, t) = take_batch_lem q.batch_size q1 [] (omega (arith, g.batch_fits)) in
    let full : q.nums + 1 ≡ q.batch_size = ground (arith, g.few) in
    let out : (take_batch q.batch_size q1 []).0 ≡ pending q ++ tx ∷ [] =
      e
      ∙ ap (λ (k : ℕ). window q1.queue q.max_queue_size (start q) 0 k) (sym full)
      ∙ pending-write_tx tx q g in
    let none_left : (take_batch q.batch_size q1 []).1.nums ≡ 0 = t.fewer ∙ omega (arith, full) in
    record {
      ready = record {
        ring_size =
            ap length t.same_queue ∙ length-set q.queue q.wind tx ∙ g.ring_size ∙ sym t.same_max;
        some_batch = omega (arith, t.same_batch, g.some_batch);
        batch_fits = omega (arith, t.same_batch, t.same_max, g.batch_fits);
        few = omega (arith, t.same_batch, none_left, g.some_batch);
        next_place =
            t.same_wind
            ∙ step_on (start q) q.nums q.max_queue_size q.wind g.next_place
            ∙ ap (λ (k : ℕ). (start q + k) % q.max_queue_size) full
            ∙ rests (start q + q.batch_size) q.max_queue_size _ _ _ t.moved none_left t.same_max;
        in_ring =
            subst (InRing (take_batch q.batch_size q1 []).1.rind) (sym t.same_max)
              (t.stays_in g.in_ring);
      };
      same_batch = t.same_batch;
      same_n = t.same_n;
      same_id = t.same_id;
      order =
          ap₂ (λ a b. (a ++ []) ++ b) out
            (ap
              (λ (k : ℕ).
                window (take_batch q.batch_size q1 []).1.queue
                  (take_batch q.batch_size q1 []).1.max_queue_size
                  (start (take_batch q.batch_size q1 []).1) 0 k)
              none_left)
          ∙ append-nil ((pending q ++ tx ∷ []) ++ [])
          ∙ append-nil (pending q ++ tx ∷ []);
      numbered = (
        refl,
        ap length out
            ∙ length-append (pending q) (tx ∷ [])
            ∙ omega (arith, full, length-window q.queue q.max_queue_size (start q) 0 q.nums),
        ap (λ (x : ℕ). x + 1) (sym t.same_bcnt),
      );
    }

add_tx-Served :
    (tx : Transaction) (q : TxQueue) → Ready q → Served (tx ∷ []) q (add_tx tx q).0 (add_tx tx q).1
unfolding add_tx
add_tx-Served tx q g = elim (Bool-cases (leb q.batch_size (q.nums + 1))) [
  | inl h ↦ rw (room q g, h) (flush-Served tx q g h)
  | inr h ↦ rw (room q g, h) (write_tx-Served tx q g h)
]

contents-append : (bs cs : List Batch) → contents (bs ++ cs) ≡ contents bs ++ contents cs
contents-append [] cs = refl
contents-append (b ∷ bs) cs =
    ap (λ t. b.txs ++ t) (contents-append bs cs)
    ∙ sym (append_assoc b.txs (contents bs) (contents cs))

Numbered-append :
    (id n size first middle last : ℕ) (bs cs : List Batch)
    → Numbered id n size first bs middle
    → Numbered id n size middle cs last
    → Numbered id n size first (bs ++ cs) last
Numbered-append id n size first middle last [] cs e h = rw e h
Numbered-append id n size first middle last (b ∷ bs) cs (p, l, h) k =
    (p, l, Numbered-append id n size (first + 1) middle last bs cs h k)

Served-trans :
    (txs uxs : List Transaction) (q r s : TxQueue) (bs cs : List Batch)
    → Served txs q bs r
    → Served uxs r cs s
    → Served (txs ++ uxs) q (bs ++ cs) s
Served-trans txs uxs q r s bs cs f g = record {
  ready = g.ready;
  same_batch = g.same_batch ∙ f.same_batch;
  same_n = g.same_n ∙ f.same_n;
  same_id = g.same_id ∙ f.same_id;
  order =
      ap (λ t. t ++ pending s) (contents-append bs cs)
      ∙ append_assoc (contents bs) (contents cs) (pending s)
      ∙ ap (λ t. contents bs ++ t) g.order
      ∙ sym (append_assoc (contents bs) (pending r) uxs)
      ∙ ap (λ t. t ++ uxs) f.order
      ∙ append_assoc (pending q) txs uxs;
  numbered =
      Numbered-append q.id q.n q.batch_size q.bcnt r.bcnt s.bcnt bs cs f.numbered
        (rw (← f.same_id, ← f.same_n, ← f.same_batch) g.numbered);
}

run_queue-Served :
    (txs : List Transaction) (q : TxQueue)
    → Ready q
    → Served txs q (run_queue txs q).0 (run_queue txs q).1
unfolding run_queue
run_queue-Served [] q g = record {
  ready = g;
  same_batch = refl;
  same_n = refl;
  same_id = refl;
  order = sym (append-nil (pending q));
  numbered = refl;
}
run_queue-Served (tx ∷ txs) q g =
    let one = add_tx-Served tx q g in
    Served-trans (tx ∷ []) txs q (add_tx tx q).1 _ (add_tx tx q).0 _ one
      (run_queue-Served txs (add_tx tx q).1 one.ready)

-- A new queue whose batches are not empty and smaller than its ring drops nothing and keeps the order:
-- what the batches hold, followed by what still waits, is what came in; all batches are of the batch
-- size and have the numbers id, id + N, id + 2N, ..., as an int64 that wraps around; and less than a
-- batch waits.
pub run_queue_lem :
    (max_queue_size batch_size n id : ℕ) (txs : List Transaction)
    → 0 < batch_size
    → batch_size < max_queue_size
    → let (bs, q) = run_queue txs (new_tx_queue max_queue_size batch_size n id) in
      (contents bs ++ pending q ≡ txs)
      × Numbered id n batch_size 0 bs q.bcnt
      × (length (pending q) < batch_size)
unfolding new_tx_queue
run_queue_lem m b n id txs h k =
    let q = (run_queue txs (new_tx_queue m b n id)).1 in
    let s = run_queue-Served txs (new_tx_queue m b n id) (new_tx_queue-Ready m b n id h k) in
    let g = s.ready in
    (
      s.order,
      s.numbered,
      omega (arith, length-window q.queue q.max_queue_size (start q) 0 q.nums, g.few, s.same_batch),
    )

-- Once the place that is written next is the one that was read last, the queue drops every
-- transaction, for ever: no batch comes out and nothing changes.
pub full_ring_stuck :
    (txs : List Transaction) (q : TxQueue) → q.rind ≡ some q.wind → run_queue txs q ≡ ([], q)
unfolding run_queue add_tx
full_ring_stuck [] q h = refl
full_ring_stuck (tx ∷ txs) q h = ground (arith, full_ring_stuck txs q h)
