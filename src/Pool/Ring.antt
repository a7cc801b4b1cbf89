-- ===== src/Pool/Ring.antt =====
-- The ring of pool/pool.go as a list of the transactions that wait in it.
use mathlib.Core.Path.{ap₂}
use native.Mathlib.Nat.{mod-add-mod, mod-eq_of_lt}
use s_mvba.Base.{
  ℕ, zero, suc, ◌+◌, ◌-◌, ◌%◌, ◌≤◌, ◌<◌, List, [], ◌∷◌, ◌++◌, ◌≡◌, ◌≢◌, refl, ap, ◌∙◌, set, get_or,
  length, get_or-set, arith, append-nil, append_assoc, Option, none, some, sym,
}
use s_mvba.Pool.{Transaction, TxQueue, next_rind, take_batch}

-- `k` places of a ring of size `m`, from the one that lies `i` behind `s`.
abbrev pub window : List Transaction → ℕ → ℕ → ℕ → ℕ → List Transaction
window ring m s i zero = []
window ring m s i (suc k) = get_or ring ((s + i) % m) [] ∷ window ring m s (suc i) k

places_differ : (m s i k : ℕ) → i < k → k < m → (s + i) % m ≢ (s + k) % m
places_differ m s i k h l e = grind arith

step_place : (m s i : ℕ) → ((s + 1) % m + i) % m ≡ (s + suc i) % m
step_place m s i = mod-add-mod (s + 1) m i ∙ ap (λ (x : ℕ). x % m) (omega arith)

-- A place behind the window can be written.
window-set :
    (ring : List Transaction) (m s i k j : ℕ) (tx : Transaction)
    → length ring ≡ m
    → i + k ≤ j
    → j < m
    → window (set ring ((s + j) % m) tx) m s i k ≡ window ring m s i k
window-set ring m s i zero j tx e h l = refl
window-set ring m s i (suc k) j tx e h l = ground (
  arith,
  window-set ring m s (suc i) k j tx e (omega arith) l,
  get_or-set ring ((s + j) % m) ((s + i) % m) tx [] (omega arith),
  places_differ m s i j (omega arith) l,
)

window-snoc :
    (ring : List Transaction) (m s i k : ℕ)
    → window ring m s i (suc k) ≡ window ring m s i k ++ get_or ring ((s + (i + k)) % m) [] ∷ []
window-snoc ring m s i zero = ap (λ (x : ℕ). get_or ring ((s + x) % m) [] ∷ []) (omega arith)
window-snoc ring m s i (suc k) =
    ap (λ t. get_or ring ((s + i) % m) [] ∷ t)
      (window-snoc ring m s (suc i) k
        ∙ ap (λ (x : ℕ). window ring m s (suc i) k ++ get_or ring ((s + x) % m) [] ∷ [])
            (omega arith))

-- What is written next stands behind what waits.
pub window-write :
    (ring : List Transaction) (m s k : ℕ) (tx : Transaction)
    → length ring ≡ m
    → k < m
    → window (set ring ((s + k) % m) tx) m s 0 (suc k) ≡ window ring m s 0 k ++ tx ∷ []
window-write ring m s k tx e h =
    window-snoc (set ring ((s + k) % m) tx) m s 0 k
    ∙ ap₂ (λ t x. t ++ x ∷ []) (window-set ring m s 0 k k tx e (omega arith) h)
        (ground
          (arith, get_or-set ring ((s + k) % m) ((s + (0 + k)) % m) tx [] (omega arith), same))
  where
    same : (s + (0 + k)) % m ≡ (s + k) % m
    same = ap (λ (x : ℕ). (s + x) % m) (omega arith)

window-shift :
    (ring : List Transaction) (m s i k : ℕ)
    → window ring m ((s + 1) % m) i k ≡ window ring m s (suc i) k
window-shift ring m s i zero = refl
window-shift ring m s i (suc k) =
    ap₂ (λ (x : ℕ) t. get_or ring x [] ∷ t) (step_place m s i) (window-shift ring m s (suc i) k)

-- The first transaction that waits.
abbrev pub start : TxQueue → ℕ
start q = next_rind q.rind q.max_queue_size

-- The transactions that wait, the oldest first.
abbrev pub pending : TxQueue → List Transaction
pending q = window q.queue q.max_queue_size (start q) 0 q.nums

-- The place that was read last is one of the ring.
abbrev pub InRing : Option ℕ → ℕ → Type 0
InRing none m = Unit
InRing (some r) m = r < m

-- What a batch of `k` leaves.
pub record Taken (k : ℕ) (q q' : TxQueue) : Type 0 where
  pub same_queue : q'.queue ≡ q.queue
  pub same_wind : q'.wind ≡ q.wind
  pub same_max : q'.max_queue_size ≡ q.max_queue_size
  pub same_batch : q'.batch_size ≡ q.batch_size
  pub same_n : q'.n ≡ q.n
  pub same_id : q'.id ≡ q.id
  pub same_bcnt : q'.bcnt ≡ q.bcnt
  pub fewer : q'.nums ≡ q.nums - k
  pub moved : start q' ≡ (start q + k) % q.max_queue_size
  pub stays_in : InRing q.rind q.max_queue_size → InRing q'.rind q.max_queue_size

start_small : (q : TxQueue) → 0 < q.max_queue_size → start q < q.max_queue_size
start_small q h = go q.rind
  where
    go : (r : Option ℕ) → next_rind r q.max_queue_size < q.max_queue_size
    go none = omega arith
    go (some r) = omega arith

first_place : (q : TxQueue) → 0 < q.max_queue_size → (start q + 0) % q.max_queue_size ≡ start q
first_place q h =
    ap (λ (x : ℕ). x % q.max_queue_size) (omega arith) ∙ mod-eq_of_lt (start_small q h)

-- A batch of `k` is made of the first `k` transactions that wait.
pub take_batch_lem :
    (k : ℕ) (q : TxQueue) (txs : List Transaction)
    → 0 < q.max_queue_size
    → ((take_batch k q txs).0 ≡ txs ++ window q.queue q.max_queue_size (start q) 0 k)
      × Taken k q (take_batch k q txs).1
unfolding take_batch
take_batch_lem zero q txs h = (
  sym (append-nil txs),
  record {
    same_queue = refl;
    same_wind = refl;
    same_max = refl;
    same_batch = refl;
    same_n = refl;
    same_id = refl;
    same_bcnt = refl;
    fewer = omega arith;
    moved = sym (first_place q h);
    stays_in = λ i. i;
  },
)
take_batch_lem (suc k) q txs h =
    let x = get_or q.queue (start q) [] in
    let q1 : TxQueue = record q { rind = some (start q); nums = q.nums - 1 } in
    let (e, t) = take_batch_lem k q1 (txs ++ x ∷ []) h in
    (
      e
          ∙ append_assoc txs (x ∷ []) (window q.queue q.max_queue_size (start q1) 0 k)
          ∙ ap₂ (λ (y : ℕ) w. txs ++ get_or q.queue y [] ∷ w) (sym (first_place q h))
              (window-shift q.queue q.max_queue_size (start q) 0 k),
      record {
        same_queue = t.same_queue;
        same_wind = t.same_wind;
        same_max = t.same_max;
        same_batch = t.same_batch;
        same_n = t.same_n;
        same_id = t.same_id;
        same_bcnt = t.same_bcnt;
        fewer = t.fewer ∙ omega arith;
        moved = t.moved ∙ step_place q.max_queue_size (start q) k;
        stays_in = λ i. t.stays_in (start_small q h);
      },
    )
