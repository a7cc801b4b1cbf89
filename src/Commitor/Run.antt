-- ===== src/Commitor/Run.antt =====
-- core/smvba/consensus/commitor.go: the goroutine that reads the payloads of a committed block and signals
-- the call-back. What it logs is not modelled.
use s_mvba.Base.{ℕ, suc, List, [], ◌∷◌, Option, none, some, All, length, ◌≡◌, ◌≢◌, ◌↔◌, refl, arith}
use s_mvba.Error.{Outcome, ok, err, panic}
use s_mvba.Crypto.{Digest, Primitives}
use s_mvba.Message.{ConsensusBlock}
use s_mvba.Mempool.{Block, Disk, MempoolSite, Mempool}
use s_mvba.Mempool.Handlers.{get_block}

-- A nil block is dereferenced; an error is logged.
abbrev pub payload_seen : Outcome (Option Block) → Outcome (Unit {0}) → Outcome (Unit {0})
payload_seen (ok (some b)) rest = rest
payload_seen (ok none) rest = panic
payload_seen (err e) rest = rest
payload_seen panic rest = panic

-- A block and the blocks after it: how many call-backs there are, and how the goroutine ends.
abbrev pub signalled : Outcome (Unit {0}) → ℕ × Outcome (Unit {0}) → ℕ × Outcome (Unit {0})
signalled (ok _) (k, o) = (suc k, o)
signalled (err e) rest = (0, err e)
signalled panic rest = (0, panic)

module _ {W : Type 0} (dk : Disk W) (cr : Primitives) (n : MempoolSite) where
  -- The payloads of a block, where `live j` is the mempool when the j-th of them is asked for.
  unfoldable pub look_up : (ℕ → Mempool W) → ℕ → List Digest → Outcome (Unit {0})
  look_up live j [] = ok tt
  look_up live j (d ∷ ds) =
      let rest = look_up live (suc j) ds in payload_seen (get_block dk cr n d (live j)).0 rest

  -- `run`, over what is written to `commitCh`, each block with the mempool as it changes meanwhile.
  unfoldable pub run_committor : List (ConsensusBlock × (ℕ → Mempool W)) → ℕ × Outcome (Unit {0})
  unfolding look_up
  run_committor [] = (0, ok tt)
  run_committor ((b, live) ∷ bs) =
      let rest = run_committor bs in signalled (look_up live 0 b.pay_loads) rest

  -- What the mempool answers for a payload that it has, or cannot read.
  abbrev pub Answered : Outcome (Option Block) → Type 0
  Answered o = (o ≢ ok none) × (o ≢ panic)

  payload_seen_ok :
      (o : Outcome (Option Block)) (rest : Outcome (Unit {0}))
      → (payload_seen o rest ≡ ok tt) ↔ (Answered o × (rest ≡ ok tt))
  payload_seen_ok (ok (some b)) rest = (λ h. ((λ e. cc, λ e. cc), h), λ h. h.1)
  payload_seen_ok (ok none) rest = (λ h. absurd cc, λ h. absurd (h.0.0 refl))
  payload_seen_ok (err e) rest = (λ h. ((λ e. cc, λ e. cc), h), λ h. h.1)
  payload_seen_ok panic rest = (λ h. absurd cc, λ h. absurd (h.0.1 refl))

  abbrev pub AllAnswered : (ℕ → Mempool W) → ℕ → List Digest → Type 0
  AllAnswered live j [] = Unit
  AllAnswered live j (d ∷ ds) =
      Answered (get_block dk cr n d (live j)).0 × AllAnswered live (suc j) ds

  look_up_ok :
      (live : ℕ → Mempool W) (j : ℕ) (ds : List Digest)
      → (look_up live j ds ≡ ok tt) ↔ AllAnswered live j ds
  unfolding look_up
  look_up_ok live j [] = (λ h. tt, λ h. refl)
  look_up_ok live j (d ∷ ds) =
      let now = payload_seen_ok (get_block dk cr n d (live j)).0 (look_up live (suc j) ds) in
      let later = look_up_ok live (suc j) ds in
      (λ h. ((now.0 h).0, later.0 (now.0 h).1), λ h. now.1 (h.0, later.1 h.1))

  signalled_ok :
      (o : Outcome (Unit {0})) (r : ℕ × Outcome (Unit {0})) (k : ℕ)
      → (signalled o r ≡ (suc k, ok tt)) ↔ ((o ≡ ok tt) × (r ≡ (k, ok tt)))
  signalled_ok (ok tt) (j, p) k = (λ h. (refl, grind arith), λ h. grind arith)
  signalled_ok (err e) r k = (λ h. absurd grind arith, λ h. absurd cc)
  signalled_ok panic r k = (λ h. absurd grind arith, λ h. absurd cc)

  -- Every committed block is signalled by a call-back, and the goroutine goes on, exactly when the mempool,
  -- as it is at each call, has the payload or answers an error for it: a payload that is not there, which
  -- is no error of the mempool, ends the process.
  pub run_committor_lem :
      (bs : List (ConsensusBlock × (ℕ → Mempool W)))
      → (run_committor bs ≡ (length bs, ok tt)) ↔ All (λ b. AllAnswered b.1 0 b.0.pay_loads) bs
  unfolding run_committor
  run_committor_lem [] = (λ h. tt, λ h. refl)
  run_committor_lem ((b, live) ∷ bs) =
      let now = signalled_ok (look_up live 0 b.pay_loads) (run_committor bs) (length bs) in
      let this = look_up_ok live 0 b.pay_loads in
      let later = run_committor_lem bs in
      (λ h. (this.0 (now.0 h).0, later.0 (now.0 h).1), λ h. now.1 (this.1 h.0, later.1 h.1))
