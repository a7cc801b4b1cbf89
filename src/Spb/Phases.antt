-- ===== src/Spb/Phases.antt =====
-- What a goroutine of core/smvba/consensus/spb.go, run as one step, keeps of its instance.
use s_mvba.Base.{
  ℕ, suc, ◌+◌, List, [], ◌∷◌, ◌++◌, Option, none, some, Bool, true, false, ◌≡◌, arith,
  if◌then◌else◌,
}
use s_mvba.Error.{Outcome, ok, err, panic}
use s_mvba.Crypto.{Digest, Primitives}
use s_mvba.Message.{SpbProposal, SpbVote}
use s_mvba.Spb.{Site, Spb, Step, Effect, process_proposal, process_vote}

abbrev pub Held : Option Digest → Spb → Type 0
Held none s = (s.lock_flag ≡ false) × (s.votes ≡ [])
Held (some d) s = (s.un_handle_vote ≡ []) × (s.un_handle_proposal ≡ [])

-- An instance with no block is not locked and has counted no vote; one that has a block has
-- nothing queued.
abbrev pub Inv : Spb → Type 0
Inv s = Held s.block_hash s

abbrev pub Keeps : Option Digest → Spb → Spb → Type 0
Keeps none s t = Unit
Keeps (some d) s t = (t.block_hash ≡ some d) × (s.lock_flag ≡ true → t.lock_flag ≡ true)

pub data Task : Type 0 where
  proposal : SpbProposal → Task
  vote : SpbVote → Task

unfoldable pub run_task : Primitives → Site → Task → Spb → Step
run_task cr n (proposal p) s = process_proposal cr n p s
run_task cr n (vote v) s = process_vote cr n v s

abbrev pub effects_of : Outcome (List Effect) → List Effect
effects_of (ok es) = es
effects_of (err _) = []
effects_of panic = []

-- The goroutines of an instance, one after the other.
unfoldable pub run_tasks : Primitives → Site → List Task → Spb → List Effect × Spb
run_tasks cr n [] s = ([], s)
run_tasks cr n (t ∷ ts) s =
    let (o, s') = run_task cr n t s in
    let (es, s'') = run_tasks cr n ts s' in (effects_of o ++ es, s'')

abbrev pub count_if {ℓ} : {A : Type ℓ} → (A → Bool) → List A → ℕ
count_if p [] = 0
count_if p (x ∷ xs) = let rest = count_if p xs in if p x then suc rest else rest

pub count_if-append {ℓ} :
    {A : Type ℓ} (p : A → Bool) (xs ys : List A)
    → count_if p (xs ++ ys) ≡ count_if p xs + count_if p ys
count_if-append p [] ys = omega arith
count_if-append p (x ∷ xs) ys = ground (arith, count_if-append p xs ys)

module _ (cr : Primitives) (n : Site) where
  -- Every goroutine keeps the invariant, never takes another block in the place of the one that
  -- is held, and never unlocks an instance that holds a block.
  pub run_task-Inv :
      (t : Task) (s : Spb)
      → Inv s
      → Inv (run_task cr n t s).1 × Keeps s.block_hash s (run_task cr n t s).1
  unfolding run_task process_proposal process_vote
  run_task-Inv (proposal p) s v = ground arith
  run_task-Inv (vote p) s v = ground arith
