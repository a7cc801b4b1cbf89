-- ===== src/Protocol/Epochs.antt =====
-- Epochs and halts of core/smvba/consensus/core.go.
use s_mvba.Base.{
  ℤ, pos, ◌≢◌, true, false, List, ◌≡◌, inc64, ltz, ltz_irrefl, ltz_asymm, ltz_lt_le, ltz-inc64,
  max_int64, eqz, eqz_iff, insert, int_eq, lookup, lookup-insert, arith, sym, ◌∙◌, Bool-cases, inl,
  inr,
}
use s_mvba.Crypto.{Primitives}
use s_mvba.Spb.{Site}
use s_mvba.Core.{
  Services, Core, set_spb, new_core, has, messgae_filter, commit_block, Input, step, run_loop,
}
use s_mvba.Protocol.Frame.{plain, Holds, each, IsFrame}
use s_mvba.Protocol.Steps.{step-Holds, run_loop-Holds}

abbrev pub IsHalted : {W : Type 0} → ℤ → Core W → Type 0
IsHalted e c = has (lookup e c.halt_flags) ≡ true

-- The epoch is not smaller, and what was halted stays halted.
abbrev pub Later : {W : Type 0} → Core W → Core W → Type 0
Later c d = (ltz d.epoch c.epoch ≡ false) × ((e : ℤ) → IsHalted e c → IsHalted e d)

-- Every halted epoch, but the last that an int64 can count, lies below the node's epoch.
abbrev pub HaltsBelow : {W : Type 0} → Core W → Type 0
HaltsBelow c = (e : ℤ) → IsHalted e c → e ≢ pos max_int64 → ltz e c.epoch ≡ true

ltz_le_trans : (a b c : ℤ) → ltz b a ≡ false → ltz c b ≡ false → ltz c a ≡ false
ltz_le_trans a b c h k = elim (Bool-cases (ltz c a)) [
  | inl l ↦ cc (ltz_lt_le c a b l h)
  | inr r ↦ r
]

ltz_trans : (a b c : ℤ) → ltz a b ≡ true → ltz b c ≡ true → ltz a c ≡ true
ltz_trans a b c h k = ltz_lt_le a b c h (ltz_asymm b c k)

IsHalted-insert :
    {W : Type 0} (e h : ℤ) (c : Core W)
    → IsHalted e c
    → has (lookup e (insert h tt c.halt_flags)) ≡ true
IsHalted-insert e h c k = ground (arith, lookup-insert h e tt c.halt_flags)

module _ {W : Type 0} where
  stay : (c : Core W) → Later c c
  stay c = (ltz_irrefl c.epoch, λ e h. h)

  -- Keeping the invariant, as a relation.
  abbrev Keeps : Core W → Core W → Type 0
  Keeps c d = HaltsBelow c → HaltsBelow d

  below_halt_only :
      (c : Core W) (e : ℤ)
      → ltz c.epoch (inc64 e) ≡ false
      → Keeps c (record c { halt_flags = insert e tt c.halt_flags })
  below_halt_only c e h good x k m = elim (Bool-cases (eqz e x)) [
    | inl q ↦
        let same = (eqz_iff e x).0 q in
        rw (← same) (ltz_lt_le e (inc64 e) c.epoch (ltz-inc64 e (λ z. m (sym same ∙ z))) h)
    | inr q ↦ good x (ground (arith, lookup-insert e x tt c.halt_flags)) m
  ]

  below_halt :
      (c : Core W) (e : ℤ)
      → ltz c.epoch (inc64 e) ≡ true
      → Keeps c (record c { halt_flags = insert e tt c.halt_flags; epoch = inc64 e })
  below_halt c e h good x k m = elim (Bool-cases (eqz e x)) [
    | inl q ↦ let same = (eqz_iff e x).0 q in rw (← same) (ltz-inc64 e (λ z. m (sym same ∙ z)))
    | inr q ↦
        ltz_trans x c.epoch (inc64 e) (good x (ground (arith, lookup-insert e x tt c.halt_flags)) m)
          h
  ]

module _ {W : Type 0} {cr : Primitives} {n : Site} where
  Later-IsFrame : IsFrame (Later {W = W}) cr n
  unfolding commit_block set_spb
  Later-IsFrame = record {
    here = stay;
    then = λ a b c p q. (ltz_le_trans a.epoch b.epoch c.epoch p.0 q.0, λ e h. q.1 e (p.1 e h));
    on_world = λ c w. stay c;
    on_emit = λ c e p. stay c;
    on_aggreator = λ c a. stay c;
    on_elector = λ c e. stay c;
    on_commit = λ c b. stay c;
    on_finish = λ c m. stay c;
    on_spb = λ c e r x s m. stay c;
    on_ready = λ c m. stay c;
    on_done_row = λ c e. stay c;
    on_announce = λ c e r h. stay c;
    on_halt_only = λ c e h. (ltz_irrefl c.epoch, λ x k. IsHalted-insert x e c k);
    on_halt = λ c e h. (ltz_asymm c.epoch (inc64 e) h, λ x k. IsHalted-insert x e c k);
  }

  HaltsBelow-IsFrame : IsFrame (Keeps {W = W}) cr n
  unfolding commit_block set_spb
  HaltsBelow-IsFrame = record {
    here = λ c g. g;
    then = λ a b c p q g. q (p g);
    on_world = λ c w g. g;
    on_emit = λ c e p g. g;
    on_aggreator = λ c a g. g;
    on_elector = λ c e g. g;
    on_commit = λ c b g. g;
    on_finish = λ c m g. g;
    on_spb = λ c e r x s m g. g;
    on_ready = λ c m g. g;
    on_done_row = λ c e g. g;
    on_announce = λ c e r h g. g;
    on_halt_only = below_halt_only;
    on_halt = below_halt;
  }

module _ {W : Type 0} (sv : Services W) (cr : Primitives) (n : Site) where
  -- No input makes the node's epoch smaller, and none clears the flag of a halted epoch.
  pub step-Later : (i : Input) (c : Core W) → Later c (step sv cr n i c).1
  step-Later i c = go (step-Holds Later (plain Later sv Later-IsFrame) i)
    where
      go : Holds Later (step sv cr n i) → Later c (step sv cr n i c).1
      go (each h) = h c

  -- After any sequence of inputs to a new node, every epoch that was halted is below the node's
  -- epoch, so that its messages are stale; the last epoch that an int64 counts is the exception.
  pub halted_stale :
      (w : W) (is : List Input) (e : ℤ)
      → IsHalted e (run_loop sv cr n is (new_core w)).1
      → e ≢ pos max_int64
      → messgae_filter e (run_loop sv cr n is (new_core w)).1 ≡ true
  unfolding messgae_filter new_core lookup
  halted_stale w is e h m = go (run_loop-Holds Keeps (plain Keeps sv HaltsBelow-IsFrame) is)
    where
      go :
          Holds (Keeps) (run_loop sv cr n is)
          → ltz e (run_loop sv cr n is (new_core w)).1.epoch ≡ true
      go (each g) = g (new_core w) (λ x k y. cc) e h m
