-- ===== src/Protocol/Announce.antt =====
-- How often a node announces Done, over core/smvba/consensus/core.go.
use s_mvba.Base.{
  keys, ℕ, ℤ, Bool, false, ◌&&◌, List, [], ◌∷◌, ◌≡◌, refl, eqz, get2, touch, get2-put2, get2-touch,
  Option, none, some, int_eq, lookup,
}
use s_mvba.Crypto.{Primitives}
use s_mvba.Message.{
  ConsensusBlock, done, spb_proposal, spb_vote, finish, elect_share, prevote, fin_vote, halt,
  new_done,
}
use s_mvba.Spb.{Site, Effect, send, receive, go_proposal, go_vote, commits}
use s_mvba.Spb.Phases.{count_if}
use s_mvba.Commitor
use s_mvba.Core.{Services, Core, set_spb, new_core, commit_block, commits_onto, Input, run_loop}
use s_mvba.Protocol.Frame.{plain, IsPlain, Holds, each, IsFrame, announced}
use s_mvba.Protocol.Steps.{run_loop-Holds}

abbrev is_done : ℤ → ℤ → Effect → Bool
is_done e r (send to (done d)) = eqz d.epoch e && eqz d.round r
is_done e r _ = false

-- The Done messages of an epoch and round that were sent to the others.
abbrev pub dones : ℤ → ℤ → List Effect → ℕ
dones e r = count_if (is_done e r)

abbrev pub flag_count : Option (Unit {0}) → ℕ
flag_count none = 0
flag_count (some _) = 1

-- One Done was sent where the flag is set, and none elsewhere.
abbrev pub Counted : {W : Type 0} → Core W → Type 0
Counted c = (e r : ℤ) → dones e r c.trace ≡ flag_count (get2 e r c.done_flags)

plain-dones : (x : Effect) (e r : ℤ) (t : List Effect) → IsPlain x → dones e r (x ∷ t) ≡ dones e r t
plain-dones (commits b) e r t p = refl
plain-dones (send to (done d)) e r t p = absurd p
plain-dones (send to (spb_proposal m)) e r t p = refl
plain-dones (send to (spb_vote m)) e r t p = refl
plain-dones (send to (finish m)) e r t p = refl
plain-dones (send to (elect_share m)) e r t p = refl
plain-dones (send to (prevote m)) e r t p = refl
plain-dones (send to (fin_vote m)) e r t p = refl
plain-dones (send to (halt m)) e r t p = refl
plain-dones (receive m) e r t p = refl
plain-dones (go_proposal q) e r t p = refl
plain-dones (go_vote v) e r t p = refl

dones-commits_onto :
    (e r : ℤ) (bs : List ConsensusBlock) (t : List Effect)
    → dones e r (commits_onto bs t) ≡ dones e r t
unfolding commits_onto
dones-commits_onto e r [] t = refl
dones-commits_onto e r (b ∷ bs) t = dones-commits_onto e r bs (commits b ∷ t)

module _ {W : Type 0} where
  abbrev Keeps : Core W → Core W → Type 0
  Keeps c d = Counted c → Counted d

  counted-emit : (c : Core W) (x : Effect) → IsPlain x → Keeps c (record c { trace = x ∷ c.trace })
  counted-emit c x p g e r = rw (plain-dones x e r c.trace p) (g e r)

  counted-commit : (c : Core W) (b : ConsensusBlock) → Keeps c (commit_block b c).1
  unfolding commit_block
  counted-commit c b g e r =
      rw (dones-commits_onto e r (Commitor.commit b c.commitor).0 c.trace) (g e r)

  counted-row : (c : Core W) (x : ℤ) → Keeps c (record c { done_flags = touch x c.done_flags })
  counted-row c x g e r = rw (get2-touch x e r c.done_flags) (g e r)

  counted-announce :
      (cr : Primitives) (n : Site) (c : Core W) (x y : ℤ)
      → get2 x y c.done_flags ≡ none
      → Keeps c (announced cr n x y c)
  unfolding new_done
  counted-announce cr n c x y h g e r = grind (keys, get2-put2 x y e r tt c.done_flags, g e r)

module _ {W : Type 0} {cr : Primitives} {n : Site} where
  Counted-IsFrame : IsFrame (Keeps {W = W}) cr n
  unfolding set_spb
  Counted-IsFrame = record {
    here = λ c g. g;
    then = λ a b c p q g. q (p g);
    on_world = λ c w g. g;
    on_emit = λ c e p. counted-emit c e p.0;
    on_aggreator = λ c a g. g;
    on_elector = λ c e g. g;
    on_commit = counted-commit;
    on_finish = λ c m g. g;
    on_spb = λ c e r x s m g. g;
    on_ready = λ c m g. g;
    on_done_row = counted-row;
    on_announce = counted-announce cr n;
    on_halt_only = λ c e h g. g;
    on_halt = λ c e h g. g;
  }

module _ {W : Type 0} (sv : Services W) (cr : Primitives) (n : Site) where
  -- Whatever inputs a new node meets, it has sent one Done to the others for each epoch and round
  -- whose flag in `DoneFlags` is set, and none for any other.
  pub done_once :
      (w : W) (is : List Input) (e r : ℤ)
      → let c = (run_loop sv cr n is (new_core w)).1 in
        dones e r c.trace ≡ flag_count (get2 e r c.done_flags)
  unfolding new_core get2 lookup
  done_once w is e r = go (run_loop-Holds Keeps (plain Keeps sv Counted-IsFrame) is)
    where
      go :
          Holds Keeps (run_loop sv cr n is)
          → dones e r (run_loop sv cr n is (new_core w)).1.trace
            ≡ flag_count (get2 e r (run_loop sv cr n is (new_core w)).1.done_flags)
      go (each g) = g (new_core w) (λ a b. refl) e r
