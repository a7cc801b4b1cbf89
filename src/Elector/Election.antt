-- ===== src/Elector/Election.antt =====
-- What holds of the elections of core/smvba/consensus/elector.go.
use s_mvba.Base.{
  keys, ℕ, zero, ◌-◌, subst, sym, ◌∙◌, suc, ◌+◌, ◌*◌, ◌≤◌, ◌<◌, ◌%◌, ℤ, pos, false, none, some,
  List, [], ◌∷◌, ◌++◌, ◌≡◌, refl, All, length, length-append, get2, put2, get2-put2_self, arith,
  if◌then◌else◌, ltb,
}
use s_mvba.Error.{Outcome, ok, err, panic}
use s_mvba.Committee.{Committee, size, hight_threshold, none_id}
use s_mvba.Crypto.{Bytes, Primitives, SigService, combine_intact_ts_partial}
use s_mvba.Message.{ElectShare, elect_hash}
use s_mvba.Aggreator.{
  ElectAggreator, new_elect_aggreator, elect_append, coin_leader, coin_rand, random_len, seen,
  or_new,
}
use s_mvba.Elector.{Elector, leader_of, add_share_vote, elected}

coin_rand_total :
    (n rand : ℕ) (coin : Bytes) → n ≤ length coin → (r : ℕ) × (coin_rand n rand coin ≡ some r)
unfolding coin_rand
coin_rand_total zero rand coin h = (rand, refl)
coin_rand_total (suc n) rand [] h = absurd (omega arith)
coin_rand_total (suc n) rand (b ∷ coin) h =
    coin_rand_total n (rand * 256 + (if ltb 0 b then b else (256 - b) % 256)) coin (omega arith)

-- A coin of three bytes or more stands for the id of a member, counted from 0, in every committee that
-- is not empty.
pub coin_leader_member :
    (c : Committee) (coin : Bytes)
    → 0 < size c
    → random_len ≤ length coin
    → (k : ℕ) × (coin_leader c coin ≡ ok (pos k)) × (k < size c)
unfolding coin_leader
coin_leader_member c coin h l =
    let (r, e) = coin_rand_total random_len 0 coin l in
    (r % size c, rw (e, coin_leader) (ground arith), omega arith)

-- No leader comes of it.
abbrev Fruitless : Outcome ℤ → Type 0
Fruitless (ok node) = node ≡ none_id
Fruitless (err e) = Unit
Fruitless panic = ⊥

late_append :
    (cr : Primitives) (c : Committee) (sigs : SigService) (s : ElectShare) (a : ElectAggreator)
    → hight_threshold c ≤ length a.shares
    → Fruitless (elect_append cr c sigs s a).0
      × (hight_threshold c ≤ length (elect_append cr c sigs s a).1.shares)
unfolding elect_append
late_append cr c sigs s a h = ground (arith, length-append a.shares (s.sig_share ∷ []))

elected_none :
    (s : ElectShare) (o : Outcome ℤ) (e : Elector) → Fruitless o → elected s o e ≡ (ok none_id, e)
elected_none s (ok node) e h = grind keys
elected_none s (err x) e h = refl
elected_none s panic e h = absurd h

module _ (cr : Primitives) (c : Committee) (sigs : SigService) where
  -- The election of an epoch and round has taken as many shares as the high threshold says, or
  -- more.
  abbrev pub IsFull : ℤ → ℤ → Elector → Type 0
  IsFull epoch round e =
      (a : ElectAggreator) × (get2 epoch round e.elect_aggreators ≡ some a)
      × (hight_threshold c ≤ length a.shares)

  abbrev Settles : ℤ → ℤ → ElectShare → Elector → Type 0
  Settles epoch round s e =
      IsFull epoch round (add_share_vote cr c sigs s e).1
      × (leader_of epoch round (add_share_vote cr c sigs s e).1 ≡ leader_of epoch round e)
      × ((add_share_vote cr c sigs s e).0 ≡ ok none_id)

  spoiled_append :
      (s : ElectShare) (a : ElectAggreator)
      → seen s.author a.authors ≡ false
      → length a.shares + 1 ≡ hight_threshold c
      → combine_intact_ts_partial cr
          (a.shares ++ s.sig_share ∷ [])
          sigs.share_key
          (elect_hash cr s.epoch s.round)
        ≡ none
      → Fruitless (elect_append cr c sigs s a).0
        × (hight_threshold c ≤ length (elect_append cr c sigs s a).1.shares)
  unfolding elect_append
  spoiled_append s a n l r = ground (arith, length-append a.shares (s.sig_share ∷ []))

  -- A fruitless answer of an aggregator that is then full settles the election.
  settled :
      (s : ElectShare) (e : Elector) (item : ElectAggreator)
      → or_new (get2 s.epoch s.round e.elect_aggreators) new_elect_aggreator ≡ item
      → Fruitless (elect_append cr c sigs s item).0
      → hight_threshold c ≤ length (elect_append cr c sigs s item).1.shares
      → Settles s.epoch s.round s e
  unfolding add_share_vote leader_of
  settled s e item g f h =
      let item' = (elect_append cr c sigs s item).1 in
      let e' : Elector = record e {
        elect_aggreators = put2 s.epoch s.round item' e.elect_aggreators;
      } in
      simp (g, elected_none s (elect_append cr c sigs s item).0 e' f)
        ((item', get2-put2_self s.epoch s.round item' e.elect_aggreators, h), refl, refl)

  late_share :
      (s : ElectShare) (e : Elector) → IsFull s.epoch s.round e → Settles s.epoch s.round s e
  late_share s e (a, g, h) = let l = late_append cr c sigs s a h in settled s e a (rw g) l.0 l.1

  unfoldable pub add_shares : List ElectShare → Elector → Elector
  add_shares [] e = e
  add_shares (s ∷ ss) e = add_shares ss (add_share_vote cr c sigs s e).1

  abbrev pub Within : ℤ → ℤ → List ElectShare → Type 0
  Within epoch round = All (λ (s : ElectShare). (s.epoch ≡ epoch) × (s.round ≡ round))

  late_shares :
      (epoch round : ℤ) (ss : List ElectShare) (e : Elector)
      → Within epoch round ss
      → IsFull epoch round e
      → leader_of epoch round (add_shares ss e) ≡ leader_of epoch round e
  unfolding add_shares
  late_shares epoch round [] e p h = refl
  late_shares epoch round (s ∷ ss) e ((p, q), ps) h =
      let l : Settles epoch round s e = settles_at in
      late_shares epoch round ss (add_share_vote cr c sigs s e).1 ps l.0 ∙ l.1
    where
      settles_at : Settles epoch round s e
      settles_at =
          subst (λ y. Settles epoch y s e) q
            (subst (λ x. Settles x s.round s e) p
              (late_share s e (
                subst (λ x. IsFull x s.round e) (sym p) (subst (λ y. IsFull epoch y e) (sym q) h))))

  -- When the share that completes the high threshold is one with which the signature cannot be
  -- combined, the round never gets a leader from its shares: neither that share nor any later
  -- one of the round changes what `Leader` returns for it.
  pub coin_spoiled :
      (s : ElectShare) (ss : List ElectShare) (e : Elector) (a : ElectAggreator)
      → get2 s.epoch s.round e.elect_aggreators ≡ some a
      → seen s.author a.authors ≡ false
      → length a.shares + 1 ≡ hight_threshold c
      → combine_intact_ts_partial cr
          (a.shares ++ s.sig_share ∷ [])
          sigs.share_key
          (elect_hash cr s.epoch s.round)
        ≡ none
      → Within s.epoch s.round ss
      → leader_of s.epoch s.round (add_shares (s ∷ ss) e) ≡ leader_of s.epoch s.round e
  unfolding add_shares
  coin_spoiled s ss e a g n l r w =
      let f = spoiled_append s a n l r in
      let t = settled s e a (rw g) f.0 f.1 in
      late_shares s.epoch s.round ss (add_share_vote cr c sigs s e).1 w t.0 ∙ t.1
