-- ===== src/Quorums/Ballots.antt =====
-- `PreVoteAggreator` and `FinVoteAggreator` of core/smvba/consensus/aggreator.go: what they answer.
use s_mvba.Base.{
  ℕ, ◌+◌, ◌<◌, ◌↔◌, Bool, true, false, List, [], ◌∷◌, ◌≡◌, refl, sym, ◌∙◌, insert, int_eq, arith,
  ltb, eqz, ℤ, map, lookup, if◌then◌else◌, Bool-cases, inl, inr,
}
use s_mvba.Error.{Outcome, ok}
use s_mvba.Committee.{Committee, hight_threshold}
use s_mvba.Committee.Quorum.{hight-pos}
use s_mvba.Message.{Prevote, FinVote, vote_flag_yes, vote_flag_no}
use s_mvba.Aggreator.{
  seen, Action, action_yes, action_no, action_commit, PreVoteAggreator, new_prevote_aggreator,
  prevote_append, FinVoteAggreator, new_fin_vote_aggreator, fin_vote_append,
}
use s_mvba.Quorums.Distinct.{member, Agree, Agree-insert, answers, after}

-- How many authors, beside those of the first list, gave a first vote for which `flag` says 1.
abbrev pub first_votes : (FinVote → ℕ) → List ℤ → List FinVote → ℕ
first_votes flag old [] = 0
first_votes flag old (v ∷ vs) =
    let skip = first_votes flag old vs in
    let keep = flag v + first_votes flag (v.author ∷ old) vs in
    if member v.author old then skip else keep

abbrev pub yes : FinVote → ℕ
yes v = if eqz v.flag vote_flag_yes then 1 else 0

abbrev pub no : FinVote → ℕ
no v = if eqz v.flag vote_flag_yes then 0 else 1

-- What a voter is answered, when with this vote `y` authors voted YES and `m` voted NO.
abbrev pub Decided : Committee → Outcome Action → ℕ → ℕ → Type 0
Decided c o y m =
    let full = y + m ≡ hight_threshold c in
    ((o ≡ ok action_commit) ↔ (full × (m ≡ 0)))
    × ((o ≡ ok action_no) ↔ (full × (y ≡ 0)))
    × ((o ≡ ok action_yes) ↔ (full × (0 < y) × (0 < m)))

decides_now :
    (c : Committee) (v : FinVote) (a : FinVoteAggreator)
    → seen v.author a.authors ≡ false
    → Decided c (fin_vote_append c v a).0 (a.yes_nums + yes v) (a.no_nums + no v)
unfolding fin_vote_append
decides_now c v a s =
    let p = hight-pos c in
    (
      (λ h. ground arith, λ h. ground arith),
      (λ h. ground arith, λ h. ground arith),
      (λ h. ground arith, λ h. ground arith),
    )

fin_vote_seen :
    (c : Committee) (w : FinVote) (a : FinVoteAggreator)
    → seen w.author a.authors ≡ true
    → (fin_vote_append c w a).1 ≡ a
unfolding fin_vote_append
fin_vote_seen c w a s = ground arith

fin_vote_new :
    (c : Committee) (w : FinVote) (a : FinVoteAggreator)
    → seen w.author a.authors ≡ false
    → let a' = (fin_vote_append c w a).1 in
      (a'.authors ≡ insert w.author tt a.authors)
      × (a'.yes_nums ≡ a.yes_nums + yes w)
      × (a'.no_nums ≡ a.no_nums + no w)
unfolding fin_vote_append
fin_vote_new c w a s = (ground arith, ground arith, ground arith)

decides_after :
    (c : Committee) (vs : List FinVote) (v : FinVote) (a : FinVoteAggreator) (old : List ℤ)
    → Agree a.authors old
    → member v.author old ≡ false
    → member v.author (map (λ w. w.author) vs) ≡ false
    → Decided c
        (fin_vote_append c v (after (fin_vote_append c) vs a)).0
        (a.yes_nums + first_votes yes old vs + yes v)
        (a.no_nums + first_votes no old vs + no v)
unfolding after
decides_after c [] v a old g new new' =
    let y : a.yes_nums + 0 + yes v ≡ a.yes_nums + yes v = omega arith in
    let m : a.no_nums + 0 + no v ≡ a.no_nums + no v = omega arith in
    rw (y, m) (decides_now c v a (g v.author ∙ new))
decides_after c (w ∷ vs) v a old g new new' = elim (Bool-cases (seen w.author a.authors)) [
  | inl s ↦
      rw (fin_vote_seen c w a s, sym (g w.author) ∙ s)
        (decides_after c vs v a old g new (ground arith))
  | inr s ↦
      let a' = (fin_vote_append c w a).1 in
      let (authors, yeses, noes) = fin_vote_new c w a s in
      let y : a.yes_nums + (yes w + first_votes yes (w.author ∷ old) vs) + yes v
          ≡ a'.yes_nums + first_votes yes (w.author ∷ old) vs + yes v =
        omega (arith, yeses) in
      let m : a.no_nums + (no w + first_votes no (w.author ∷ old) vs) + no v
          ≡ a'.no_nums + first_votes no (w.author ∷ old) vs + no v =
        omega (arith, noes) in
      rw (sym (g w.author) ∙ s, y, m)
        (decides_after c vs v a' (w.author ∷ old)
          (rw authors (Agree-insert a.authors old w.author g)) (ground arith) (ground arith))
]

-- Over any sequence of FinVotes to a new aggregator, a vote of a new author is answered COMMIT exactly
-- when the authors that have voted are as many as the high threshold and none of them voted NO first,
-- NO exactly when they are that many and none voted YES first, YES exactly when they are that many and
-- there are both.
pub fin_vote_decision :
    (c : Committee) (vs : List FinVote) (v : FinVote)
    → member v.author (map (λ w. w.author) vs) ≡ false
    → Decided c
        (fin_vote_append c v (after (fin_vote_append c) vs new_fin_vote_aggreator)).0
        (first_votes yes [] vs + yes v)
        (first_votes no [] vs + no v)
unfolding new_fin_vote_aggreator seen lookup
fin_vote_decision c vs v new =
    let y : first_votes yes [] vs + yes v ≡ 0 + first_votes yes [] vs + yes v = omega arith in
    let m : first_votes no [] vs + no v ≡ 0 + first_votes no [] vs + no v = omega arith in
    rw (y, m) (decides_after c vs v new_fin_vote_aggreator [] (λ x. refl) refl new)

abbrev pub is_yes : Outcome Action → ℕ
is_yes (ok action_yes) = 1
is_yes _ = 0

-- The flag says whether a YES was counted.
abbrev pub Flagged : PreVoteAggreator → Type 0
Flagged a = a.flag ≡ ltb 0 a.yes_nums

abbrev bit : Bool → ℕ
bit true = 1
bit false = 0

prevote_step :
    (c : Committee) (v : Prevote) (a : PreVoteAggreator)
    → Flagged a
    → Flagged (prevote_append c v a).1
      × (is_yes (prevote_append c v a).0 + bit a.flag ≡ bit (prevote_append c v a).1.flag)
unfolding prevote_append
prevote_step c v a g = ground arith

prevote_yes :
    (c : Committee) (vs : List Prevote) (a : PreVoteAggreator)
    → Flagged a
    → answers is_yes (prevote_append c) vs a + bit a.flag
      ≡ bit (ltb 0 (after (prevote_append c) vs a).yes_nums)
unfolding answers after
prevote_yes c [] a g = ground arith
prevote_yes c (v ∷ vs) a g =
    let s = prevote_step c v a g in
    omega (arith, s.1, prevote_yes c vs (prevote_append c v a).1 s.0)

-- Over any sequence of PreVotes, a new aggregator answers YES once if it has counted a YES, and
-- never if not.
pub prevote_yes_once :
    (c : Committee) (vs : List Prevote)
    → answers is_yes (prevote_append c) vs new_prevote_aggreator
      ≡ bit (ltb 0 (after (prevote_append c) vs new_prevote_aggreator).yes_nums)
unfolding new_prevote_aggreator
prevote_yes_once c vs = omega (arith, prevote_yes c vs new_prevote_aggreator refl)

-- After the answer NO, the first YES of a new author is answered YES: the node is told to send
-- both FinVotes in one round.
pub prevote_both :
    (c : Committee) (v w : Prevote) (a : PreVoteAggreator)
    → Flagged a
    → (prevote_append c v a).0 ≡ ok action_no
    → seen w.author (prevote_append c v a).1.authors ≡ false
    → eqz w.flag vote_flag_no ≡ false
    → (prevote_append c w (prevote_append c v a).1).0 ≡ ok action_yes
unfolding prevote_append
prevote_both c v w a g n s y = ground arith
