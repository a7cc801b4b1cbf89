-- ===== src/Quorums/Certificates.antt =====
-- `FinishAggreator` and `DoneAggreator` of core/smvba/consensus/aggreator.go over any sequence of
-- messages.
use s_mvba.Base.{ℕ, ◌+◌, ◌≤◌, ◌<◌, Bool, true, List, [], ◌∷◌, map, ◌≡◌, refl, length, int_eq, arith}
use s_mvba.Error.{Outcome, ok}
use s_mvba.Committee.{Committee, hight_threshold, low_threshold, size}
use s_mvba.Committee.Quorum.{hight-pos, quorum_reachable}
use s_mvba.Message.{Finish, Done}
use s_mvba.Aggreator.{
  FinishAggreator, new_finish_aggreator, finish_append, DoneFlag, low_flag, high_flag,
  DoneAggreator, new_done_aggreator, done_append,
}
use s_mvba.Quorums.Distinct.{distinct, reached, length-insert_new, answers, answers_once, Records}

abbrev pub is_quorum : Outcome Bool → ℕ
is_quorum (ok true) = 1
is_quorum _ = 0

finish-Records :
    (c : Committee) → Records (λ (a : FinishAggreator). a.authors) (λ f. f.author) (finish_append c)
unfolding finish_append
finish-Records c f a = ground arith

finish_step :
    (c : Committee) (f : Finish) (a : FinishAggreator)
    → is_quorum (finish_append c f a).0 + reached (hight_threshold c) (length a.authors)
      ≡ reached (hight_threshold c) (length (finish_append c f a).1.authors)
unfolding finish_append
finish_step c f a = ground (arith, length-insert_new a.authors f.author)

-- Over any sequence of Finish messages, a new aggregator answers that the quorum is there once, if
-- the number of distinct authors reaches the high threshold, and never if not.
pub finish_quorum_once :
    (c : Committee) (fs : List Finish)
    → answers is_quorum (finish_append c) fs new_finish_aggreator
      ≡ reached (hight_threshold c) (distinct [] (map (λ f. f.author) fs))
unfolding new_finish_aggreator
finish_quorum_once c fs =
    answers_once (λ a. a.authors) (λ f. f.author) (finish_append c) (finish-Records c) is_quorum
      (hight_threshold c) (finish_step c) (hight-pos c) fs new_finish_aggreator refl

abbrev pub is_low : Outcome DoneFlag → ℕ
is_low (ok low_flag) = 1
is_low _ = 0

abbrev pub is_high : Outcome DoneFlag → ℕ
is_high (ok high_flag) = 1
is_high _ = 0

done-Records :
    (c : Committee) → Records (λ (a : DoneAggreator). a.authors) (λ d. d.author) (done_append c)
unfolding done_append
done-Records c d a = ground arith

done_low_step :
    (c : Committee) (d : Done) (a : DoneAggreator)
    → is_low (done_append c d a).0 + reached (low_threshold c) (length a.authors)
      ≡ reached (low_threshold c) (length (done_append c d a).1.authors)
unfolding done_append
done_low_step c d a = ground (arith, length-insert_new a.authors d.author)

done_high_step :
    (c : Committee)
    → low_threshold c < hight_threshold c
    → (d : Done) (a : DoneAggreator)
    → is_high (done_append c d a).0 + reached (hight_threshold c) (length a.authors)
      ≡ reached (hight_threshold c) (length (done_append c d a).1.authors)
unfolding done_append
done_high_step c h d a = ground (arith, length-insert_new a.authors d.author)

low-pos : (c : Committee) → 0 < low_threshold c
unfolding low_threshold
low-pos c = omega arith

thresholds_meet : (c : Committee) → 0 < size c → size c < 4 → low_threshold c ≡ hight_threshold c
unfolding low_threshold hight_threshold
thresholds_meet c p h = omega arith

-- Over any sequence of Done messages, for a committee of four members or more, a new aggregator
-- answers the low flag once if the number of distinct authors reaches the low threshold, and the
-- high flag once if it reaches the high one, and neither of them otherwise.
pub done_flags_once :
    (c : Committee) (ds : List Done)
    → 4 ≤ size c
    → let k = distinct [] (map (λ d. d.author) ds) in
      (answers is_low (done_append c) ds new_done_aggreator ≡ reached (low_threshold c) k)
      × (answers is_high (done_append c) ds new_done_aggreator ≡ reached (hight_threshold c) k)
unfolding new_done_aggreator
done_flags_once c ds h = (
  answers_once (λ a. a.authors) (λ d. d.author) (done_append c) (done-Records c) is_low
      (low_threshold c) (done_low_step c) (low-pos c) ds new_done_aggreator refl,
  answers_once (λ a. a.authors) (λ d. d.author) (done_append c) (done-Records c) is_high
      (hight_threshold c) (done_high_step c ((quorum_reachable c (omega arith)).1.1 h))
      (hight-pos c) ds new_done_aggreator refl,
)

-- In a committee of one, two or three members the high flag is never answered: both thresholds
-- are met by the same author, and the low one is looked at first.
pub done_high_never :
    (c : Committee) (ds : List Done) (a : DoneAggreator)
    → 0 < size c
    → size c < 4
    → answers is_high (done_append c) ds a ≡ 0
unfolding answers done_append
done_high_never c [] a p h = refl
done_high_never c (d ∷ ds) a p h =
    ground (arith, thresholds_meet c p h, done_high_never c ds (done_append c d a).1 p h)
