-- ===== src/Quorums/Distinct.antt =====
-- The authors that an aggregator of core/smvba/consensus/aggreator.go has seen, against a plain
-- count of the distinct authors in a list.
use s_mvba.Base.{
  ℕ, suc, ◌+◌, ℤ, Bool, false, ◌||◌, List, [], ◌∷◌, ◌≡◌, eqz, lookup, insert, lookup-insert,
  length-insert, int_eq, length, leb, map, ap, sym, ◌∙◌, ◌<◌, Bool-cases, arith, if◌then◌else◌, inl,
  inr,
}
use s_mvba.Error.{Outcome, M}
use s_mvba.Aggreator.{Authors, seen}

abbrev pub member : ℤ → List ℤ → Bool
member x [] = false
member x (y ∷ ys) = eqz y x || member x ys

-- How many of the authors are new, beside those in the first list and the ones before.
abbrev pub distinct : List ℤ → List ℤ → ℕ
distinct old [] = 0
distinct old (x ∷ xs) =
    let skip = distinct old xs in
    let keep = suc (distinct (x ∷ old) xs) in if member x old then skip else keep

abbrev pub reached : ℕ → ℕ → ℕ
reached th k = if leb th k then 1 else 0

-- The map holds the authors of the list.
abbrev pub Agree : Authors → List ℤ → Type 0
Agree m old = (x : ℤ) → seen x m ≡ member x old

pub Agree-insert :
    (m : Authors) (old : List ℤ) (x : ℤ) → Agree m old → Agree (insert x tt m) (x ∷ old)
unfolding seen
Agree-insert m old x a y = ground (arith, lookup-insert x y tt m, a y)

pub length-insert_new :
    (m : Authors) (x : ℤ) → seen x m ≡ false → length (insert x tt m) ≡ length m + 1
unfolding seen
length-insert_new m x h = ground (arith, length-insert x tt m)

-- The points that `score` gives the answers to a sequence of votes.
unfoldable pub answers : {A V B : Type 0} → (Outcome B → ℕ) → (V → M A B) → List V → A → ℕ
answers score append [] a = 0
answers score append (v ∷ vs) a = let (o, a') = append v a in score o + answers score append vs a'

unfoldable pub after : {A V B : Type 0} → (V → M A B) → List V → A → A
after append [] a = a
after append (v ∷ vs) a = after append vs (append v a).1

-- What the aggregators have in common: an author counts once.
abbrev pub Records : {A V B : Type 0} → (A → Authors) → (V → ℤ) → (V → M A B) → Type 0
Records {A} {V} authors author append =
    (v : V) (a : A)
    → authors (append v a).1
      ≡ (if seen (author v) (authors a) then authors a else insert (author v) tt (authors a))

module _ {A V B : Type 0} (authors : A → Authors) (author : V → ℤ) (append : V → M A B)
    (law : Records authors author append) where
  pub after-distinct :
      (vs : List V) (a : A) (old : List ℤ)
      → Agree (authors a) old
      → length (authors (after append vs a)) ≡ length (authors a) + distinct old (map author vs)
  unfolding after
  after-distinct [] a old g = omega arith
  after-distinct (v ∷ vs) a old g = elim (Bool-cases (seen (author v) (authors a))) [
    | inl s ↦
        let same : authors (append v a).1 ≡ authors a = law v a ∙ rw s in
        let rest = after-distinct vs (append v a).1 old (rw same g) in
        rw (sym (g (author v)) ∙ s) (rest ∙ ap (λ m. length m + distinct old (map author vs)) same)
    | inr s ↦
        let more : authors (append v a).1 ≡ insert (author v) tt (authors a) = law v a ∙ rw s in
        let rest =
          after-distinct vs (append v a).1 (author v ∷ old)
            (rw more (Agree-insert (authors a) old (author v) g)) in
        rw (sym (g (author v)) ∙ s)
          (omega (arith, rest, ap length more, length-insert_new (authors a) (author v) s))
  ]

  answers_total :
      (score : Outcome B → ℕ) (th : ℕ)
      → ((v : V) (a : A)
          → score (append v a).0 + reached th (length (authors a))
            ≡ reached th (length (authors (append v a).1)))
      → (vs : List V) (a : A)
      → answers score append vs a + reached th (length (authors a))
        ≡ reached th (length (authors (after append vs a)))
  unfolding answers after
  answers_total score th each [] a = omega arith
  answers_total score th each (v ∷ vs) a =
      omega (arith, each v a, answers_total score th each vs (append v a).1)

  -- Where an answer scores at the vote with which the number of authors gets to `th`, a sequence of
  -- votes scores once if its distinct authors are that many, and never if not.
  pub answers_once :
      (score : Outcome B → ℕ) (th : ℕ)
      → ((v : V) (a : A)
          → score (append v a).0 + reached th (length (authors a))
            ≡ reached th (length (authors (append v a).1)))
      → 0 < th
      → (vs : List V) (a : A) → authors a ≡ []
      → answers score append vs a ≡ reached th (distinct [] (map author vs))
  unfolding seen lookup
  answers_once score th each pos_th vs a e =
      let start = ap length e in
      ground (arith, answers_total score th each vs a, after-distinct vs a [] (λ x. rw e))
