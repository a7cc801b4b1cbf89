-- ===== src/Base/Maps.antt =====
-- Go's maps as association lists, and the maps of maps `map[int64]map[int64]V` of the source.
use Prim.Native.Nat.{◌+◌, ◌≤◌}
use mathlib.Core.Path.{◌≡◌, refl}
use mathlib.Core.Logic.{inl, inr}
use mathlib.Core.Bool.{true, false, ◌&&◌}
use mathlib.Core.Option.{Option, none, some}
use mathlib.Core.List.{List, [], ◌∷◌}
use native.Mathlib.Omega.{arith}
use s_mvba.Base.Tests.{if◌then◌else◌, Option-cases}
use s_mvba.Base.Lists.{length}
use s_mvba.Base.Int.{ℤ, eqz_iff}
use s_mvba.Base.Equality.{Eq, beq, int_eq}

abbrev pub Map {ℓ κ} : Type ℓ → Type κ → Type (ℓ ⊔ κ)
Map K V = List (K × V)

module _ {ℓ} {K : Type ℓ} ⦃e : Eq K⦄ where
  pub beq_refl : (k : K) → beq k k ≡ true
  beq_refl k = (e.beq_iff k k).1 refl

module _ {ℓ κ} {K : Type ℓ} {V : Type κ} ⦃e : Eq K⦄ where
  unfoldable pub lookup : K → Map K V → Option V
  lookup k [] = none
  lookup k ((j, v) ∷ m) = if beq j k then some v else lookup k m

  unfoldable pub insert : K → V → Map K V → Map K V
  insert k v [] = (k, v) ∷ []
  insert k v ((j, w) ∷ m) = if beq j k then (k, v) ∷ m else (j, w) ∷ insert k v m

  unfoldable pub delete : K → Map K V → Map K V
  delete k [] = []
  delete k ((j, w) ∷ m) = if beq j k then delete k m else (j, w) ∷ delete k m

  pub lookup-insert :
      (k j : K) (v : V) (m : Map K V)
      → lookup j (insert k v m) ≡ (if beq k j then some v else lookup j m)
  unfolding lookup insert
  lookup-insert k j v [] = refl
  lookup-insert k j v ((i, w) ∷ m) =
      ground (arith, e.beq_iff k j, e.beq_iff i k, e.beq_iff i j, lookup-insert k j v m)

  pub insert-here :
      (k j : K) (v : V) (m : Map K V) → beq k j ≡ true → lookup j (insert k v m) ≡ some v
  insert-here k j v m on = rw (lookup-insert k j v m, on) refl

  pub insert-else :
      (k j : K) (v : V) (m : Map K V) → beq k j ≡ false → lookup j (insert k v m) ≡ lookup j m
  insert-else k j v m off = rw (lookup-insert k j v m, off) refl

  pub lookup-delete :
      (k j : K) (m : Map K V) → lookup j (delete k m) ≡ (if beq k j then none else lookup j m)
  unfolding lookup delete
  lookup-delete k j [] = ground arith
  lookup-delete k j ((i, w) ∷ m) =
      ground (arith, e.beq_iff k j, e.beq_iff i k, e.beq_iff i j, lookup-delete k j m)

  pub length-insert :
      (k : K) (v : V) (m : Map K V) → lookup k m ≡ none → length (insert k v m) ≡ length m + 1
  unfolding lookup insert
  length-insert k v [] h = omega arith
  length-insert k v ((j, w) ∷ m) h = ground (arith, length-insert k v m)

  pub length-delete-le : (k : K) (m : Map K V) → length (delete k m) ≤ length m
  unfolding delete
  length-delete-le k [] = omega arith
  length-delete-le k ((j, w) ∷ m) = ground (arith, length-delete-le k m)

  pub length-delete :
      (k : K) (v : V) (m : Map K V) → lookup k m ≡ some v → length (delete k m) + 1 ≤ length m
  unfolding lookup delete
  length-delete k v [] h = cc
  length-delete k v ((j, w) ∷ m) h = ground (arith, length-delete k v m, length-delete-le k m)

-- A map of maps: a missing row is made when it is first written.
abbrev pub Map2 : Type 0 → Type 0
Map2 V = Map ℤ (Map ℤ V)

abbrev pub or_empty {ℓ} : {A : Type ℓ} → Option (List A) → List A
or_empty none = []
or_empty (some m) = m

module _ {V : Type 0} where
  unfoldable pub get2 : ℤ → ℤ → Map2 V → Option V
  get2 i j m = lookup j (or_empty (lookup i m))

  unfoldable pub put2 : ℤ → ℤ → V → Map2 V → Map2 V
  put2 i j v m = insert i (insert j v (or_empty (lookup i m))) m

  -- `if _, ok := m[i]; !ok { m[i] = make(..) }`.
  unfoldable pub touch : ℤ → Map2 V → Map2 V
  touch i m = elim (lookup i m) [ none ↦ insert i [] m | some row ↦ m ]

  pub get2-put2 :
      (i j a b : ℤ) (v : V) (m : Map2 V)
      → get2 a b (put2 i j v m) ≡ (if beq i a && beq j b then some v else get2 a b m)
  unfolding get2 put2
  get2-put2 i j a b v m =
      rw (lookup-insert i a (insert j v (or_empty (lookup i m))) m)
        (ground (arith, eqz_iff i a, lookup-insert j b v (or_empty (lookup i m))))

  pub get2-put2_self : (i j : ℤ) (v : V) (m : Map2 V) → get2 i j (put2 i j v m) ≡ some v
  get2-put2_self i j v m = ground (arith, get2-put2 i j i j v m, beq_refl i, beq_refl j)

  pub get2-touch : (i a b : ℤ) (m : Map2 V) → get2 a b (touch i m) ≡ get2 a b m
  unfolding get2 touch lookup
  get2-touch i a b m = elim (Option-cases (lookup i m)) [
    | inl e ↦ ground (arith, lookup-insert {V = Map ℤ V} i a [] m, eqz_iff i a)
    | inr (row, e) ↦ ground arith
  ]
