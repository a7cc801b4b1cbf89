-- ===== src/Error.antt =====
-- core/error.go, with the errors of store/store.go, and the ways in which a Go call ends.
use s_mvba.Base.{ℕ, ℤ, Bool, true, false, ◌≡◌, refl}

pub data Error : Type 0 where
  signature : ℕ → Error
  one_more_message : ℕ → ℤ → ℤ → ℤ → Error
  full_memory : ℤ → Error
  -- `ErrNotFoundKey` of the package store.
  not_found_key : Error
  -- An error of the database under the store, of gob, or of the threshold signatures.
  external : ℕ → Error

-- A call returns a value, returns an error, or panics.
pub data Outcome {ℓ} (A : Type ℓ) : Type ℓ where
  ok : A → Outcome A
  err : Error → Outcome A
  panic : Outcome A

-- Code that changes a state of type `S`: what was written before an error stays written.
abbrev pub M : Type 0 → Type 0 → Type 0
M S A = S → Outcome A × S

abbrev pub pure : {S A : Type 0} → A → M S A
pure a s = (ok a, s)

abbrev pub fail : {S A : Type 0} → Error → M S A
fail e s = (err e, s)

abbrev pub crash : {S A : Type 0} → M S A
crash s = (panic, s)

abbrev pub bind_outcome : {S A B : Type 0} → Outcome A → (A → M S B) → M S B
bind_outcome (ok a) f s = f a s
bind_outcome (err e) f s = (err e, s)
bind_outcome panic f s = (panic, s)

-- Shut, so that a block of statements keeps its shape where it is not run.
infixl 5 ◌>>=◌ ◌>>◌
unfoldable pub ◌>>=◌ : {S A B : Type 0} → M S A → (A → M S B) → M S B
◌>>=◌ m f s = let (o, t) = m s in bind_outcome o f t

abbrev pub ◌>>◌ : {S B : Type 0} → M S (Unit {0}) → M S B → M S B
m >> k = m >>= λ _. k

abbrev pub when : {S : Type 0} → Bool → M S (Unit {0}) → M S (Unit {0})
when true m = m
when false m = pure tt

abbrev pub gets : {S A : Type 0} → (S → A) → M S A
gets f s = (ok (f s), s)

abbrev pub modify : {S : Type 0} → (S → S) → M S (Unit {0})
modify f s = (ok tt, f s)

-- The early returns of a chain of calls that keep no state.
abbrev pub and_then {ℓ κ} : {A : Type ℓ} {B : Type κ} → Outcome A → (A → Outcome B) → Outcome B
and_then (ok a) f = f a
and_then (err e) f = err e
and_then panic f = panic

abbrev pub map_ok {ℓ κ} : {A : Type ℓ} {B : Type κ} → (A → B) → Outcome A → Outcome B
map_ok f (ok a) = ok (f a)
map_ok f (err e) = err e
map_ok f panic = panic

-- A chain that returns a value had one from its first call.
pub and_then_ok {ℓ κ} :
    {A : Type ℓ} {B : Type κ} (o : Outcome A) (f : A → Outcome B) (b : B)
    → and_then o f ≡ ok b
    → (a : A) × (o ≡ ok a) × (f a ≡ ok b)
and_then_ok (ok a) f b h = (a, refl, h)
and_then_ok (err e) f b h = absurd cc
and_then_ok panic f b h = absurd cc

pub map_ok_ok {ℓ κ} :
    {A : Type ℓ} {B : Type κ} (f : A → B) (o : Outcome A) (b : B)
    → map_ok f o ≡ ok b
    → (a : A) × (o ≡ ok a) × (b ≡ f a)
map_ok_ok f (ok a) b h = (a, refl, cc)
map_ok_ok f (err e) b h = absurd cc
map_ok_ok f panic b h = absurd cc
