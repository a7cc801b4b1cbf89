-- ===== src/Base/Int.antt =====
-- Go's signed integers (`int`, `int64`, `int8`): `pos n` is n and `negsuc n` is -(n + 1).
-- The increment of an `int64` wraps around at 2^63 - 1.
use Prim.Native.Nat.{ℕ, zero, suc, ◌+◌, ◌-◌, ◌^◌, ◌%◌}
use mathlib.Core.Path.{◌≡◌, refl}
use mathlib.Core.Logic.{◌↔◌, ◌≢◌}
use mathlib.Core.Bool.{Bool, true, false}
use native.Mathlib.Omega.{arith}
use s_mvba.Base.Tests.{ltb, ◌==◌, if◌then◌else◌}

pub data ℤ : Type 0 where
  pos : ℕ → ℤ
  negsuc : ℕ → ℤ

unfoldable pub eqz : ℤ → ℤ → Bool
eqz (pos a) (pos b) = a == b
eqz (negsuc a) (negsuc b) = a == b
eqz _ _ = false

pub eqz_iff : (a b : ℤ) → (eqz a b ≡ true) ↔ (a ≡ b)
unfolding eqz
eqz_iff (pos a) (pos b) = (λ h. ground arith, λ h. ground arith)
eqz_iff (pos a) (negsuc b) = (λ h. cc, λ h. cc)
eqz_iff (negsuc a) (pos b) = (λ h. cc, λ h. cc)
eqz_iff (negsuc a) (negsuc b) = (λ h. ground arith, λ h. ground arith)

unfoldable pub ltz : ℤ → ℤ → Bool
ltz (pos a) (pos b) = ltb a b
ltz (pos a) (negsuc b) = false
ltz (negsuc a) (pos b) = true
ltz (negsuc a) (negsuc b) = ltb b a

pub ltz_irrefl : (a : ℤ) → ltz a a ≡ false
unfolding ltz
ltz_irrefl (pos a) = ground arith
ltz_irrefl (negsuc a) = ground arith

pub ltz_asymm : (a b : ℤ) → ltz a b ≡ true → ltz b a ≡ false
unfolding ltz
ltz_asymm (pos a) (pos b) h = ground arith
ltz_asymm (pos a) (negsuc b) h = cc
ltz_asymm (negsuc a) (pos b) h = refl
ltz_asymm (negsuc a) (negsuc b) h = ground arith

-- `a ≤ b` is `ltz b a ≡ false`.
pub ltz_lt_le : (a b c : ℤ) → ltz a b ≡ true → ltz c b ≡ false → ltz a c ≡ true
unfolding ltz
ltz_lt_le (pos a) (pos b) (pos c) h k = ground arith
ltz_lt_le (pos a) (pos b) (negsuc c) h k = ground arith
ltz_lt_le (pos a) (negsuc b) c h k = cc
ltz_lt_le (negsuc a) (pos b) (pos c) h k = ground arith
ltz_lt_le (negsuc a) (pos b) (negsuc c) h k = ground arith
ltz_lt_le (negsuc a) (negsuc b) (pos c) h k = ground arith
ltz_lt_le (negsuc a) (negsuc b) (negsuc c) h k = ground arith

abbrev pub max_int64 : ℕ
max_int64 = 2 ^ 63 - 1

unfoldable pub inc64 : ℤ → ℤ
inc64 (pos n) = if n == max_int64 then negsuc max_int64 else pos (n + 1)
inc64 (negsuc zero) = pos 0
inc64 (negsuc (suc n)) = negsuc n

-- The `int64` of a number, and so of a sum or product that wraps around.
unfoldable pub int64 : ℕ → ℤ
int64 n = let r = n % 2 ^ 64 in if ltb r (2 ^ 63) then pos r else negsuc (2 ^ 64 - 1 - r)

pub ltz-inc64 : (a : ℤ) → a ≢ pos max_int64 → ltz a (inc64 a) ≡ true
unfolding ltz inc64
ltz-inc64 (pos n) h = ground arith
ltz-inc64 (negsuc zero) h = refl
ltz-inc64 (negsuc (suc n)) h = ground arith
