-- ===== src/Config/Decimal.antt =====
-- `strconv.Itoa`, `%d` and `strconv.Atoi` of Go's library, as core of config/config.go uses them.
use s_mvba.Base.{
  ℕ, zero, suc, ◌+◌, ◌-◌, ◌*◌, ◌/◌, ◌%◌, ◌^◌, ◌≤◌, ◌==◌, ℤ, pos, negsuc, [], ◌∷◌, ◌++◌, Option, All,
  All-append, none, some, ltb, leb, ◌&&◌, some-injective, ◌≡◌, sym, ap, ◌∙◌, arith, if◌then◌else◌,
}
use s_mvba.Crypto.{Bytes}

-- One division by ten for each unit of fuel.
decimal_from : ℕ → ℕ → Bytes
decimal_from zero n = (48 + n % 10) ∷ []
decimal_from (suc fuel) n =
    let front = decimal_from fuel (n / 10) in
    if ltb n 10 then (48 + n) ∷ [] else front ++ (48 + n % 10) ∷ []

-- A number has no more digits than its value and one, so that the fuel is enough.
unfoldable pub itoa : ℕ → Bytes
unfolding decimal_from
itoa n = decimal_from n n

-- The digits of a magnitude, or none at another byte.
unfoldable pub magnitude : Bytes → ℕ → Option ℕ
magnitude [] n = some n
magnitude (c ∷ cs) n = if leb 48 c && leb c 57 then magnitude cs (10 * n + (c - 48)) else none

abbrev pub max_int64 : ℕ
max_int64 = 2 ^ 63 - 1

-- Out of range the answer is the nearest bound; the error beside it is not used.
abbrev clip_pos : Option ℕ → ℤ
clip_pos none = pos 0
clip_pos (some n) = if leb n max_int64 then pos n else pos max_int64

abbrev clip_neg : Option ℕ → ℤ
clip_neg none = pos 0
clip_neg (some zero) = pos 0
clip_neg (some (suc n)) = if leb n max_int64 then negsuc n else negsuc max_int64

abbrev digits : Bytes → Option ℕ
digits [] = none
digits (c ∷ cs) = magnitude (c ∷ cs) 0

-- The value of `strconv.Atoi`, which is 0 when the text is no number.
unfoldable pub atoi : Bytes → ℤ
unfolding magnitude
atoi [] = pos 0
atoi (c ∷ cs) =
    if c == 45
    then clip_neg (digits cs)
    else if c == 43
    then clip_pos (digits cs)
    else clip_pos (digits (c ∷ cs))

magnitude-append :
    (cs ds : Bytes) (n m : ℕ) → magnitude cs n ≡ some m → magnitude (cs ++ ds) n ≡ magnitude ds m
unfolding magnitude
magnitude-append [] ds n m h = grind arith
magnitude-append (c ∷ cs) ds n m h = grind (arith, magnitude-append cs ds (10 * n + (c - 48)) m)

magnitude-decimal : (fuel n : ℕ) → n ≤ fuel → magnitude (decimal_from fuel n) 0 ≡ some n
unfolding decimal_from magnitude
magnitude-decimal zero n h = ground arith
magnitude-decimal (suc fuel) n h = ground (
  arith,
  magnitude-decimal fuel (n / 10),
  magnitude-append (decimal_from fuel (n / 10)) ((48 + n % 10) ∷ []) 0 (n / 10),
)

pub magnitude-itoa : (n : ℕ) → magnitude (itoa n) 0 ≡ some n
unfolding itoa
magnitude-itoa n = magnitude-decimal n n (omega arith)

-- Different numbers have different texts.
pub itoa-injective : (m n : ℕ) → itoa m ≡ itoa n → m ≡ n
itoa-injective m n h =
    some-injective m n
      (sym (magnitude-itoa m) ∙ ap (λ (t : Bytes). magnitude t 0) h ∙ magnitude-itoa n)

abbrev IsDigit : ℕ → Type 0
IsDigit c = (48 ≤ c) × (c ≤ 57)

decimal-All : (fuel n : ℕ) → All IsDigit (decimal_from fuel n)
unfolding decimal_from
decimal-All zero n = (omega arith, tt)
decimal-All (suc fuel) n =
    let front =
      All-append IsDigit (decimal_from fuel (n / 10)) ((48 + n % 10) ∷ [])
        (decimal-All fuel (n / 10)) (omega arith, tt) in
    ground (arith, front)

-- All bytes of a number's text are digits.
pub itoa-All : (n : ℕ) → All (λ c. (48 ≤ c) × (c ≤ 57)) (itoa n)
unfolding itoa
itoa-All n = decimal-All n n
