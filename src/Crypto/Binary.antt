-- ===== src/Crypto/Binary.antt =====
-- `strconv.AppendInt(nil, x, 2)`: the text of an integer in base 2, as the bytes of its characters.
use s_mvba.Base.{
  ℕ, zero, suc, ◌+◌, ◌*◌, ◌/◌, ◌%◌, ◌≤◌, ◌<◌, ◌≡◌, refl, ap, ℤ, pos, negsuc, List, [], ◌∷◌, ◌++◌,
  ltb, if◌then◌else◌, arith, ◌∙◌, sym,
}

abbrev digit : ℕ → List ℕ
digit n = (48 + n % 2) ∷ []

-- One division by two for each unit of fuel.
bits_from : ℕ → ℕ → List ℕ
bits_from zero n = digit n
bits_from (suc fuel) n =
    let front = bits_from fuel (n / 2) in if ltb n 2 then digit n else front ++ digit n

-- A number has fewer binary digits than its value, so that the fuel is enough.
bits : ℕ → List ℕ
unfolding bits_from
bits n = bits_from n n

unfoldable pub append_int2 : ℤ → List ℕ
unfolding bits
append_int2 (pos n) = bits n
append_int2 (negsuc n) = 45 ∷ bits (suc n)

bits_from_fuel : (f g n : ℕ) → n ≤ f → n ≤ g → bits_from f n ≡ bits_from g n
unfolding bits_from
bits_from_fuel zero zero n h k = refl
bits_from_fuel zero (suc g) n h k = ground arith
bits_from_fuel (suc f) zero n h k = ground arith
bits_from_fuel (suc f) (suc g) n h k = ground (arith, bits_from_fuel f g (n / 2))

bits_small : (b : ℕ) → b < 2 → bits b ≡ (48 + b) ∷ []
unfolding bits
bits_small zero h = refl
bits_small (suc b) h = ground arith

bits_step : (m n b : ℕ) → 0 < n → b < 2 → m ≡ 2 * n + b → bits m ≡ bits n ++ (48 + b) ∷ []
unfolding bits
bits_step zero n b h k e = absurd (omega arith)
bits_step (suc m) n b h k e = ground (arith, bits_from_fuel m n n)

-- The text of a number ends in its last bit, behind the text of the other bits.
pub append_int2_twice :
    (n b : ℕ)
    → 0 < n
    → b < 2
    → append_int2 (pos (2 * n + b)) ≡ append_int2 (pos n) ++ append_int2 (pos b)
unfolding append_int2
append_int2_twice n b h k =
    bits_step (2 * n + b) n b h k refl ∙ ap (λ (t : List ℕ). bits n ++ t) (sym (bits_small b k))
