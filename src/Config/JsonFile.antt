-- ===== src/Config/JsonFile.antt =====
-- JSON values and files, as config/config.go uses them.
use Prim.Native.Char.{code}
use Prim.Native.String.{String}
use s_mvba.Base.{
  ℕ, zero, suc, ◌+◌, ◌-◌, ◌*◌, ◌^◌, ◌/◌, ◌%◌, ◌<◌, ◌==◌, ltb, leb, ◌≡◌, arith, ℤ, pos, negsuc,
  max_int64, true, false, [], ◌∷◌, Bool, Option, none, some, Map, lookup, insert, digest_eq,
  bytes_eq, if◌then◌else◌,
}
use s_mvba.Error.{Outcome, ok, err, panic, Error, external, and_then}
use s_mvba.Crypto.{Bytes}

-- The bytes of an ASCII literal.
abbrev pub codes : String → Bytes
codes String.[] = []
codes (String.◌∷◌ c s) = code c ∷ codes s

mutual
  pub data Json : Type 0 where
    null : Json
    text : Bytes → Json
    -- A whole number: no other is written by the code.
    number : ℤ → Json
    -- A number that is not whole as a `float64` either, by its whole part.
    fraction : ℤ → Json
    object : Fields → Json
    boolean : Bool → Json
    -- An array.
    other : Json

  pub data Fields : Type 0 where
    no_fields : Fields
    field : Bytes → Json → Fields → Fields

-- The last of two fields with one name counts.
abbrev pub or_field : Option Json → Bool → Json → Option Json
or_field (some v) here w = some v
or_field none here w = if here then some w else none

unfoldable pub get_field : Bytes → Fields → Option Json
get_field key no_fields = none
get_field key (field name v rest) = or_field (get_field key rest) (bytes_eq name key) v

-- `v.(string)` panics on another value and on a missing field, and so do the other assertions.
abbrev pub as_string : Option Json → Outcome Bytes
as_string (some (text s)) = ok s
as_string _ = panic

-- How often a number is halved until 53 bits are left; no `float64` has more than 1024 bits.
unfoldable excess : ℕ → ℕ → ℕ
excess zero n = 0
excess (suc fuel) n = elim (ltb n (2 ^ 53)) [ true ↦ 0 | false ↦ suc (excess fuel (n / 2)) ]

-- The nearest multiple of 2^e, the even one of two.
unfoldable nearest : ℕ → ℕ → ℕ
nearest zero n = n
nearest (suc e) n =
    let q = n / 2 ^ suc e in
    let r = n % 2 ^ suc e in
    let even = if ltb (2 ^ e) r then q + 1 else if r == 2 ^ e then q + q % 2 else q in
    even * 2 ^ suc e

-- The `float64` that JSON's decoder makes of a whole number.
unfoldable pub float64 : ℕ → ℕ
unfolding excess nearest
float64 n = nearest (excess 1024 n) n

-- `int(v)` of a whole `float64`: one that is out of range gives the least `int`, as on amd64.
unfoldable pub int_of : ℤ → ℤ
unfolding float64
int_of (pos n) = let v = float64 n in if leb v max_int64 then pos v else negsuc max_int64
int_of (negsuc n) =
    let v = float64 (n + 1) in if leb v (max_int64 + 1) then negsuc (v - 1) else negsuc max_int64

pub int_of-small : (n : ℕ) → n < 2 ^ 53 → int_of (pos n) ≡ pos n
unfolding int_of float64 excess nearest
int_of-small n h = ground arith

-- `int(v.(float64))`.
abbrev pub as_number : Option Json → Outcome ℤ
as_number (some (number n)) = ok (int_of n)
as_number (some (fraction n)) = ok n
as_number _ = panic

abbrev pub as_object : Json → Outcome Fields
as_object (object fs) = ok fs
as_object _ = panic

-- The first JSON value of each file; none for a file that does not start with one. A shorter text over
-- a longer one leaves the tail, which the decoder does not read.
abbrev pub Files : Type 0
Files = Map Bytes (Option Json)

-- `json`'s errors.
abbrev pub json_error : Error
json_error = external 5

-- `savetoFile`: `can_open` is whether `os.OpenFile` opens the file to write it.
unfoldable pub save_to_file : (Bytes → Bool) → Bytes → Json → Files → Outcome Files
save_to_file can_open name v files =
    if can_open name then ok (insert name (some v) files) else panic

-- A loop that saves one file for each index, with `k` rounds to go.
unfoldable pub write_numbered :
    (Bytes → Bool) → (ℕ → Bytes) → (ℕ → Json) → ℕ → ℕ → Files → Outcome Files
unfolding save_to_file
write_numbered can_open name json zero i files = ok files
write_numbered can_open name json (suc k) i files =
    and_then (save_to_file can_open (name i) (json i) files)
      (write_numbered can_open name json k (suc i))

-- JSON decoded into a map: null is the nil map.
abbrev pub decode_map : Option (Option Json) → Outcome Fields
decode_map none = panic
decode_map (some none) = err json_error
decode_map (some (some null)) = ok no_fields
decode_map (some (some (object fs))) = ok fs
decode_map (some (some (text s))) = err json_error
decode_map (some (some (number n))) = err json_error
decode_map (some (some (fraction n))) = err json_error
decode_map (some (some (boolean b))) = err json_error
decode_map (some (some other)) = err json_error

-- `readFromFile`: it panics when the file is not opened.
unfoldable pub read_from_file : Bytes → Files → Outcome Fields
read_from_file name files = decode_map (lookup name files)
