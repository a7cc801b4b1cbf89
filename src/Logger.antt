-- ===== src/Logger.antt =====
-- logger/logger.go and logger/writer.go: which writer each of the four loggers has. The lines that are
-- written are left out.
use s_mvba.Base.{ℕ, suc, ◌/◌, ◌%◌, ◌^◌, ◌==◌, ℤ, pos, negsuc, Bool, List, [], ◌∷◌, if◌then◌else◌}
use s_mvba.Error.{Outcome, ok, panic}
use s_mvba.Crypto.{Bytes}

-- `os.Stdout`, `io.Discard`, or the file of a name.
pub data Writer : Type 0 where
  std_out : Writer
  discard : Writer
  to_file : Bytes → Writer

-- A logger's output, and the writer that `out` keeps for its index.
pub record Log : Type 0 where
  pub output : Writer
  pub out : Writer

abbrev pub info_level : ℤ
info_level = pos 1

abbrev pub debug_level : ℤ
debug_level = pos 2

abbrev pub error_level : ℤ
error_level = pos 4

abbrev pub warn_level : ℤ
warn_level = pos 8

abbrev pub test_level : ℤ
test_level = pos 15

abbrev pub deploy_level : ℤ
deploy_level = pos 13

-- `logs` and `out` as they are declared: info, debug, error, warn.
abbrev pub logs : List Log
logs = let std : Log = record { output = std_out; out = std_out } in std ∷ std ∷ std ∷ std ∷ []

-- `((level >> i) & 1) == 1`, where the shift keeps the sign.
abbrev pub has_bit : ℤ → ℕ → Bool
has_bit (pos n) i = (n / 2 ^ i) % 2 == 1
has_bit (negsuc n) i = (n / 2 ^ i) % 2 == 0

-- The loop of `SetLevel` from the index `i` on.
unfoldable pub set_level_from : ℕ → ℤ → List Log → List Log
set_level_from i level [] = []
set_level_from i level (l ∷ ls) =
    record l { output = if has_bit level i then l.out else discard }
    ∷ set_level_from (suc i) level ls

unfoldable pub set_level : ℤ → List Log → List Log
unfolding set_level_from
set_level level ls = set_level_from 0 level ls

unfoldable pub set_output_from : ℕ → ℤ → Writer → List Log → List Log
set_output_from i level w [] = []
set_output_from i level w (l ∷ ls) =
    (if has_bit level i then record { output = w; out = w } else l)
    ∷ set_output_from (suc i) level w ls

unfoldable pub set_output : ℤ → Writer → List Log → List Log
unfolding set_output_from
set_output level w ls = set_output_from 0 level w ls

-- `NewFileWriter`: `can_open` is whether `os.OpenFile` opens the file to write it.
unfoldable pub new_file_writer : (Bytes → Bool) → Bytes → Outcome Writer
new_file_writer can_open path = if can_open path then ok (to_file path) else panic
