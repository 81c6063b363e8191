-- ===== src/Common/Flags.antt =====
-- Sets of flags as numbers: `enumTrue(flags & f)`, `flags | f` and `flags & ~f` for a flag of one bit,
-- and the values that a flag announces.
use Prim.Native.Nat.{ℕ, ◌+◌, ◌-◌, ◌/◌, ◌%◌}
use mathlib.Core.Bool.{Bool}
use cpv_cql_driver.Common.Tests.{◌==◌, if◌then◌else◌}

abbrev pub has_flag : ℕ → ℕ → Bool
has_flag flags f = (flags / f) % 2 == 1

abbrev pub add_flag : ℕ → ℕ → ℕ
add_flag flags f = if has_flag flags f then flags else flags + f

abbrev pub remove_flag : ℕ → ℕ → ℕ
remove_flag flags f = if has_flag flags f then flags - f else flags
