-- ===== src/Base/Word.antt =====
-- The unsigned machine words of the programs, as native numbers: a value is reduced where the source
-- stores it in a word.
use Prim.Native.Nat.{ℕ, ◌%◌, ◌^◌}

-- uint32
abbrev pub u32 : ℕ → ℕ
u32 x = x % 2 ^ 32

-- uint64
abbrev pub u64 : ℕ → ℕ
u64 x = x % 2 ^ 64
