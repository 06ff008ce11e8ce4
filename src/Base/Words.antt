-- ===== src/Base/Words.antt =====
-- Unsigned words of k bytes in memory order (little endian), and values cut to a width by `as`.
use Prim.Native.Nat.{ℕ, zero, suc, ◌+◌, ◌*◌, ◌/◌, ◌%◌, ◌^◌, ◌<◌}
use mathlib.Core.Path.{◌≡◌, refl, ap}
use mathlib.Core.List.{[], ◌∷◌}
use native.Mathlib.Omega.{arith}
use native.Mathlib.Nat.{pow-suc}
use abixio.Base.Lists.{Bytes, length}

abbrev pub IsU8 : ℕ → Type 0
IsU8 n = n < 256

abbrev pub IsU16 : ℕ → Type 0
IsU16 n = n < 65536

abbrev pub IsU32 : ℕ → Type 0
IsU32 n = n < 4294967296

abbrev pub IsU64 : ℕ → Type 0
IsU64 n = n < 18446744073709551616

abbrev pub u64_max : ℕ
u64_max = 18446744073709551615

-- `n as u8`, `n as u16`, `n as u32`
abbrev pub as_u8 : ℕ → ℕ
as_u8 n = n % 256

abbrev pub as_u16 : ℕ → ℕ
as_u16 n = n % 65536

abbrev pub as_u32 : ℕ → ℕ
as_u32 n = n % 4294967296

unfoldable pub le_bytes : ℕ → ℕ → Bytes
le_bytes zero n = []
le_bytes (suc k) n = (n % 256) ∷ le_bytes k (n / 256)

unfoldable pub le_value : Bytes → ℕ
le_value [] = 0
le_value (b ∷ bs) = b + 256 * le_value bs

pub length-le_bytes : (k n : ℕ) → length (le_bytes k n) ≡ k
unfolding le_bytes
length-le_bytes zero n = refl
length-le_bytes (suc k) n = ap suc (length-le_bytes k (n / 256))

pub le_value-le_bytes : (k n : ℕ) → n < 256 ^ k → le_value (le_bytes k n) ≡ n
unfolding le_bytes le_value
le_value-le_bytes zero n h = omega arith
le_value-le_bytes (suc k) n h =
    omega (arith, le_value-le_bytes k (n / 256) (omega (arith, pow-suc 256 k)))
