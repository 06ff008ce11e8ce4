-- ===== src/Base/Utf8.antt =====
-- The validity test of `std::str::from_utf8`, as an automaton over the bytes.
use Prim.Native.Nat.{ℕ, zero, suc}
use mathlib.Core.Bool.{Bool, true, false, ◌&&◌}
use mathlib.Core.List.{[], ◌∷◌}
use abixio.Base.Tests.{ltb, leb, ◌==◌, if◌then◌else◌}
use abixio.Base.Lists.{Bytes}

-- What must come next: `more` continuation bytes, the first of them in `[lo, hi]`.
pub record Expect : Type 0 where
  pub more : ℕ
  pub lo : ℕ
  pub hi : ℕ

-- A lead byte, by the table of well-formed sequences (RFC 3629). 256 as `lo` fits no byte.
abbrev pub lead : ℕ → Expect
lead b =
    if ltb b 0x80
    then record { more = 0; lo = 0; hi = 0 }
    else if leb 0xc2 b && leb b 0xdf
    then record { more = 1; lo = 0x80; hi = 0xbf }
    else if b == 0xe0
    then record { more = 2; lo = 0xa0; hi = 0xbf }
    else if b == 0xed
    then record { more = 2; lo = 0x80; hi = 0x9f }
    else if leb 0xe1 b && leb b 0xef
    then record { more = 2; lo = 0x80; hi = 0xbf }
    else if b == 0xf0
    then record { more = 3; lo = 0x90; hi = 0xbf }
    else if leb 0xf1 b && leb b 0xf3
    then record { more = 3; lo = 0x80; hi = 0xbf }
    else if b == 0xf4
    then record { more = 3; lo = 0x80; hi = 0x8f }
    else record { more = 1; lo = 256; hi = 0 }

utf8_from : ℕ → ℕ → ℕ → Bytes → Bool
utf8_from zero lo hi [] = true
utf8_from (suc n) lo hi [] = false
utf8_from zero lo hi (b ∷ bs) = let e = lead b in utf8_from e.more e.lo e.hi bs
utf8_from (suc n) lo hi (b ∷ bs) = (leb lo b && leb b hi) && utf8_from n 0x80 0xbf bs

unfoldable pub is_utf8 : Bytes → Bool
unfolding utf8_from
is_utf8 bs = utf8_from 0 0 0 bs
