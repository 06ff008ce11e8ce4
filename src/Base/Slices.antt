-- ===== src/Base/Slices.antt =====
-- Slices of a byte buffer: `buf[a..b]`, and `dest[a..b].copy_from_slice(src)`.
use Prim.Native.Nat.{ℕ, ◌+◌, ◌≤◌}
use mathlib.Core.Path.{◌≡◌, sym, ap, ◌∙◌}
use mathlib.Core.List.{◌++◌, append_assoc}
use mathlib.Core.Bool.{true}
use mathlib.Core.Option.{Option, none, some}
use native.Mathlib.Omega.{arith}
use abixio.Base.Tests.{leb, le→leb, if◌then◌else◌}
use abixio.Base.Lists.{
  Bytes, length, take, drop, take-append, drop-append, length-append, length-drop, length-take,
  drop-drop,
}

-- `&buf[off..off + len]`, for a range that the caller has checked.
abbrev pub slice_of : Bytes → ℕ → ℕ → Bytes
slice_of buf off len = take len (drop off buf)

-- `none` is the panic of a range that is out of bounds.
unfoldable pub write_at : Bytes → ℕ → Bytes → Option Bytes
write_at dest off src =
    if leb (off + length src) (length dest)
    then some (take off dest ++ (src ++ drop (off + length src) dest))
    else none

pub slice_of-append :
    (pre mid post : Bytes) (off len : ℕ)
    → length pre ≡ off
    → length mid ≡ len
    → slice_of (pre ++ (mid ++ post)) off len ≡ mid
slice_of-append pre mid post off len p q =
    ap (take len) (drop-append off pre (mid ++ post) p) ∙ take-append len mid post q

drop-past :
    (off n : ℕ) (pre rest : Bytes) → length pre ≡ off → drop (off + n) (pre ++ rest) ≡ drop n rest
drop-past off n pre rest p =
    sym (drop-drop n off (pre ++ rest)) ∙ ap (drop n) (drop-append off pre rest p)

-- A write behind a known front keeps the front and what lies past the written bytes.
pub write_at-append :
    (pre rest src : Bytes) (off : ℕ)
    → length pre ≡ off
    → length src ≤ length rest
    → write_at (pre ++ rest) off src ≡ some ((pre ++ src) ++ drop (length src) rest)
unfolding write_at
write_at-append pre rest src off p q =
    let fits : leb (off + length src) (length (pre ++ rest)) ≡ true =
      le→leb _ _ (omega (arith, length-append pre rest)) in
    rw (fits, take-append off pre rest p, drop-past off (length src) pre rest p)
      (ap some (sym (append_assoc pre src (drop (length src) rest))))

-- A write that is in bounds replaces the bytes of its range and no other.
pub length-write_at :
    (dest src out : Bytes) (off : ℕ) → write_at dest off src ≡ some out → length out ≡ length dest
unfolding write_at
length-write_at dest src out off h = ground (
  arith,
  length-append (take off dest) (src ++ drop (off + length src) dest),
  length-append src (drop (off + length src) dest),
  length-take off dest,
  length-drop (off + length src) dest,
)
