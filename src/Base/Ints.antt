-- ===== src/Base/Ints.antt =====
-- Integers over the native numbers, under the library's names.
use Prim.Native.Nat.{ℕ, suc, ◌+◌, ◌-◌, ◌/◌, ◌^◌}
use lachesis_base.Base.Tests.{ltb, if◌then◌else◌}

-- A number, or a negative number `negsuc n`, which is -(n + 1).
pub data ℤ : Type 0 where
  pos : ℕ → ℤ
  negsuc : ℕ → ℤ

abbrev pub minus : ℕ → ℕ → ℤ
minus m n = if ltb m n then negsuc (n - m - 1) else pos (m - n)

infixl 65 ◌+ℤ◌
abbrev pub ◌+ℤ◌ : ℤ → ℤ → ℤ
pos m +ℤ pos n = pos (m + n)
pos m +ℤ negsuc n = minus m (suc n)
negsuc m +ℤ pos n = minus n (suc m)
negsuc m +ℤ negsuc n = negsuc (suc (m + n))

abbrev pub abs : ℤ → ℕ
abs (pos n) = n
abs (negsuc n) = suc n

-- The shift to the right, which rounds down.
abbrev pub shift_right : ℤ → ℕ → ℤ
shift_right (pos n) s = pos (n / 2 ^ s)
shift_right (negsuc n) s = negsuc (n / 2 ^ s)
