-- ===== src/Bytes.antt =====
-- common/bigendian/bytes.go and common/littleendian/bytes.go: unsigned integers as bytes. A byte is
-- a number below 256; the functions of encoding/binary are written out.
pub mod Big
pub mod Little
pub mod Roundtrip
pub mod Tests
use lachesis_base.Base.{
  ℕ, zero, suc, ◌+◌, ◌*◌, ◌/◌, ◌%◌, ◌^◌, Bool, true, false, Option, none, some, List, [], ◌∷◌, ◌++◌,
  length, ltb, if◌then◌else◌,
}

-- The bytes of a number, the lowest or the highest first.
unfoldable pub to_little : ℕ → ℕ → List ℕ
to_little zero n = []
to_little (suc w) n = (n % 256) ∷ to_little w (n / 256)

unfoldable pub to_big : ℕ → ℕ → List ℕ
to_big zero n = []
to_big (suc w) n = to_big w (n / 256) ++ ((n % 256) ∷ [])

-- The number of the first bytes, so many of them; `none` is the panic on a slice that is too short.
unfoldable pub from_little : ℕ → List ℕ → Option ℕ
from_little zero b = some 0
from_little (suc w) [] = none
from_little (suc w) (x ∷ b) = elim (from_little w b) [ none ↦ none | some n ↦ some (x + 256 * n) ]

-- The bytes before are the number `acc`.
unfoldable pub from_big : ℕ → ℕ → List ℕ → Option ℕ
from_big zero acc b = some acc
from_big (suc w) acc [] = none
from_big (suc w) acc (x ∷ b) = from_big w (acc * 256 + x) b
