-- ===== src/Bytes/Roundtrip.antt =====
-- Reading the bytes of an integer gives it back (common/bigendian, common/littleendian).
use native.Mathlib.Nat.{pow-suc, mul_assoc, div-div-eq-div-mul}
use mathlib.Core.List.{append_assoc, map-append}
use lachesis_base.Base.{
  map, Option, refl, ℕ, zero, suc, ◌+◌, ◌*◌, ◌/◌, ◌%◌, ◌^◌, ◌<◌, ◌≡◌, sym, ap, ◌∙◌, arith, some,
  List, [], ◌∷◌, ◌++◌,
}
use lachesis_base.Bytes.Big
use lachesis_base.Bytes.Little
use lachesis_base.Bytes.{to_little, to_big, from_little, from_big}

from_little-to_little :
    (w n : ℕ) (rest : List ℕ) → n < 256 ^ w → from_little w (to_little w n ++ rest) ≡ some n
unfolding from_little to_little
from_little-to_little zero n rest h = ap some (omega arith)
from_little-to_little (suc w) n rest h =
    let ih = from_little-to_little w (n / 256) rest (omega (arith, h, pow-suc 256 w)) in
    rw ih (ap some (omega arith))

-- The bytes of a number, read after those of `acc`.
from_big-to_big_from :
    (w v acc n : ℕ) (rest : List ℕ)
    → n < 256 ^ w
    → from_big (w + v) acc (to_big w n ++ rest) ≡ from_big v (acc * 256 ^ w + n) rest
unfolding from_big to_big
from_big-to_big_from zero v acc n rest h =
    let same : acc ≡ acc * 1 + n = omega arith in
    ap (λ x. from_big x acc rest) (omega arith) ∙ ap (λ x. from_big v x rest) same
from_big-to_big_from (suc w) v acc n rest h =
    let ih =
      from_big-to_big_from w (suc v) acc (n / 256) ((n % 256) ∷ rest)
        (omega (arith, h, pow-suc 256 w)) in
    let grown : acc * 256 ^ suc w ≡ acc * 256 ^ w * 256 =
      ap (λ x. acc * x) (pow-suc 256 w) ∙ sym (mul_assoc acc (256 ^ w) 256) in
    let count : suc w + v ≡ w + suc v = omega arith in
    ap (λ x. from_big x acc (to_big (suc w) n ++ rest)) count
    ∙ ap (from_big (w + suc v) acc) (append_assoc (to_big w (n / 256)) ((n % 256) ∷ []) rest)
    ∙ ih
    ∙ ap (λ x. from_big v x rest) (omega (arith, grown))

-- The byte of a number at a place, from the lowest.
abbrev pub byte : ℕ → ℕ → ℕ
byte n i = n / 256 ^ i % 256

-- The places from `i` on, the lowest or the highest first.
abbrev rising : ℕ → ℕ → List ℕ
rising zero i = []
rising (suc w) i = i ∷ rising w (suc i)

abbrev falling : ℕ → ℕ → List ℕ
falling zero i = []
falling (suc w) i = falling w (suc i) ++ (i ∷ [])

div_next : (n i : ℕ) → n / 256 ^ i / 256 ≡ n / 256 ^ suc i
div_next n i = div-div-eq-div-mul n (256 ^ i) 256 ∙ ap (λ m. n / m) (sym (pow-suc 256 i))

to_little_bytes : (w n i : ℕ) → to_little w (n / 256 ^ i) ≡ map (byte n) (rising w i)
unfolding to_little
to_little_bytes zero n i = refl
to_little_bytes (suc w) n i =
    ap (λ m. byte n i ∷ to_little w m) (div_next n i)
    ∙ ap (λ l. byte n i ∷ l) (to_little_bytes w n (suc i))

to_big_bytes : (w n i : ℕ) → to_big w (n / 256 ^ i) ≡ map (byte n) (falling w i)
unfolding to_big
to_big_bytes zero n i = refl
to_big_bytes (suc w) n i =
    ap (λ m. to_big w m ++ (byte n i ∷ [])) (div_next n i)
    ∙ ap (λ l. l ++ (byte n i ∷ [])) (to_big_bytes w n (suc i))
    ∙ sym (map-append (byte n) (falling w (suc i)) (i ∷ []))

all_little : (w n : ℕ) → to_little w n ≡ map (byte n) (rising w 0)
all_little w n = ap (to_little w) (omega arith) ∙ to_little_bytes w n 0

all_big : (w n : ℕ) → to_big w n ≡ map (byte n) (falling w 0)
all_big w n = ap (to_big w) (omega arith) ∙ to_big_bytes w n 0

-- The bytes of a number stand from the lowest to the highest, or from the highest to the lowest, and
-- what is read from the bytes is the number, also where more bytes follow.
abbrev pub Codes : List ℕ → (List ℕ → Option ℕ) → List ℕ → ℕ → List ℕ → Type 0
Codes bytes read places n rest = (bytes ≡ map (byte n) places) × (read (bytes ++ rest) ≡ some n)

to_big_read : (w n : ℕ) (rest : List ℕ) → n < 256 ^ w → from_big w 0 (to_big w n ++ rest) ≡ some n
unfolding from_big
to_big_read w n rest h =
    let count : w ≡ w + 0 = omega arith in
    ap (λ x. from_big x 0 (to_big w n ++ rest)) count
    ∙ from_big-to_big_from w 0 0 n rest h
    ∙ ap some (omega arith)

-- The functions of both packages, for each width: a number of the width is written as its two, four
-- or eight bytes, the highest first by bigendian and the lowest first by littleendian, and is read
-- back from them, also where more bytes follow.
pub bytes_roundtrip :
    (n16 n32 n64 : ℕ) (rest : List ℕ)
    → n16 < 2 ^ 16
    → n32 < 2 ^ 32
    → n64 < 2 ^ 64
    → Codes (Big.uint16_to_bytes n16) Big.bytes_to_uint16 (1 ∷ 0 ∷ []) n16 rest
      × Codes (Big.uint32_to_bytes n32) Big.bytes_to_uint32 (3 ∷ 2 ∷ 1 ∷ 0 ∷ []) n32 rest
      × Codes
          (Big.uint64_to_bytes n64)
          Big.bytes_to_uint64
          (7 ∷ 6 ∷ 5 ∷ 4 ∷ 3 ∷ 2 ∷ 1 ∷ 0 ∷ [])
          n64
          rest
      × Codes (Little.uint16_to_bytes n16) Little.bytes_to_uint16 (0 ∷ 1 ∷ []) n16 rest
      × Codes (Little.uint32_to_bytes n32) Little.bytes_to_uint32 (0 ∷ 1 ∷ 2 ∷ 3 ∷ []) n32 rest
      × Codes
          (Little.uint64_to_bytes n64)
          Little.bytes_to_uint64
          (0 ∷ 1 ∷ 2 ∷ 3 ∷ 4 ∷ 5 ∷ 6 ∷ 7 ∷ [])
          n64
          rest
bytes_roundtrip n16 n32 n64 rest h16 h32 h64 = (
  (all_big 2 n16, to_big_read 2 n16 rest (omega arith)),
  (all_big 4 n32, to_big_read 4 n32 rest (omega arith)),
  (all_big 8 n64, to_big_read 8 n64 rest (omega arith)),
  (all_little 2 n16, from_little-to_little 2 n16 rest (omega arith)),
  (all_little 4 n32, from_little-to_little 4 n32 rest (omega arith)),
  (all_little 8 n64, from_little-to_little 8 n64 rest (omega arith)),
)
