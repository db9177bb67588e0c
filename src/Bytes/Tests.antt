-- ===== src/Bytes/Tests.antt =====
-- The bytes of integers (common/bigendian, common/littleendian).
use lachesis_base.Base.{◌≡◌, refl, arith, [], ◌∷◌, none}
use lachesis_base.Bytes.{to_big, to_little, from_big}
use lachesis_base.Bytes.Big
use lachesis_base.Bytes.Little
use lachesis_base.Bytes.Roundtrip.{Codes, bytes_roundtrip}

big_bytes : Big.uint32_to_bytes 258 ≡ 0 ∷ 0 ∷ 1 ∷ 2 ∷ []
unfolding to_big
big_bytes = refl

little_bytes : Little.uint32_to_bytes 258 ≡ 2 ∷ 1 ∷ 0 ∷ 0 ∷ []
unfolding to_little
little_bytes = refl

short_slice : Big.bytes_to_uint32 (1 ∷ 2 ∷ []) ≡ none
unfolding from_big
short_slice = refl

bytes_roundtrip_example :
    Codes (Big.uint16_to_bytes 258) Big.bytes_to_uint16 (1 ∷ 0 ∷ []) 258 (9 ∷ [])
    × Codes (Big.uint32_to_bytes 70_000) Big.bytes_to_uint32 (3 ∷ 2 ∷ 1 ∷ 0 ∷ []) 70_000 (9 ∷ [])
    × Codes
        (Big.uint64_to_bytes 5_000_000_000)
        Big.bytes_to_uint64
        (7 ∷ 6 ∷ 5 ∷ 4 ∷ 3 ∷ 2 ∷ 1 ∷ 0 ∷ [])
        5_000_000_000
        (9 ∷ [])
    × Codes (Little.uint16_to_bytes 258) Little.bytes_to_uint16 (0 ∷ 1 ∷ []) 258 (9 ∷ [])
    × Codes
        (Little.uint32_to_bytes 70_000)
        Little.bytes_to_uint32
        (0 ∷ 1 ∷ 2 ∷ 3 ∷ [])
        70_000
        (9 ∷ [])
    × Codes
        (Little.uint64_to_bytes 5_000_000_000)
        Little.bytes_to_uint64
        (0 ∷ 1 ∷ 2 ∷ 3 ∷ 4 ∷ 5 ∷ 6 ∷ 7 ∷ [])
        5_000_000_000
        (9 ∷ [])
bytes_roundtrip_example =
    bytes_roundtrip 258 70_000 5_000_000_000 (9 ∷ []) (omega arith) (omega arith) (omega arith)
