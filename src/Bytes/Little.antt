-- ===== src/Bytes/Little.antt =====
-- common/littleendian/bytes.go
use lachesis_base.Base.{ℕ, List, Option}
use lachesis_base.Bytes.{to_little, from_little}

abbrev pub uint64_to_bytes : ℕ → List ℕ
uint64_to_bytes n = to_little 8 n

abbrev pub bytes_to_uint64 : List ℕ → Option ℕ
bytes_to_uint64 b = from_little 8 b

abbrev pub uint32_to_bytes : ℕ → List ℕ
uint32_to_bytes n = to_little 4 n

abbrev pub bytes_to_uint32 : List ℕ → Option ℕ
bytes_to_uint32 b = from_little 4 b

abbrev pub uint16_to_bytes : ℕ → List ℕ
uint16_to_bytes n = to_little 2 n

abbrev pub bytes_to_uint16 : List ℕ → Option ℕ
bytes_to_uint16 b = from_little 2 b
