-- ===== src/Bytes/Big.antt =====
-- common/bigendian/bytes.go
use lachesis_base.Base.{ℕ, List, Option}
use lachesis_base.Bytes.{to_big, from_big}

abbrev pub uint64_to_bytes : ℕ → List ℕ
uint64_to_bytes n = to_big 8 n

abbrev pub bytes_to_uint64 : List ℕ → Option ℕ
bytes_to_uint64 b = from_big 8 0 b

abbrev pub uint32_to_bytes : ℕ → List ℕ
uint32_to_bytes n = to_big 4 n

abbrev pub bytes_to_uint32 : List ℕ → Option ℕ
bytes_to_uint32 b = from_big 4 0 b

abbrev pub uint16_to_bytes : ℕ → List ℕ
uint16_to_bytes n = to_big 2 n

abbrev pub bytes_to_uint16 : List ℕ → Option ℕ
bytes_to_uint16 b = from_big 2 0 b
