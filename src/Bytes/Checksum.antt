-- ===== src/Bytes/Checksum.antt =====
-- hash/crc32's ChecksumIEEE and hash/fnv's New64a, as the program calls them.
use Prim.Native.Nat.{bit_xor}
use ascent_db.Prelude.{
  ℕ, zero, suc, ◌*◌, ◌/◌, ◌%◌, ◌≡◌, refl, arith, List, [], ◌∷◌, ◌==◌, if◌then◌else◌,
}
use ascent_db.Bytes.Word.{u32, u64, IsU32}

-- One bit of the reflected polynomial 0xEDB88320.
crc_bit : ℕ → ℕ
crc_bit c = if (c % 2) == 1 then bit_xor (c / 2) 0xedb88320 else c / 2

crc_bits : ℕ → ℕ → ℕ
unfolding crc_bit
crc_bits zero c = c
crc_bits (suc n) c = crc_bits n (crc_bit c)

crc_bytes : List ℕ → ℕ → ℕ
unfolding crc_bits
crc_bytes [] c = c
crc_bytes (b ∷ bs) c = crc_bytes bs (crc_bits 8 (bit_xor c b))

-- crc32.ChecksumIEEE, a uint32.
unfoldable pub checksum : List ℕ → ℕ
unfolding crc_bytes
checksum bs = u32 (bit_xor (crc_bytes bs 0xffff_ffff) 0xffff_ffff)

pub checksum-lt : (bs : List ℕ) → IsU32 (checksum bs)
unfolding checksum
checksum-lt bs = omega arith

-- The check value that the CRC catalogue lists for the digits 1 to 9.
checksum_check_value :
    checksum (0x31 ∷ 0x32 ∷ 0x33 ∷ 0x34 ∷ 0x35 ∷ 0x36 ∷ 0x37 ∷ 0x38 ∷ 0x39 ∷ []) ≡ 0xcbf4_3926
unfolding checksum
checksum_check_value = refl

fnv_bytes : List ℕ → ℕ → ℕ
fnv_bytes [] h = h
fnv_bytes (b ∷ bs) h = fnv_bytes bs (u64 (bit_xor h b * 0x100_0000_01b3))

-- `h := fnv.New64a(); h.Write(bs); h.Sum64()`
unfoldable pub fnv64a : List ℕ → ℕ
unfolding fnv_bytes
fnv64a bs = fnv_bytes bs 0xcbf2_9ce4_8422_2325

-- The published value for the text "a".
fnv64a_of_a : fnv64a (0x61 ∷ []) ≡ 0xaf63_dc4c_8601_ec8c
unfolding fnv64a
fnv64a_of_a = refl
