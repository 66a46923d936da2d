-- ===== src/Tmp/Bytes.antt =====
-- `struct.pack` and `struct.unpack` for big-endian fields, and `binascii.crc32`.
use Prim.Native.Nat.{bit_xor}
use homesentinel.Prelude.{
  ℕ, zero, suc, ◌+◌, ◌*◌, ◌/◌, ◌%◌, ◌<◌, ◌≡◌, refl, ◌==◌, List, [], ◌∷◌, length, arith,
  if◌then◌else◌,
}

abbrev pub Bytes : Type 0
Bytes = List ℕ

-- `>H` and `>I`, for numbers in their range
unfoldable pub pack16 : ℕ → Bytes
pack16 n = n / 256 ∷ n % 256 ∷ []

unfoldable pub pack32 : ℕ → Bytes
pack32 n = n / 16777216 ∷ n / 65536 % 256 ∷ n / 256 % 256 ∷ n % 256 ∷ []

-- The number in big-endian bytes
unfoldable pub unpack_from : ℕ → Bytes → ℕ
unpack_from acc [] = acc
unpack_from acc (b ∷ bs) = unpack_from (acc * 256 + b) bs

unfoldable pub unpack : Bytes → ℕ
unfolding unpack_from
unpack bs = unpack_from 0 bs

pub unpack-pack16 : (n : ℕ) → unpack (pack16 n) ≡ n
unfolding unpack unpack_from pack16
unpack-pack16 n = omega arith

pub unpack-pack32 : (n : ℕ) → unpack (pack32 n) ≡ n
unfolding unpack unpack_from pack32
unpack-pack32 n = omega arith

-- The polynomial division of CRC-32, bit by bit, reflected.
unfoldable pub crc_bits : ℕ → ℕ → ℕ
crc_bits zero crc = crc
crc_bits (suc k) crc = crc_bits k (if crc % 2 == 1 then bit_xor (crc / 2) 0xedb88320 else crc / 2)

unfoldable pub crc_bytes : Bytes → ℕ → ℕ
unfolding crc_bits
crc_bytes [] crc = crc
crc_bytes (b ∷ bs) crc = crc_bytes bs (crc_bits 8 (bit_xor crc b))

-- `_crc32`: `binascii.crc32(data) & 0xFFFFFFFF`
unfoldable pub crc32 : Bytes → ℕ
unfolding crc_bytes
crc32 bs = bit_xor (crc_bytes bs 0xffffffff) 0xffffffff % 4294967296

-- The check value of the standard, of the digits 1 to 9
crc32_digits : crc32 (49 ∷ 50 ∷ 51 ∷ 52 ∷ 53 ∷ 54 ∷ 55 ∷ 56 ∷ 57 ∷ []) ≡ 0xcbf43926
unfolding crc32
crc32_digits = refl

-- `encoded[:8].ljust(8, b'\x00')`
unfoldable pub pad : ℕ → Bytes → Bytes
pad zero bs = []
pad (suc k) [] = 0 ∷ pad k []
pad (suc k) (b ∷ bs) = b ∷ pad k bs

-- `bs.rstrip(b'\x00')`
unfoldable pub strip_zeros : Bytes → Bytes
strip_zeros [] = []
strip_zeros (b ∷ bs) =
    let rest = strip_zeros bs in
    elim rest [ [] ↦ if b == 0 then [] else b ∷ [] | x ∷ xs ↦ b ∷ x ∷ xs ]

pub length-pad : (k : ℕ) (bs : Bytes) → length (pad k bs) ≡ k
unfolding pad
length-pad zero bs = refl
length-pad (suc k) [] = omega (arith, length-pad k [])
length-pad (suc k) (b ∷ bs) = omega (arith, length-pad k bs)

strip_zeros-pad_nil : (k : ℕ) → strip_zeros (pad k []) ≡ []
unfolding pad strip_zeros
strip_zeros-pad_nil zero = refl
strip_zeros-pad_nil (suc k) = ground (arith, strip_zeros-pad_nil k)

strip_zeros-tail :
    (b c : ℕ) (bs : Bytes) → strip_zeros (b ∷ c ∷ bs) ≡ b ∷ c ∷ bs → strip_zeros (c ∷ bs) ≡ c ∷ bs
unfolding strip_zeros
strip_zeros-tail b c bs s = ground (arith, s)

-- Padding is undone by stripping, for a name that fits and does not itself end in zeros.
pub strip_zeros-pad :
    (k : ℕ) (bs : Bytes) → length bs < suc k → strip_zeros bs ≡ bs → strip_zeros (pad k bs) ≡ bs
unfolding pad strip_zeros
strip_zeros-pad zero [] h s = refl
strip_zeros-pad zero (b ∷ bs) h s = absurd (omega arith)
strip_zeros-pad (suc k) [] h s = ground (arith, strip_zeros-pad_nil k)
strip_zeros-pad (suc k) (b ∷ []) h s = ground (arith, s, strip_zeros-pad_nil k)
strip_zeros-pad (suc k) (b ∷ c ∷ bs) h s = ground (
  arith,
  s,
  strip_zeros-tail b c bs s,
  strip_zeros-pad k (c ∷ bs) (omega arith) (strip_zeros-tail b c bs s),
)
