-- ===== src/Hashring/Point.antt =====
-- What the ring takes from the standard library: hash/crc32's ChecksumIEEE and strconv.Itoa.
use Prim.Native.Nat.{bit_xor}
use clusterplex.Prelude.{
  ℕ, zero, suc, ◌+◌, ◌/◌, ◌%◌, ◌≡◌, refl, [], ◌∷◌, if◌then◌else◌, ltb, nat_beq, Str, str,
}

-- One bit of the reflected polynomial's division.
crc_bit : ℕ → ℕ
crc_bit c = if nat_beq (c % 2) 1 then bit_xor (c / 2) 0xEDB88320 else c / 2

crc_byte : ℕ → ℕ → ℕ
unfolding crc_bit
crc_byte c b =
    crc_bit (crc_bit (crc_bit (crc_bit (crc_bit (crc_bit (crc_bit (crc_bit (bit_xor c b))))))))

crc_bytes : ℕ → Str → ℕ
unfolding crc_byte
crc_bytes c [] = c
crc_bytes c (b ∷ bs) = crc_bytes (crc_byte c b) bs

unfoldable pub crc32 : Str → ℕ
unfolding crc_bytes
crc32 s = bit_xor (crc_bytes 0xFFFFFFFF s) 0xFFFFFFFF

-- The published check value of the checksum.
crc32_check : crc32 (str "123456789") ≡ 0xCBF43926
unfolding crc32
crc32_check = refl

-- The last digits of n before those written so far; the fuel is above the number of digits.
unfoldable pub itoa_from : ℕ → ℕ → Str → Str
itoa_from zero n acc = acc
itoa_from (suc f) n acc =
    let rest = itoa_from f (n / 10) ((48 + n % 10) ∷ acc) in
    if ltb n 10 then (48 + n) ∷ acc else rest

unfoldable pub itoa : ℕ → Str
unfolding itoa_from
itoa n = itoa_from (suc n) n []

itoa_check : itoa 1075 ≡ str "1075"
unfolding itoa
itoa_check = refl
