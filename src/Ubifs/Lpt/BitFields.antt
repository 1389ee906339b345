-- ===== src/Ubifs/Lpt/BitFields.antt =====
-- lpt.c: pack_bits and ubifs_unpack_bits, which put fields of 1 to 32 bits end to end.
use Prim.Native.Nat.{bit_or}
use android_infotm_confident.Prelude.{
  ℕ, zero, suc, ◌+◌, ◌-◌, ◌*◌, ◌/◌, ◌%◌, ◌^◌, ◌==◌, ltb, if◌then◌else◌, List, get_or, set,
}

-- The place of the next field: the byte, and the bit in it.
pub record BitAddr : Type 0 where
  pub addr : ℕ
  pub bit : ℕ

abbrev pub u8 : ℕ → ℕ
u8 n = n % 2 ^ 8

abbrev pub u32 : ℕ → ℕ
u32 n = n % 2 ^ 32

-- The bytes after the first, each of the next eight bits of `val`; `nrbits` counts from the start
-- of the first byte, and byte `i` is written if there are more than `8 * i` bits.
unfoldable pub put_byte : ℕ → ℕ → ℕ → ℕ → ℕ → List ℕ → List ℕ
put_byte p nrbits i val shift buf =
    if ltb (8 * i) nrbits then set buf (p + i) (u8 (val / 2 ^ shift)) else buf

unfoldable pub pack_bits : BitAddr → ℕ → ℕ → List ℕ → List ℕ × BitAddr
unfolding put_byte
pack_bits at val nrbits buf =
    let p = at.addr in
    let b = at.bit in
    let end = nrbits + b in
    if b == 0
    then (
      put_byte p end 3 val 24
          (put_byte p end 2 val 16 (put_byte p end 1 val 8 (set buf p (u8 val)))),
      record { addr = p + end / 8; bit = end % 8 },
    )
    else (
      put_byte p end 4 val (32 - b) (
          put_byte p end 3 val (24 - b) (
            put_byte p end 2 val (16 - b) (
              put_byte p end 1 val (8 - b)
                (set buf p (u8 (bit_or (get_or buf p 0) (u8 val * 2 ^ b))))))),
      record { addr = p + end / 8; bit = end % 8 },
    )

-- The bytes `from`, ... of which `n` are read, the first the lowest.
unfoldable pub word : List ℕ → ℕ → ℕ → ℕ
word buf from zero = 0
word buf from (suc n) = bit_or (get_or buf from 0) (word buf (from + 1) n * 2 ^ 8)

-- `val` has no value of its own where a field ends in the byte it starts in, not at bit 0: it is
-- `junk` there.
unfoldable pub ubifs_unpack_bits : ℕ → List ℕ → BitAddr → ℕ → ℕ × BitAddr
unfolding word
ubifs_unpack_bits junk buf at nrbits =
    let k = 32 - nrbits in
    let p = at.addr in
    let b = at.bit in
    let bytes = (nrbits + b + 7) / 8 in
    let end = nrbits + b in
    let upper = if bytes == 1 then junk else word buf (p + 1) (bytes - 1) in
    let val =
      if b == 0
      then word buf p bytes
      else bit_or (u32 (upper * 2 ^ (8 - b))) (get_or buf p 0 / 2 ^ b) in
    (u32 (val * 2 ^ k) / 2 ^ k, record { addr = p + end / 8; bit = end % 8 })
