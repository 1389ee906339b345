-- ===== src/Ubifs/Key.antt =====
-- modules/ubifs/key.h: keys of the index, in memory and on the flash.
pub mod Fields
pub mod Flash
pub mod Compare
mod Tests
use Prim.Native.Nat.{bit_and, bit_or}
use android_infotm_confident.Prelude.{
  ℕ, ◌+◌, ◌-◌, ◌*◌, ◌/◌, ◌%◌, ◌^◌, Bool, true, false, ◌||◌, ◌==◌, ltb, leb, if◌then◌else◌, List, [],
  ◌∷◌, ◌++◌, replicate, get_or, ℤ, pos, negsuc,
}

abbrev pub ino_key : ℕ
ino_key = 0

abbrev pub data_key : ℕ
data_key = 1

abbrev pub dent_key : ℕ
dent_key = 2

abbrev pub xent_key : ℕ
xent_key = 3

abbrev pub key_types_cnt : ℕ
key_types_cnt = 4

abbrev pub trun_key : ℕ
trun_key = key_types_cnt

abbrev pub invalid_key : ℕ
invalid_key = key_types_cnt

abbrev pub s_key_block_bits : ℕ
s_key_block_bits = 29

abbrev pub s_key_hash_mask : ℕ
s_key_hash_mask = 0x1fff_ffff

abbrev pub block_size : ℕ
block_size = 4096

abbrev pub simple_key_fmt : ℕ
simple_key_fmt = 0

abbrev pub max_key_len : ℕ
max_key_len = 16

abbrev u32 : ℕ → ℕ
u32 n = n % 2 ^ 32

-- `union ubifs_key`: the words u32[0] and u32[1].
pub record UbifsKey : Type 0 where
  pub inum : ℕ
  pub block : ℕ

-- A word in little-endian order, and the word at an offset.
abbrev pub cpu_to_le32 : ℕ → List ℕ
cpu_to_le32 w = w % 256 ∷ (w / 2 ^ 8) % 256 ∷ (w / 2 ^ 16) % 256 ∷ (w / 2 ^ 24) % 256 ∷ []

abbrev pub le32_to_cpu : List ℕ → ℕ → ℕ
le32_to_cpu b off =
    get_or b off 0
    + get_or b (off + 1) 0 * 2 ^ 8
    + get_or b (off + 2) 0 * 2 ^ 16
    + get_or b (off + 3) 0 * 2 ^ 24

unfoldable pub key_mask_hash : ℕ → ℕ
key_mask_hash val =
    let hash = bit_and val s_key_hash_mask in if leb hash 2 then u32 (hash + 3) else hash

-- A `signed char` shifted left and right by four bits, as a 32-bit word.
abbrev shift_left_4 : ℕ → ℕ
shift_left_4 c = if ltb c 128 then c * 16 else 2 ^ 32 - (256 - c) * 16

abbrev shift_right_4 : ℕ → ℕ
shift_right_4 c = if ltb c 128 then c / 16 else 2 ^ 32 - (256 - c + 15) / 16

-- The loop of the hash, over the bytes of a name up to a zero.
unfoldable pub r5_loop : ℕ → List ℕ → ℕ
r5_loop a [] = a
r5_loop a (c ∷ str) =
    let rest = r5_loop (u32 (u32 (u32 (a + shift_left_4 c) + shift_right_4 c) * 11)) str in
    if c == 0 then a else rest

unfoldable pub key_r5_hash : List ℕ → ℕ
unfolding r5_loop key_mask_hash
key_r5_hash s = key_mask_hash (r5_loop 0 s)

-- The first four bytes of the name, or all if there are fewer, in the memory of a little-endian
-- word.
unfoldable pub key_test_hash : List ℕ → ℕ
unfolding key_mask_hash
key_test_hash str = key_mask_hash (le32_to_cpu str 0)

unfoldable pub ino_key_init : ℕ → UbifsKey
ino_key_init inum = record { inum = u32 inum; block = ino_key * 2 ^ s_key_block_bits }

-- `memset(k + 8, 0, UBIFS_MAX_KEY_LEN - 8)` behind the two words.
abbrev pub flash_words : ℕ → ℕ → List ℕ
flash_words w0 w1 = cpu_to_le32 w0 ++ (cpu_to_le32 w1 ++ replicate (max_key_len - 8) 0)

unfoldable pub ino_key_init_flash : ℕ → List ℕ
ino_key_init_flash inum = flash_words (u32 inum) (ino_key * 2 ^ s_key_block_bits)

unfoldable pub lowest_ino_key : ℕ → UbifsKey
lowest_ino_key inum = record { inum = u32 inum; block = 0 }

unfoldable pub highest_ino_key : ℕ → UbifsKey
highest_ino_key inum = record { inum = u32 inum; block = 0xffff_ffff }

-- The functions that hash a name take the hash function of the mounted file system.
unfoldable pub dent_key_init : (List ℕ → ℕ) → ℕ → List ℕ → UbifsKey
dent_key_init key_hash inum nm = record {
  inum = u32 inum;
  block = bit_or (key_hash nm) (dent_key * 2 ^ s_key_block_bits);
}

unfoldable pub dent_key_init_hash : ℕ → ℕ → UbifsKey
dent_key_init_hash inum hash = record {
  inum = u32 inum;
  block = bit_or hash (dent_key * 2 ^ s_key_block_bits);
}

unfoldable pub dent_key_init_flash : (List ℕ → ℕ) → ℕ → List ℕ → List ℕ
dent_key_init_flash key_hash inum nm =
    flash_words (u32 inum) (bit_or (key_hash nm) (dent_key * 2 ^ s_key_block_bits))

unfoldable pub lowest_dent_key : ℕ → UbifsKey
lowest_dent_key inum = record { inum = u32 inum; block = dent_key * 2 ^ s_key_block_bits }

unfoldable pub xent_key_init : (List ℕ → ℕ) → ℕ → List ℕ → UbifsKey
xent_key_init key_hash inum nm = record {
  inum = u32 inum;
  block = bit_or (key_hash nm) (xent_key * 2 ^ s_key_block_bits);
}

unfoldable pub xent_key_init_flash : (List ℕ → ℕ) → ℕ → List ℕ → List ℕ
xent_key_init_flash key_hash inum nm =
    flash_words (u32 inum) (bit_or (key_hash nm) (xent_key * 2 ^ s_key_block_bits))

unfoldable pub lowest_xent_key : ℕ → UbifsKey
lowest_xent_key inum = record { inum = u32 inum; block = xent_key * 2 ^ s_key_block_bits }

unfoldable pub data_key_init : ℕ → ℕ → UbifsKey
data_key_init inum block = record {
  inum = u32 inum;
  block = bit_or block (data_key * 2 ^ s_key_block_bits);
}

unfoldable pub highest_data_key : ℕ → UbifsKey
unfolding data_key_init
highest_data_key inum = data_key_init inum s_key_hash_mask

unfoldable pub trun_key_init : ℕ → UbifsKey
trun_key_init inum = record { inum = u32 inum; block = u32 (trun_key * 2 ^ s_key_block_bits) }

unfoldable pub invalid_key_init : UbifsKey
invalid_key_init = record { inum = 0xdead_beaf; block = invalid_key }

unfoldable pub key_type : UbifsKey → ℕ
key_type key = key.block / 2 ^ s_key_block_bits

unfoldable pub key_type_flash : List ℕ → ℕ
key_type_flash k = le32_to_cpu k 4 / 2 ^ s_key_block_bits

unfoldable pub key_inum : UbifsKey → ℕ
key_inum key = key.inum

unfoldable pub key_inum_flash : List ℕ → ℕ
key_inum_flash k = le32_to_cpu k 0

unfoldable pub key_hash : UbifsKey → ℕ
key_hash key = bit_and key.block s_key_hash_mask

unfoldable pub key_hash_flash : List ℕ → ℕ
key_hash_flash k = bit_and (le32_to_cpu k 4) s_key_hash_mask

unfoldable pub key_block : UbifsKey → ℕ
key_block key = bit_and key.block s_key_hash_mask

unfoldable pub key_block_flash : List ℕ → ℕ
key_block_flash k = bit_and (le32_to_cpu k 4) s_key_hash_mask

unfoldable pub key_read : List ℕ → UbifsKey
key_read from = record { inum = le32_to_cpu from 0; block = le32_to_cpu from 4 }

unfoldable pub key_write : UbifsKey → List ℕ
key_write from = flash_words from.inum from.block

unfoldable pub key_write_idx : UbifsKey → List ℕ
key_write_idx from = cpu_to_le32 from.inum ++ cpu_to_le32 from.block

unfoldable pub keys_cmp : UbifsKey → UbifsKey → ℤ
keys_cmp key1 key2 =
    if ltb key1.inum key2.inum
    then negsuc 0
    else if ltb key2.inum key1.inum
    then pos 1
    else if ltb key1.block key2.block
    then negsuc 0
    else if ltb key2.block key1.block
    then pos 1
    else pos 0

unfoldable pub keys_eq : UbifsKey → UbifsKey → Bool
keys_eq key1 key2 = if key1.inum == key2.inum then key1.block == key2.block else false

unfoldable pub is_hash_key : UbifsKey → Bool
unfolding key_type
is_hash_key key = key_type key == dent_key || key_type key == xent_key

unfoldable pub key_max_inode_size : ℕ → ℕ
key_max_inode_size key_fmt =
    if key_fmt == simple_key_fmt then 2 ^ s_key_block_bits * block_size else 0
