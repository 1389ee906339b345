-- ===== src/Ubifs/Key/Flash.antt =====
-- Keys go to the flash and come back.
use android_infotm_confident.Prelude.{
  ℕ, ◌+◌, ◌*◌, ◌/◌, ◌%◌, ◌^◌, ◌<◌, ◌≡◌, refl, List, length, arith,
}
use android_infotm_confident.Ubifs.Key.{
  UbifsKey, max_key_len, key_read, key_write, key_write_idx, key_type, key_type_flash, key_inum,
  key_inum_flash, key_hash, key_hash_flash, key_block, key_block_flash, dent_key_init,
  dent_key_init_flash, xent_key_init, xent_key_init_flash, ino_key_init, ino_key_init_flash,
}

le32_lem :
    (w : ℕ)
    → w < 2 ^ 32
    → w % 256
        + (w / 2 ^ 8) % 256 * 2 ^ 8
        + (w / 2 ^ 16) % 256 * 2 ^ 16
        + (w / 2 ^ 24) % 256 * 2 ^ 24
      ≡ w
le32_lem w h = omega arith

-- A key of two 32-bit words that key_write or key_write_idx has written is what key_read reads,
-- and key_write fills the full length of a key.
pub key_read-key_write :
    (key : UbifsKey)
    → key.inum < 2 ^ 32
    → key.block < 2 ^ 32
    → (key_read (key_write key) ≡ key)
      × (key_read (key_write_idx key) ≡ key)
      × (length (key_write key) ≡ max_key_len)
unfolding key_read key_write key_write_idx
key_read-key_write key h l = ground (arith, le32_lem key.inum h, le32_lem key.block l)

-- For a key of two 32-bit words: its type, inode number, hash and block number are the same when
-- they are read off the key that key_write has written as when they are read off the key in
-- memory.
pub flash_fields :
    (key : UbifsKey)
    → key.inum < 2 ^ 32
    → key.block < 2 ^ 32
    → (key_type_flash (key_write key) ≡ key_type key)
      × (key_inum_flash (key_write key) ≡ key_inum key)
      × (key_hash_flash (key_write key) ≡ key_hash key)
      × (key_block_flash (key_write key) ≡ key_block key)
unfolding key_type_flash key_type key_inum_flash key_inum key_hash_flash key_hash key_block_flash
    key_block key_write
flash_fields key h l = ground (arith, le32_lem key.inum h, le32_lem key.block l)

-- For any hash function, inode number and name, the key of an inode, of a directory entry and of
-- an attribute that is built on the flash is what key_write writes of the one built in memory.
pub init_flash :
    (hash : List ℕ → ℕ) (inum : ℕ) (nm : List ℕ)
    → (ino_key_init_flash inum ≡ key_write (ino_key_init inum))
      × (dent_key_init_flash hash inum nm ≡ key_write (dent_key_init hash inum nm))
      × (xent_key_init_flash hash inum nm ≡ key_write (xent_key_init hash inum nm))
unfolding ino_key_init_flash ino_key_init dent_key_init_flash dent_key_init xent_key_init_flash
    xent_key_init key_write
init_flash hash inum nm = (refl, refl, refl)
