-- ===== src/Sha256.antt =====
-- src/crypto/sha256_pure.c: SHA-256 over a context that is fed piece by piece, and
-- src/crypto/sha256.c: its hexadecimal form, in the build that uses it.
-- Of the 64-byte block buffer the context keeps the `block_used` bytes that were written; the rest
-- is always written before it is read.
pub mod Compress
pub mod Stream
pub mod Padding
use otsardb.Base.{
  ℕ, zero, suc, ◌+◌, ◌-◌, ◌*◌, ◌%◌, ◌^◌, Option, none, some, List, [], ◌∷◌, ◌++◌, bit_and, leb, ltb,
  ◌==◌, if◌then◌else◌, ◌>>>◌, take, drop, length, replicate, map,
}
use otsardb.Bytes.{low_byte, byte_at}
use Compress.{compress, initial, store_be32}

pub record Ctx : Type 0 where
  pub h : List ℕ
  pub total_bits : ℕ
  pub block : List ℕ

abbrev pub init : Ctx
init = record { h = initial; total_bits = 0; block = [] }

-- `if (block_used == 64) { compress; block_used = 0; }`
unfoldable pub flush : Ctx → Ctx
flush c = if length c.block == 64 then record c { h = compress c.h c.block; block = [] } else c

-- The loop of `update`; the size of the data is fuel enough while the block is not full.
unfoldable pub update_loop : ℕ → Ctx → List ℕ → Ctx
unfolding flush
update_loop zero c bytes = c
update_loop (suc fuel) c [] = c
update_loop (suc fuel) c (b ∷ bytes) =
    let room = 64 - length c.block in
    update_loop fuel (flush (record c { block = c.block ++ take room (b ∷ bytes) }))
      (drop room (b ∷ bytes))

unfoldable pub update : Ctx → List ℕ → Ctx
unfolding update_loop
update c bytes =
    update_loop (length bytes)
      (record c { total_bits = (c.total_bits + length bytes * 8) % 2 ^ 64 }) bytes

-- The loop that writes the length, from its last byte.
len_loop : ℕ → ℕ → List ℕ → List ℕ
len_loop zero bits out = out
len_loop (suc left) bits out = len_loop left (bits >>> 8) (low_byte bits ∷ out)

unfoldable pub length_bytes : ℕ → List ℕ
unfolding len_loop
length_bytes bits = len_loop 8 bits []

-- `while (block_used < limit) block[block_used++] = 0`
unfoldable pub zero_fill : ℕ → List ℕ → List ℕ
zero_fill limit block = block ++ replicate (limit - length block) 0

-- The block that is left when the padding has been written up to the length.
unfoldable pub final_h : Ctx → List ℕ
unfolding zero_fill length_bytes
final_h c =
    let block = c.block ++ 0x80 ∷ [] in
    let long = ltb 56 (length block) in
    let h = if long then compress c.h (zero_fill 64 block) else c.h in
    let rest = zero_fill 56 (if long then [] else block) in
    compress h (rest ++ length_bytes c.total_bits)

pub store_words : List ℕ → List ℕ
store_words [] = []
store_words (w ∷ words) = store_be32 w ++ store_words words

unfoldable pub final : Ctx → List ℕ
unfolding final_h store_words store_be32
final c = store_words (final_h c)

unfoldable pub digest : List ℕ → List ℕ
unfolding update final compress
digest bytes = final (update init bytes)

-- `otsardb_sha256_hex`: two digits for each byte.
abbrev hex_char : ℕ → ℕ
hex_char d = if ltb d 10 then 48 + d else 87 + d

pub hex : List ℕ → List ℕ
hex [] = []
hex (b ∷ bytes) = hex_char (bit_and (b >>> 4) 0x0f) ∷ hex_char (bit_and b 0x0f) ∷ hex bytes

unfoldable pub hex_data : List ℕ → List ℕ
unfolding hex digest
hex_data bytes = hex (digest bytes)
