-- ===== src/Segment.antt =====
-- src/storage/segment.c: the object that stores the frames of a commit, as a whole (formats 1 and 2)
-- and as blocks of single pages (format 3). `none` is a result of 0; pointers that may be null are
-- tested by the callers. LZ4 is a parameter. Memory allocation is taken to succeed.
pub mod Frame
pub mod Bounds
pub mod Block
pub mod Pages
pub mod Layout
pub mod Whole
use otsardb.Base.{
  ℕ, zero, suc, ◌+◌, ◌-◌, ◌*◌, ◌/◌, ◌%◌, ◌^◌, ◌≤◌, ◌<◌, ◌≡◌, Bool, true, false, ◌&&◌, ◌||◌, not,
  Option, none, some, List, [], ◌∷◌, ◌++◌, bit_and, bit_xor, ltb, leb, ◌==◌, if◌then◌else◌, ◌>>=◌,
  ◌>>◌, guard, length, take, drop, ◌>>>◌,
}
use otsardb.Bytes.{
  byte_at, put_u16_le, put_u32_le, put_u64_le, get_u16_le, get_u32_le, get_u64_le, bytes_eq,
}
use otsardb.Sha256.{digest, hex, hex_data}

-- "ARKSEG01"
abbrev pub magic : List ℕ
magic = 65 ∷ 82 ∷ 75 ∷ 83 ∷ 69 ∷ 71 ∷ 48 ∷ 49 ∷ []

abbrev pub header_size : ℕ
header_size = 60

abbrev pub max_decompressed : ℕ
max_decompressed = 2 ^ 30

abbrev pub commit_id_max : ℕ
commit_id_max = 63

abbrev pub block_header_size : ℕ
block_header_size = 13

abbrev pub flag_lz4 : ℕ
flag_lz4 = 1

abbrev pub format_version : ℕ
format_version = 3

abbrev pub wal_frames : ℕ
wal_frames = 1

-- The functions of LZ4 that the source calls. A bound of 0 stands for a size that is not supported;
-- `compress_default` gives what it wrote within a capacity, `none` is a result of 0.
-- `decompress_safe` takes the source, its size as the bits of an `int`, and the capacity, and gives
-- what it wrote, `none` for a negative result.
pub record Lz4 : Type 0 where
  pub compress_bound : ℕ → ℕ
  pub compress_default : List ℕ → ℕ → Option (List ℕ)
  pub decompress_safe : List ℕ → ℕ → ℕ → Option (List ℕ)

-- What LZ4 documents: what it compressed, it gives back.
pub record IsLz4 (lz : Lz4) : Type 0 where
  pub restores :
      (source out rest : List ℕ) (capacity : ℕ)
      → length source < 2 ^ 31
      → lz.compress_default source capacity ≡ some out
      → lz.decompress_safe (out ++ rest) (length out) (length source) ≡ some source

-- The entry of the table for a byte: eight rounds.
crc_rounds : ℕ → ℕ → ℕ
crc_rounds zero c = c
crc_rounds (suc left) c =
    crc_rounds left (if bit_and c 1 == 1 then bit_xor 0xEDB88320 (c >>> 1) else c >>> 1)

crc_loop : List ℕ → ℕ → ℕ
unfolding crc_rounds
crc_loop [] crc = crc
crc_loop (b ∷ bytes) crc =
    crc_loop bytes (bit_xor (crc_rounds 8 (bit_and (bit_xor crc b) 0xff)) (crc >>> 8))

-- `otsardb_segment_crc32`, with the table worked out where it is read.
unfoldable pub crc32 : List ℕ → ℕ
unfolding crc_loop
crc32 bytes = bit_xor (crc_loop bytes 0xFFFF_FFFF) 0xFFFF_FFFF

pub record View : Type 0 where
  pub version : ℕ
  pub kind : ℕ
  pub commit_id : List ℕ
  pub payload : List ℕ
  pub payload_size : ℕ
  pub compressed : Bool
  pub payload_sha256 : List ℕ

-- An encoded object, the text of its digest, and the offset and the page of each block.
pub record Encoded : Type 0 where
  pub bytes : List ℕ
  pub object_sha256 : List ℕ
  pub frames : List (ℕ × ℕ)

-- The object around a stored payload, as both encoders write it.
unfoldable pub encode_object : ℕ → ℕ → List ℕ → ℕ → List ℕ → List ℕ
encode_object version kind commit_id flags stored =
    magic
    ++ (put_u32_le version
        ++ (put_u32_le kind
            ++ (put_u16_le (length commit_id)
                ++ (put_u16_le flags
                    ++ (put_u64_le (length stored) ++ (digest stored ++ (commit_id ++ stored)))))))

-- Whether the sizes of an object can be added in `size_t`.
abbrev pub fits_size : ℕ → ℕ → Bool
fits_size commit_id_len stored_size =
    leb commit_id_len (2 ^ 64 - 1 - header_size)
    && leb (header_size + commit_id_len) (2 ^ 64 - 1 - stored_size)

-- The payload as format 2 stores it: the flags, and the bytes behind the size of the payload.
unfoldable pub stored_payload : List ℕ → Option (List ℕ) → ℕ × List ℕ
stored_payload payload none = (0, payload)
stored_payload payload (some out) =
    if ltb 0 (length out) && ltb (length out + 4) (length payload)
    then (flag_lz4, put_u32_le (length payload) ++ out)
    else (0, payload)

module _ (lz : Lz4) where
  -- What LZ4 makes of some bytes, if it is asked to and can take them.
  unfoldable pub try_compress : Bool → List ℕ → Option (List ℕ)
  try_compress compress bytes =
      let bound = lz.compress_bound (length bytes) in
      if (compress && (leb 64 (length bytes) && leb (length bytes) (2 ^ 31 - 1))) && ltb 0 bound
      then lz.compress_default bytes bound
      else none

  -- `otsardb_segment_encode`
  unfoldable pub encode : ℕ → List ℕ → List ℕ → Bool → Option Encoded
  unfolding try_compress stored_payload encode_object
  encode kind commit_id payload compress = do
    guard (not (length commit_id == 0 || kind == 0))
    guard (leb (length commit_id) commit_id_max)
    let (flags, stored) = stored_payload payload (try_compress compress payload)
    guard (fits_size (length commit_id) (length stored))
    let bytes = encode_object 2 kind commit_id flags stored
    some (record { bytes = bytes; object_sha256 = hex_data bytes; frames = [] })

-- The conditions of the decoder on the fields of the header.
abbrev pub valid_fields : ℕ → ℕ → ℕ → ℕ → Bool
valid_fields version kind commit_id_len flags =
    (version == 1 || (version == 2 || version == format_version))
    && (not (kind == 0)
        && ((ltb 0 commit_id_len && leb commit_id_len commit_id_max)
            && (bit_and flags 0xfffe == 0
                && not
                    ((version == 1 && not (flags == 0)) || (leb 3 version && not (flags == 0))))))

unfoldable pub decode : List ℕ → ℕ → Option View
decode object size = do
  guard (leb header_size size)
  guard (bytes_eq (take 8 object) magic)
  let version = get_u32_le (drop 8 object)
  let kind = get_u32_le (drop 12 object)
  let commit_id_len = get_u16_le (drop 16 object)
  let flags = get_u16_le (drop 18 object)
  let payload_size = get_u64_le (drop 20 object)
  let expected_digest = take 32 (drop 28 object)
  guard (valid_fields version kind commit_id_len flags)
  let expected_size = header_size + commit_id_len
  guard (leb expected_size (2 ^ 64 - 1 - payload_size))
  guard (size == expected_size + payload_size)
  let payload = drop (header_size + commit_id_len) object
  let actual_digest = digest (take payload_size payload)
  guard (bytes_eq actual_digest expected_digest)
  some (record {
    version = version;
    kind = kind;
    commit_id = take commit_id_len (drop header_size object);
    payload = payload;
    payload_size = payload_size;
    compressed = leb 3 version || bit_and flags flag_lz4 == 1;
    payload_sha256 = hex actual_digest;
  })
