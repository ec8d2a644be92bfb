-- ===== src/Checksum.antt =====
-- src/storage/checksum.c: the rolling database checksum, an exclusive or over the CRC-64-ISO of
-- every page with its number, its hexadecimal form, and the parser of that form.
-- A text is the list of its bytes up to the NUL, which is read as 0 behind the end.
pub mod Rebase
pub mod Whole
pub mod Hex
use otsardb.Base.{
  ℕ, zero, suc, ◌+◌, ◌-◌, ◌*◌, ◌%◌, ◌^◌, Bool, true, false, ◌&&◌, Option, none, some, List, [], ◌∷◌,
  ◌++◌, bit_and, bit_or, bit_xor, ltb, leb, ◌==◌, if◌then◌else◌, ◌<<<◌, ◌>>>◌, take, drop, length,
  replicate, get_or,
}
use otsardb.Bytes.{put_u64_be, byte_at}

abbrev pub max_page : ℕ
max_page = 65536

abbrev pub all_ones : ℕ
all_ones = 2 ^ 64 - 1

-- One round of the inner loop of `crc64_iso`.
unfoldable pub crc64_bit : ℕ → ℕ
crc64_bit crc = bit_xor (crc >>> 1) (if bit_and crc 1 == 0 then 0 else 0xD800_0000_0000_0000)

pub crc64_bits : ℕ → ℕ → ℕ
unfolding crc64_bit
crc64_bits zero crc = crc
crc64_bits (suc rounds) crc = crc64_bits rounds (crc64_bit crc)

pub crc64_loop : List ℕ → ℕ → ℕ
unfolding crc64_bits
crc64_loop [] crc = crc
crc64_loop (b ∷ bytes) crc = crc64_loop bytes (crc64_bits 8 (bit_xor crc b))

-- `~crc` on 64 bits flips every bit.
unfoldable pub crc64_iso : List ℕ → ℕ
unfolding crc64_loop
crc64_iso bytes = bit_xor (crc64_loop bytes all_ones) all_ones

-- `page` is `none` for a null pointer.
unfoldable pub accumulate : ℕ → ℕ → Option (List ℕ) → ℕ → ℕ
unfolding crc64_iso put_u64_be
accumulate current page_no none page_size = current
accumulate current page_no (some page) page_size =
    if ltb max_page page_size
    then current
    else bit_xor current (crc64_iso (put_u64_be page_no ++ take page_size page))

-- The loop of `otsardb_checksum_compute` at index `i`, with the rounds that are left.
pub compute_loop : ℕ → ℕ → List ℕ → ℕ → ℕ → ℕ
compute_loop page_size zero p i c = c
compute_loop page_size (suc rounds) p i c =
    compute_loop page_size rounds p (i + 1)
      (accumulate c (i + 1) (some (drop (i * page_size) p)) page_size)

unfoldable pub compute : Option (List ℕ) → ℕ → ℕ → ℕ
unfolding compute_loop
compute none page_size count = 0
compute (some pages) page_size count = compute_loop page_size count pages 0 0

-- A page that `fread` filled, the rest of it set to zero by `memset`.
pub read_page : ℕ → List ℕ → List ℕ
read_page page_size rest =
    let got = take page_size rest in got ++ replicate (page_size - length got) 0

-- The loop of `otsardb_checksum_file`; `rest` is what the file holds behind its read position.
pub file_loop : ℕ → ℕ → List ℕ → ℕ → ℕ → ℕ
unfolding read_page
file_loop page_size zero rest i c = c
file_loop page_size (suc rounds) rest i c =
    file_loop page_size rounds (drop page_size rest) (i + 1)
      (accumulate c ((i + 1) % 2 ^ 32) (some (read_page page_size rest)) page_size)

-- `none` is a null file or one that cannot be rewound.
unfoldable pub file : Option (List ℕ) → ℕ → ℕ → ℕ
unfolding file_loop
file none page_size page_count = 0
file (some bytes) page_size page_count = file_loop page_size page_count bytes 0 0

abbrev pub hex_size : ℕ
hex_size = 16

-- The table `"0123456789abcdef"`.
abbrev pub hex_digit : ℕ → ℕ
hex_digit d = if ltb d 10 then 48 + d else 87 + d

-- The loop of `otsardb_checksum_hex` fills the text from its end.
pub hex_loop : ℕ → ℕ → List ℕ → List ℕ
hex_loop zero checksum out = out
hex_loop (suc rounds) checksum out =
    hex_loop rounds (checksum >>> 4) (hex_digit (bit_and checksum 0xF) ∷ out)

unfoldable pub hex : ℕ → List ℕ
unfolding hex_loop
hex checksum = hex_loop hex_size checksum []

unfoldable pub hex_value : ℕ → Option ℕ
hex_value c =
    if leb 48 c && leb c 57
    then some (c - 48)
    else if leb 97 c && leb c 102
    then some (c - 97 + 10)
    else if leb 65 c && leb c 70
    then some (c - 65 + 10)
    else none

-- The loop of `otsardb_checksum_parse` at index `i`; a text that ends early has 0 there.
pub parse_loop : ℕ → ℕ → List ℕ → ℕ → Option ℕ
unfolding hex_value
parse_loop zero i text v = if byte_at text hex_size == 0 then some v else none
parse_loop (suc rounds) i text v = elim (hex_value (byte_at text i)) [
  | none ↦ none
  | some d ↦ parse_loop rounds (i + 1) text (bit_or ((v <<< 4) % 2 ^ 64) d)
]

unfoldable pub parse : Option (List ℕ) → Option ℕ
unfolding parse_loop
parse none = none
parse (some text) = parse_loop hex_size 0 text 0
