-- ===== src/Tests/ChecksumTests.antt =====
-- Tests of src/storage/checksum.c: the check value of its comment, and instances of the theorems.
use otsardb.Base.{ℕ, ◌<◌, ◌^◌, ◌≡◌, refl, some, none, List, [], ◌∷◌, arith, length}
use otsardb.Checksum.{crc64_iso, accumulate, compute, file, hex, parse}
use otsardb.Checksum.Rebase.{compute-replace}
use otsardb.Checksum.Whole.{file-eq-compute, parse-hex-compute}
use otsardb.Checksum.Hex.{parse-hex}

-- "123456789"
abbrev check_text : List ℕ
check_text = 49 ∷ 50 ∷ 51 ∷ 52 ∷ 53 ∷ 54 ∷ 55 ∷ 56 ∷ 57 ∷ []

crc64_iso_check : crc64_iso check_text ≡ 0xb909_56c7_75a4_1001
unfolding crc64_iso
crc64_iso_check = refl

parse_rejects : parse (some check_text) ≡ none
unfolding parse
parse_rejects = refl

abbrev image : List ℕ
image = 1 ∷ 2 ∷ 3 ∷ 4 ∷ 5 ∷ 6 ∷ []

compute-replace_example :
    compute (some (1 ∷ 2 ∷ 9 ∷ 8 ∷ 5 ∷ 6 ∷ [])) 2 3
    ≡ accumulate
        (accumulate (compute (some image) 2 3) 2 (some (3 ∷ 4 ∷ [])) 2)
        2
        (some (9 ∷ 8 ∷ []))
        2
compute-replace_example =
    compute-replace 2 1 (1 ∷ 2 ∷ []) (3 ∷ 4 ∷ []) (9 ∷ 8 ∷ []) (5 ∷ 6 ∷ []) refl refl refl 3
      (omega arith)

file-eq-compute_example : file (some image) 2 3 ≡ compute (some image) 2 3
file-eq-compute_example = file-eq-compute image 2 3 (omega arith) (omega arith)

parse-hex_example :
    (length (hex 0xb909_56c7_75a4_1001) ≡ 16)
    × (parse (some (hex 0xb909_56c7_75a4_1001)) ≡ some 0xb909_56c7_75a4_1001)
parse-hex_example = parse-hex 0xb909_56c7_75a4_1001 (omega arith)

parse-hex-compute_example :
    (compute (some image) 2 3 < 2 ^ 64)
    × (parse (some (hex (compute (some image) 2 3))) ≡ some (compute (some image) 2 3))
parse-hex-compute_example = parse-hex-compute image 2 3 (omega arith)
