-- ===== src/Text/Scan.antt =====
-- Steps of the readers of src/storage/commit_manifest.c and src/storage/checkpoint_manifest.c, which
-- walk a pointer over an array of a JSON document.
use otsardb.Base.{
  ℕ, ◌-◌, ◌^◌, Bool, false, ◌||◌, not, Option, none, some, [], ◌∷◌, ◌==◌, leb, if◌then◌else◌, ◌>>=◌,
  ◌>>◌, guard, length, drop, take,
}
use otsardb.Text.{
  Text, quote, is_prefix, is_space, strstr, strchr, skip_while, scan_digits, sign, strtoull,
}

-- `*p == ' ' || *p == '\t'`
abbrev pub is_blank : ℕ → Bool
is_blank c = c == 32 || c == 9

abbrev pub skip_blanks : Text → Text
skip_blanks = skip_while is_blank

-- `*p == c`, for a `c` that is not NUL.
abbrev pub head_is : ℕ → Text → Bool
head_is c [] = false
head_is c (d ∷ text) = d == c

-- `if (*p != c) return 0; ++p;`
abbrev pub skip_char : ℕ → Text → Option Text
skip_char c [] = none
skip_char c (d ∷ text) = if d == c then some text else none

-- `if (strncmp(p, marker, sizeof(marker) - 1) != 0) return 0; p += sizeof(marker) - 1;`
abbrev pub skip_marker : Text → Text → Option Text
skip_marker marker p = if is_prefix marker p then some (drop (length marker) p) else none

-- The text up to the next quote, and what follows the quote.
unfoldable pub until_quote : Text → Option (Text × Text)
until_quote p = do end ← strchr p quote; some (take (length p - length end) p, drop 1 end)

-- Whether `strtoull` leaves `errno` alone.
unfoldable pub in_range : Text → Bool
in_range p = leb (scan_digits (sign (skip_while is_space p)).1 0).0 (2 ^ 64 - 1)

-- A number that fits 64 bits, after the test for a minus sign.
unfoldable pub parse_u64 : Text → Option (ℕ × Text)
unfolding in_range
parse_u64 p = do
  guard (not (head_is 45 p))
  (value, end) ← strtoull p
  guard (in_range p)
  some (value, end)

-- What stands behind `"name":`, if the pattern fits a buffer of 80 bytes.
unfoldable pub behind_key : Text → Text → Option Text
behind_key json pattern = do
  guard (not (leb 80 (length pattern)))
  found ← strstr json pattern
  some (drop (length pattern) found)

-- The quoted value at the head of a text, for an array of `out_size` bytes.
unfoldable pub quoted_value : Bool → ℕ → Text → Option Text
unfolding until_quote
quoted_value allow_empty out_size p = do
  (value, rest) ← until_quote p
  guard (allow_empty || not (length value == 0))
  guard (not (leb out_size (length value)))
  some value
