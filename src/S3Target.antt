-- ===== src/S3Target.antt =====
-- src/storage/s3_target.c: the text that names a database in a bucket, and the identity of the database.
-- `none` is a result of 0; pointers that may be null are tested by the callers.
pub mod Normal
use otsardb.Base.{
  ℕ, zero, suc, ◌+◌, ◌-◌, Bool, true, false, ◌&&◌, ◌||◌, not, Option, none, some, List, [], ◌∷◌,
  ◌++◌, ltb, leb, ◌==◌, if◌then◌else◌, ◌>>=◌, ◌>>◌, guard, length, take, drop,
}
use otsardb.Text.{Text, codes, is_prefix, strchr, skip_while}
use otsardb.Sha256.{hex_data}

abbrev pub bucket_max : ℕ
bucket_max = 255

abbrev pub root_max : ℕ
root_max = 1023

abbrev pub slash : ℕ
slash = 47

pub record Target : Type 0 where
  pub bucket : Text
  pub database_root : Text

-- A byte '?' or '#'.
abbrev pub has_forbidden_uri_suffix : Text → Bool
has_forbidden_uri_suffix [] = false
has_forbidden_uri_suffix (c ∷ value) = (c == 63 || c == 35) || has_forbidden_uri_suffix value

-- What stands behind one of the two schemes.
unfoldable pub behind_scheme : Text → Option Text
behind_scheme value =
    if is_prefix (codes "s3://") value
    then some (drop 5 value)
    else if is_prefix (codes "otsardb+s3://") value
    then some (drop 13 value)
    else none

abbrev pub is_slash : ℕ → Bool
is_slash c = c == slash

abbrev pub keep_before : ℕ → Text → Text
keep_before c [] = if is_slash c then [] else c ∷ []
keep_before c (d ∷ text) = c ∷ d ∷ text

-- `while (root_size > 0 && root[root_size - 1] == '/') --root_size`
abbrev pub strip_end : Text → Text
strip_end [] = []
strip_end (c ∷ text) = keep_before c (strip_end text)

-- Whether a part of the target can be taken.
abbrev pub valid_part : ℕ → Text → Bool
valid_part max part =
    ltb 0 (length part) && (leb (length part) max && not (has_forbidden_uri_suffix part))

-- `otsardb_s3_target_parse`
unfoldable pub parse : Text → Option Target
unfolding behind_scheme
parse value = do
  cursor ← behind_scheme value
  found ← strchr cursor slash
  let bucket = take (length cursor - length found) cursor
  guard (valid_part bucket_max bucket)
  let root = strip_end (skip_while is_slash (drop 1 found))
  guard (valid_part root_max root)
  some (record { bucket = bucket; database_root = root })

-- The canonical text of a target.
abbrev pub identity : Target → Text
identity target = codes "s3://" ++ (target.bucket ++ slash ∷ target.database_root)

-- `otsardb_s3_target_database_id`
unfoldable pub database_id : Target → Option Text
database_id target = do
  guard (not (length target.bucket == 0 || length target.database_root == 0))
  guard (leb (length target.bucket) bucket_max && leb (length target.database_root) root_max)
  some (codes "db-" ++ take 48 (hex_data (identity target)))
