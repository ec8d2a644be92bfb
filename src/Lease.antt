-- ===== src/Lease.antt =====
-- src/ha/lease.c: the writer lease, an object that names the one process that may publish.
-- The store and the clock are parameters; the clock gives the seconds since 1970, not negative.
-- The lock around the fields of a lease has no counterpart: an operation reads them, calls the store
-- and writes them back.
pub mod Json
pub mod Claim
pub mod Holder
pub mod Written
pub mod Fence
pub mod Exclusion
pub mod Demotion
use otsardb.Base.{
  ℕ, zero, suc, ◌+◌, ◌-◌, ◌%◌, ◌^◌, Bool, true, false, ◌&&◌, ◌||◌, not, Option, none, some, List,
  [], ◌∷◌, ◌++◌, ltb, leb, ◌==◌, if◌then◌else◌, ◌>>=◌, ◌>>◌, guard, length, drop, take,
}
use otsardb.Text.{
  Text, codes, quote, backslash, cstr, snprintf, text_eq, strstr, strchr, is_space, skip_while,
  strtoull, decimal,
}
use otsardb.ObjectStore.{
  StoreResult, Object, PutOptions, no_options, ObjectStore, store_get, store_put, store_delete,
}

abbrev pub ttl_default : ℕ
ttl_default = 30

abbrev pub skew_margin : ℕ
skew_margin = 5

abbrev pub owner_max : ℕ
owner_max = 63

abbrev pub address_max : ℕ
address_max = 255

abbrev pub key_max : ℕ
key_max = 1024

abbrev pub json_max : ℕ
json_max = 512

pub record Lease : Type 0 where
  pub key : Text
  pub owner : Text
  pub address : Text
  pub generation : ℕ
  pub etag : Text
  pub ttl_secs : ℕ
  pub claimed_at : ℕ
  pub lost : Bool

-- A TTL from 2^63 on is negative as an `int64_t`, so its window is 0.
unfoldable pub age_is_expired : ℕ → ℕ → Bool
age_is_expired age_secs ttl_secs =
    let window = if leb (2 ^ 63) ttl_secs then 0 else ttl_secs - skew_margin in leb window age_secs

-- The two formats, and what `snprintf` leaves of them in the buffer of `json_max` bytes.
unfoldable pub lease_json : Text → ℕ → Text → Text
lease_json owner generation address =
    let rest =
      if text_eq address []
      then codes "}"
      else codes ",\"address\":\"" ++ (address ++ codes "\"}") in
    codes "{\"owner\":\"" ++ (owner ++ (codes "\",\"generation\":" ++ (decimal generation ++ rest)))

unfoldable pub encode_lease_json : Text → ℕ → Text → Text
unfolding lease_json
encode_lease_json owner generation address = snprintf json_max (lease_json owner generation address)

-- A quoted string behind a key, shorter than `out_cap`. `none` is a result of 0.
unfoldable pub parse_string_field : Text → ℕ → Text → ℕ → Option Text
parse_string_field json size key out_cap = do
  guard (not (out_cap == 0))
  found ← strstr json key
  value_open ← strchr (drop (length key) found) quote
  let value_start = drop 1 value_open
  value_close ← strchr value_start quote
  guard (ltb (length json - length value_close) size)
  let value_len = length value_start - length value_close
  guard (ltb value_len out_cap)
  some (take value_len value_start)

pub record Fields : Type 0 where
  pub owner : Text
  pub generation : ℕ
  pub address : Text

-- What may follow the number.
abbrev pub closes : Text → Bool
closes [] = true
closes (c ∷ tail) = c == 125 || c == 44

abbrev pub blank : ℕ → Bool
blank c = c == 32 || (c == 9 || (c == 13 || c == 10))

abbrev pub or_empty : Option Text → Text
or_empty none = []
or_empty (some text) = text

unfoldable pub parse_generation : Text → Option ℕ
parse_generation json = do
  gen_key ← strstr json (codes "\"generation\"")
  let number = skip_while (λ c. c == 58 || blank c) (drop 12 gen_key)
  (parsed, end) ← strtoull number
  guard (closes (skip_while blank end))
  some parsed

-- The text of an object of `size` bytes.
unfoldable pub parse_lease_json : Text → ℕ → Option Fields
unfolding parse_string_field parse_generation
parse_lease_json json size = do
  owner ← parse_string_field json size (codes "\"owner\"") (owner_max + 1)
  guard (not (text_eq owner []))
  generation ← parse_generation json
  let address = parse_string_field json size (codes "\"address\"") (address_max + 1)
  some (record { owner = owner; generation = generation; address = or_empty address })

-- A test on the bytes of a text that may be null.
abbrev lacks : ℕ → Text → Bool
lacks c text = elim (strchr text c) [ none ↦ true | some rest ↦ false ]

unfoldable pub address_valid : Option Text → Bool
address_valid none = true
address_valid (some address) = lacks quote address && lacks backslash address

-- The fields are arrays of 64, 256 and 128 bytes.
unfoldable pub lease_set : Lease → Text → ℕ → Option Text → Option Text → ℕ → Lease
lease_set lease owner generation address etag now = record lease {
  owner = snprintf 64 owner;
  generation = generation;
  address = snprintf 256 (if address_valid address then or_empty address else []);
  etag = snprintf 128 (or_empty etag);
  claimed_at = now;
  lost = false;
}
