-- ===== src/Lease/Json.antt =====
-- The JSON document of a lease is read back as it was written.
use otsardb.Base.{
  ℕ, ◌+◌, ◌-◌, ◌≤◌, ◌<◌, ◌^◌, ◌≡◌, ◌≢◌, refl, ap, sym, ◌∙◌, true, false, ◌||◌, ◌==◌, some, none, [],
  ◌∷◌, ◌++◌, length, drop, take, length-append, take-append, take_all, All-append, if◌then◌else◌,
  arith, Bool-cases, inl, inr,
}
use otsardb.Text.{Text, codes, quote, cstr, text_eq, strstr, skip_while, decimal}
use otsardb.Text.Search.{Lacks, strchr-append, strstr-append, strstr-other, cstr_id, text_eq→eq}
use otsardb.Text.Decimal.{Ends, strtoull-decimal, skip_while-decimal, decimal-Lacks, decimal_size}
use otsardb.Lease.{
  lease_json, encode_lease_json, parse_string_field, parse_generation, parse_lease_json, closes,
  blank, or_empty,
}

-- The search for a field is over: what stands behind the key is a colon and a quoted value.
field_read :
    (json key found value rest : Text) (cap : ℕ)
    → strstr json key ≡ some found
    → drop (length key) found ≡ 58 ∷ quote ∷ (value ++ quote ∷ rest)
    → Lacks quote value
    → length value < cap
    → 1 ≤ length json
    → parse_string_field json (length json) key cap ≡ some value
unfolding parse_string_field
field_read json key found value rest cap e e' h short long =
    let close = strchr-append quote value rest h in
    let size = length-append value (quote ∷ rest) in
    let len : length (value ++ quote ∷ rest) - length (quote ∷ rest) ≡ length value = omega arith in
    rw (e, e', close, len) (ground (arith, take-append (length value) value (quote ∷ rest) refl))

field_missing :
    (json key : Text) (size cap : ℕ)
    → strstr json key ≡ none
    → parse_string_field json size key cap ≡ none
unfolding parse_string_field
field_missing json key size cap e = rw e (ground arith)

parse_fields :
    (json owner : Text) (generation : ℕ) (address : Text)
    → parse_string_field json (length json) (codes "\"owner\"") 64 ≡ some owner
    → text_eq owner [] ≡ false
    → parse_generation json ≡ some generation
    → or_empty (parse_string_field json (length json) (codes "\"address\"") 256) ≡ address
    → parse_lease_json json (length json)
      ≡ some (record { owner = owner; generation = generation; address = address })
parse_fields json owner generation address o given g a =
    unfold parse_lease_json in rw (o, given, g, a) refl

-- What a claim writes of itself: an owner that is no key of the document, and an address.
pub record Writable (owner : Text) (generation : ℕ) (address : Text) : Type 0 where
  pub owner_given : text_eq owner [] ≡ false
  pub owner_plain : Lacks quote owner
  pub owner_bytes : Lacks 0 owner
  pub owner_size : length owner ≤ 63
  pub not_generation : text_eq (codes "generation") owner ≡ false
  pub not_address : text_eq (codes "address") owner ≡ false
  pub in_range : generation < 2 ^ 64
  pub address_plain : Lacks quote address
  pub address_bytes : Lacks 0 address
  pub address_size : length address ≤ 255

-- What follows the generation.
abbrev tail_of : Text → Text
tail_of address =
    if text_eq address [] then codes "}" else codes ",\"address\":\"" ++ (address ++ codes "\"}")

abbrev behind_owner : ℕ → Text → Text
behind_owner generation address =
    codes ",\"generation\":" ++ (decimal generation ++ tail_of address)

tail_size : (address : Text) → length (tail_of address) ≤ length address + 15
tail_size [] = omega arith
tail_size (c ∷ a) = omega (arith, length-append (c ∷ a) (codes "\"}"))

tail_bytes : (address : Text) → Lacks 0 address → Lacks 0 (tail_of address)
tail_bytes [] h = omega arith
tail_bytes (c ∷ a) h =
    let end : Lacks 0 (codes "\"}") = omega arith in
    let key : Lacks 0 (codes ",\"address\":\"") = omega arith in
    All-append (λ d. d ≢ 0) (codes ",\"address\":\"") ((c ∷ a) ++ codes "\"}") key
      (All-append (λ d. d ≢ 0) (c ∷ a) (codes "\"}") h end)

module _ (owner : Text) (generation : ℕ) (address : Text)
    (ok : Writable owner generation address) where
  abbrev json : Text
  json = codes "{\"owner\":\"" ++ (owner ++ quote ∷ behind_owner generation address)

  json_lem : lease_json owner generation address ≡ json
  unfolding lease_json
  json_lem = refl

  owner_read : parse_string_field json (length json) (codes "\"owner\"") 64 ≡ some owner
  owner_read =
      let size = ok.owner_size in
      field_read json (codes "\"owner\"") (drop 1 json) owner (behind_owner generation address) 64
        refl refl ok.owner_plain (omega arith) (omega arith)

  tail_of-Ends : (a : Text) → Ends (tail_of a)
  tail_of-Ends [] = refl
  tail_of-Ends (c ∷ a) = refl

  tail_closes : (a : Text) → closes (skip_while blank (tail_of a)) ≡ true
  tail_closes [] = refl
  tail_closes (c ∷ a) = refl

  generation_read : parse_generation json ≡ some generation
  unfolding parse_generation
  generation_read =
      let key =
        strstr-other (codes "generation") owner (behind_owner generation address) (omega arith)
          ok.owner_plain ok.not_generation in
      let skipped =
        skip_while-decimal (λ c. c == 58 || blank c) generation (tail_of address) ok.in_range
          (λ d h. ground arith) in
      let number =
        strtoull-decimal generation (tail_of address) ok.in_range (tail_of-Ends address) in
      rw (key, skipped, number, tail_closes address) refl

  abbrev address_key : Text
  address_key = codes "\"address\""

  -- The search for the address reaches what follows the generation.
  reach_tail : strstr json address_key ≡ strstr (tail_of address) address_key
  reach_tail =
      strstr-other (codes "address") owner (behind_owner generation address) (omega arith)
        ok.owner_plain ok.not_address
      ∙ strstr-append quote (codes "address\"") (decimal generation) (tail_of address)
          (decimal-Lacks quote generation (omega arith))

  abbrev address_tail : Text
  address_tail = codes ",\"address\":\"" ++ (address ++ codes "\"}")

  address_found :
      text_eq address [] ≡ false
      → parse_string_field json (length json) address_key 256 ≡ some address
  address_found given =
      let tail : tail_of address ≡ address_tail = rw given in
      let size = ok.address_size in
      field_read json address_key (drop 1 address_tail) address (codes "}") 256
        (reach_tail ∙ ap (λ t. strstr t address_key) tail) refl ok.address_plain (omega arith)
        (omega arith)

  address_missing :
      text_eq address [] ≡ true → parse_string_field json (length json) address_key 256 ≡ none
  address_missing absent =
      let tail : tail_of address ≡ codes "}" = rw absent in
      field_missing json address_key (length json) 256
        (reach_tail ∙ ap (λ t. strstr t address_key) tail)

  address_read : or_empty (parse_string_field json (length json) address_key 256) ≡ address
  address_read = elim (Bool-cases (text_eq address [])) [
    | inl absent ↦ ap or_empty (address_missing absent) ∙ sym (text_eq→eq address [] absent)
    | inr given ↦ ap or_empty (address_found given)
  ]

  parsed :
      parse_lease_json json (length json)
      ≡ some (record { owner = owner; generation = generation; address = address })
  parsed =
      parse_fields json owner generation address owner_read ok.owner_given generation_read
        address_read

  json_size : length json ≤ 511
  json_size =
      let owner_size = ok.owner_size in
      let address_size = ok.address_size in
      let number_size = decimal_size generation in
      let tail = tail_size address in
      let joined = length-append owner (quote ∷ behind_owner generation address) in
      let joined' = length-append (decimal generation) (tail_of address) in omega arith

  json_bytes : Lacks 0 json
  json_bytes =
      let head : Lacks 0 (codes "{\"owner\":\"") = omega arith in
      let middle : Lacks 0 (quote ∷ codes ",\"generation\":") = omega arith in
      All-append (λ d. d ≢ 0) (codes "{\"owner\":\"")
        (owner ++ quote ∷ behind_owner generation address) head
        (All-append (λ d. d ≢ 0) owner (quote ∷ behind_owner generation address) ok.owner_bytes
          (All-append (λ d. d ≢ 0) (quote ∷ codes ",\"generation\":")
            (decimal generation ++ tail_of address) middle
            (All-append (λ d. d ≢ 0) (decimal generation) (tail_of address)
              (decimal-Lacks 0 generation (omega arith)) (tail_bytes address ok.address_bytes))))

  -- The document of a lease parses to its owner, generation and address, where the owner is not
  -- empty, is neither the text generation nor the text address, and has at most 63 bytes, the
  -- address has at most 255 bytes, neither text has a quote or a NUL byte, and the generation fits
  -- 64 bits.
  pub parse-encode_lease_json :
      parse_lease_json
        (cstr (encode_lease_json owner generation address))
        (length (encode_lease_json owner generation address))
      ≡ some (record { owner = owner; generation = generation; address = address })
  parse-encode_lease_json =
      let whole : encode_lease_json owner generation address ≡ json =
        unfold encode_lease_json in ap (take 511) json_lem ∙ take_all 511 json json_size in
      ap (λ t. parse_lease_json (cstr t) (length t)) whole
      ∙ ap (λ t. parse_lease_json t (length json)) (cstr_id json json_bytes)
      ∙ parsed
