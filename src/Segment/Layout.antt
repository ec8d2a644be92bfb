-- ===== src/Segment/Layout.antt =====
-- src/storage/segment.c: the fields of an object that was encoded, and its decoding.
use otsardb.Base.{
  ℕ, ◌+◌, ◌-◌, ◌^◌, ◌≤◌, ◌<◌, ◌≡◌, refl, ap, sym, ◌∙◌, true, ◌||◌, some, List, [], ◌∷◌, ◌++◌,
  bit_and, leb, le→leb, ◌==◌, ==_refl, length, length-append, take, take_all, take-append, drop,
  drop-append, drop-drop, arith,
}
use otsardb.Bytes.{put_u16_le, put_u32_le, put_u64_le, get_u16_le, get_u32_le, get_u64_le, bytes_eq}
use otsardb.Bytes.RoundTrip.{get-put_u16_le, get-put_u32_le, get-put_u64_le}
use otsardb.Sha256.{digest, hex}
use otsardb.Sha256.Padding.{length-digest}
use otsardb.Segment.{
  magic, header_size, commit_id_max, flag_lz4, View, encode_object, valid_fields, decode,
}

bytes_eq_refl : (bytes : List ℕ) → bytes_eq bytes bytes ≡ true
bytes_eq_refl [] = refl
bytes_eq_refl (b ∷ bytes) = ground (arith, bytes_eq_refl bytes)

abbrev pub view_of : ℕ → ℕ → List ℕ → ℕ → List ℕ → View
view_of version kind commit_id flags stored = record {
  version = version;
  kind = kind;
  commit_id = commit_id;
  payload = stored;
  payload_size = length stored;
  compressed = leb 3 version || bit_and flags flag_lz4 == 1;
  payload_sha256 = hex (digest stored);
}

module _ (version kind flags : ℕ) (commit_id stored : List ℕ) where
  abbrev object : List ℕ
  object = encode_object version kind commit_id flags stored

  abbrev body : List ℕ
  body = digest stored ++ (commit_id ++ stored)

  object_magic : take 8 object ≡ magic
  unfolding encode_object
  object_magic = refl

  object_version : version < 2 ^ 32 → get_u32_le (drop 8 object) ≡ version
  unfolding encode_object put_u32_le
  object_version h = get-put_u32_le version _ h

  object_kind : kind < 2 ^ 32 → get_u32_le (drop 12 object) ≡ kind
  unfolding encode_object put_u32_le
  object_kind h = get-put_u32_le kind _ h

  object_id_len : length commit_id < 2 ^ 16 → get_u16_le (drop 16 object) ≡ length commit_id
  unfolding encode_object put_u32_le put_u16_le
  object_id_len h = get-put_u16_le (length commit_id) _ h

  object_flags : flags < 2 ^ 16 → get_u16_le (drop 18 object) ≡ flags
  unfolding encode_object put_u32_le put_u16_le
  object_flags h = get-put_u16_le flags _ h

  object_payload_size : length stored < 2 ^ 64 → get_u64_le (drop 20 object) ≡ length stored
  unfolding encode_object put_u32_le put_u16_le put_u64_le
  object_payload_size h = get-put_u64_le (length stored) _ h

  object_body : drop 28 object ≡ body
  unfolding encode_object put_u32_le put_u16_le put_u64_le
  object_body = refl

  object_size : length object ≡ header_size + length commit_id + length stored
  unfolding encode_object put_u32_le put_u16_le put_u64_le
  object_size = omega (
    arith,
    length-append (digest stored) (commit_id ++ stored),
    length-digest stored,
    length-append commit_id stored,
  )

  object_digest : take 32 (drop 28 object) ≡ digest stored
  object_digest =
      ap (take 32) object_body
      ∙ take-append 32 (digest stored) (commit_id ++ stored) (length-digest stored)

  object_behind : drop header_size object ≡ commit_id ++ stored
  object_behind =
      sym (drop-drop 32 28 object)
      ∙ ap (drop 32) object_body
      ∙ drop-append 32 (digest stored) (commit_id ++ stored) (length-digest stored)

  object_id : take (length commit_id) (drop header_size object) ≡ commit_id
  object_id =
      ap (take (length commit_id)) object_behind
      ∙ take-append (length commit_id) commit_id stored refl

  object_payload : drop (header_size + length commit_id) object ≡ stored
  object_payload =
      sym (drop-drop (length commit_id) header_size object)
      ∙ ap (drop (length commit_id)) object_behind
      ∙ drop-append (length commit_id) commit_id stored refl

  pub decode-encode_object :
      version < 2 ^ 32
      → kind < 2 ^ 32
      → flags < 2 ^ 16
      → length commit_id ≤ commit_id_max
      → header_size + length commit_id + length stored < 2 ^ 64
      → valid_fields version kind (length commit_id) flags ≡ true
      → decode object (length object) ≡ some (view_of version kind commit_id flags stored)
  unfolding decode
  decode-encode_object v k f id total valid =
      let size = object_size in
      let long : leb header_size (length object) ≡ true =
        le→leb header_size (length object) (omega arith) in
      let fits : leb (header_size + length commit_id) (2 ^ 64 - 1 - length stored) ≡ true =
        le→leb (header_size + length commit_id) (2 ^ 64 - 1 - length stored) (omega arith) in
      let whole : (length object == header_size + length commit_id + length stored) ≡ true =
        ap (λ n. n == header_size + length commit_id + length stored) size
        ∙ ==_refl (header_size + length commit_id + length stored) in
      let payload = take_all (length stored) stored (omega arith) in
      rw
        (
          long,
          object_magic,
          object_version v,
          object_kind k,
          object_id_len (omega arith),
          object_flags f,
          object_payload_size (omega arith),
          valid,
          fits,
          whole,
          object_payload,
          payload,
          object_digest,
          bytes_eq_refl (digest stored),
          object_id,
        )
        refl
