-- ===== src/Segment/Whole.antt =====
-- src/storage/segment.c: an object that was encoded is decoded and decompressed to its payload.
use otsardb.Base.{
  ℕ, ◌+◌, ◌-◌, ◌%◌, ◌^◌, ◌≤◌, ◌<◌, ◌≡◌, ◌≢◌, refl, ap, sym, ◌∙◌, Bool, true, ◌&&◌, not, Option,
  none, some, List, [], ◌++◌, ltb, leb, ◌==◌, ==_refl, if◌then◌else◌, length, length-append, take,
  take_all, append-nil, Bool-cases, ◌⊎◌, inl, inr, arith,
}
use otsardb.Bytes.{put_u32_le}
use otsardb.Bytes.RoundTrip.{get-put_u32_le}
use otsardb.Segment.{
  max_decompressed, commit_id_max, flag_lz4, Lz4, IsLz4, View, Encoded, encode_object, try_compress,
  stored_payload, encode, valid_fields, decode,
}
use otsardb.Segment.Block.{try_compress_restores}
use otsardb.Segment.Layout.{view_of, decode-encode_object}
use otsardb.Segment.Pages.{decompress}

-- What a decoded object holds: its payload as it is, or decompressed.
unfoldable pub contents : Lz4 → View → Option (List ℕ)
contents lz view =
    if view.compressed then decompress lz view else some (take view.payload_size view.payload)

-- An object of format 2 that was encoded.
record IsEncoded (lz : Lz4) (kind : ℕ) (commit_id payload : List ℕ) (compress : Bool) (e : Encoded)
    : Type 0 where
  id_given : length commit_id ≢ 0
  kind_given : kind ≢ 0
  id_short : length commit_id ≤ commit_id_max
  object :
      e.bytes
      ≡ encode_object 2 kind commit_id
          (stored_payload payload (try_compress lz compress payload)).0
          (stored_payload payload (try_compress lz compress payload)).1

encode-IsEncoded :
    (lz : Lz4) (kind : ℕ) (commit_id payload : List ℕ) (compress : Bool) (e : Encoded)
    → encode lz kind commit_id payload compress ≡ some e
    → IsEncoded lz kind commit_id payload compress e
unfolding encode
encode-IsEncoded lz kind commit_id payload compress e h = record {
  id_given = ground arith;
  kind_given = ground arith;
  id_short = ground arith;
  object = ground arith;
}

-- What the payload was stored as gives the payload back.
record Kept (lz : Lz4) (payload : List ℕ) (p : ℕ × List ℕ) (kind : ℕ) (commit_id : List ℕ)
    : Type 0 where
  flags : (p.0 ≡ 0) ⊎ (p.0 ≡ 1)
  small : length p.1 ≤ length payload
  gives : contents lz (view_of 2 kind commit_id p.0 p.1) ≡ some payload

module _ {lz : Lz4} (law : IsLz4 lz) (kind : ℕ) (commit_id payload : List ℕ) where
  raw_gives : Kept lz payload (0, payload) kind commit_id
  unfolding contents
  raw_gives = record {
    flags = inl refl;
    small = omega arith;
    gives = ap some (take_all (length payload) payload (omega arith));
  }

  lz4_gives :
      (out : List ℕ)
      → lz.decompress_safe (out ++ []) (length out) (length payload) ≡ some payload
      → length out + 4 < length payload
      → length payload ≤ max_decompressed
      → Kept lz payload (flag_lz4, put_u32_le (length payload) ++ out) kind commit_id
  unfolding contents decompress put_u32_le
  lz4_gives out h short bound = record {
    flags = inr refl;
    small = omega (arith, length-append (put_u32_le (length payload)) out);
    gives =
        let stored = put_u32_le (length payload) ++ out in
        let whole = take_all (length stored) stored (omega arith) in
        let original = get-put_u32_le (length payload) out (omega arith) in
        let size : (length stored - 4) % 2 ^ 32 ≡ length out = omega arith in
        let long : leb 4 (length stored) ≡ true = ground arith in
        let sized : (not (length payload == 0) && leb (length payload) max_decompressed) ≡ true =
          ground arith in
        let back =
          ap (λ l. lz.decompress_safe l (length out) (length payload)) (sym (append-nil out)) ∙ h in
        rw (whole, original, size, long, sized, back, ==_refl (length payload)) refl;
  }

  stored_payload-Kept :
      (q : Option (List ℕ))
      → ((out : List ℕ)
          → q ≡ some out
          → lz.decompress_safe (out ++ []) (length out) (length payload) ≡ some payload)
      → length payload ≤ max_decompressed
      → Kept lz payload (stored_payload payload q) kind commit_id
  unfolding stored_payload
  stored_payload-Kept none h bound = raw_gives
  stored_payload-Kept (some out) h bound =
      elim (Bool-cases (ltb 0 (length out) && ltb (length out + 4) (length payload))) [
        | inl smaller ↦ rw smaller (lz4_gives out (h out refl) (ground arith) bound)
        | inr larger ↦ rw larger raw_gives
      ]

  flags_valid :
      (flags : ℕ)
      → (flags ≡ 0) ⊎ (flags ≡ 1)
      → kind ≢ 0
      → length commit_id ≢ 0
      → length commit_id ≤ commit_id_max
      → (flags < 2 ^ 16) × (valid_fields 2 kind (length commit_id) flags ≡ true)
  flags_valid flags (inl e) k i s = (omega arith, rw e (ground arith))
  flags_valid flags (inr e) k i s = (omega arith, rw e (ground arith))

  -- An object that the encoder of format 2 made of a payload of at most 2^30 bytes, compressed or not,
  -- is decoded, with its kind and commit identifier, and its contents are the payload. LZ4 gives
  -- back what it compressed.
  pub contents-encode :
      (compress : Bool) (e : Encoded)
      → encode lz kind commit_id payload compress ≡ some e
      → kind < 2 ^ 32
      → length payload ≤ max_decompressed
      → (view : View) × (decode e.bytes (length e.bytes) ≡ some view)
        × (view.kind ≡ kind)
        × (view.commit_id ≡ commit_id)
        × (contents lz view ≡ some payload)
  contents-encode compress e h fits bound =
      let is = encode-IsEncoded lz kind commit_id payload compress e h in
      let p = stored_payload payload (try_compress lz compress payload) in
      let k =
        stored_payload-Kept (try_compress lz compress payload)
          (λ out. try_compress_restores law payload [] compress out (omega arith)) bound in
      let id = is.id_short in
      let small = k.small in
      let (f, valid) = flags_valid p.0 k.flags is.kind_given is.id_given id in
      (
        view_of 2 kind commit_id p.0 p.1,
        ap (λ b. decode b (length b)) is.object
            ∙ decode-encode_object 2 kind p.0 commit_id p.1 (omega arith) fits f id (omega arith)
                valid,
        refl,
        refl,
        k.gives,
      )
