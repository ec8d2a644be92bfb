-- ===== src/Tests/CheckpointManifestTests.antt =====
-- Tests of src/storage/checkpoint_manifest.c.
use otsardb.Base.{ℕ, ◌≡◌, refl, some, [], ◌∷◌, arith}
use otsardb.Text.{Text, codes}
use otsardb.CheckpointManifest.{PageGroupRef, CheckpointManifest, encodable, encode, decode}
use otsardb.CheckpointManifest.Written.{print_checkpoint}
use otsardb.CheckpointManifest.Pointer.{CheckpointPointer, print_pointer, ptr_decode}
use otsardb.CheckpointManifest.Json.{PointerFits, ptr_decode-print_pointer}

abbrev digest_text : Text
digest_text = codes "0123456789abcdef0123456789abcdef0123456789abcdef0123456789abcdef"

abbrev group : Text → ℕ → PageGroupRef
group key size = record { key = key; sha256 = digest_text; size = size }

-- Objects of one page and of two pages.
abbrev checkpoint : CheckpointManifest
checkpoint = record {
  format_version = 1;
  covered_generation = 3;
  page_size = 512;
  database_size_pages = 3;
  database_id = codes "d";
  base_commit_id = codes "c3";
  base_manifest_sha256 = [];
  page_groups = group (codes "g1") 556 ∷ group (codes "g2") 1080 ∷ [];
}

decode_print : decode (print_checkpoint checkpoint) ≡ some checkpoint
unfolding decode otsardb.Text.decimal otsardb.Text.cstr otsardb.Text.strtoull
    otsardb.CheckpointManifest.print_header otsardb.CheckpointManifest.print_group
decode_print = refl

abbrev pointer : CheckpointPointer
pointer = record {
  covered_generation = 3;
  checkpoint_sha256 = digest_text;
  checkpoint_key = codes "db/checkpoints/k";
  database_id = codes "checkpoint_key";
}

pointer-PointerFits : PointerFits pointer
pointer-PointerFits = record {
  generation_range = omega arith;
  database_id_plain = omega arith;
  sha256_plain = omega arith;
  key_plain = omega arith;
  database_id_bytes = omega arith;
  sha256_bytes = omega arith;
  key_bytes = omega arith;
  database_id_given = omega arith;
  sha256_given = omega arith;
  key_given = omega arith;
  database_id_size = omega arith;
  sha256_size = omega arith;
  key_size = omega arith;
}

ptr_decode-print_pointer_example : ptr_decode (print_pointer pointer) ≡ some pointer
ptr_decode-print_pointer_example = ptr_decode-print_pointer pointer pointer-PointerFits
