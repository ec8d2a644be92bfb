-- ===== src/CheckpointManifest/Written.antt =====
-- src/storage/checkpoint_manifest.c: the size that the encoder of a manifest computes is the size of the
-- document, so that no piece of it is cut off.
use otsardb.Base.{
  ◌+◌, ◌≤◌, ◌<◌, ◌≡◌, refl, ap, Bool, true, false, some, List, [], ◌∷◌, ◌++◌, ltb, not, ◌>>=◌,
  length, arith, length-append, ==_refl,
}
use otsardb.Text.{Text, codes}
use otsardb.Text.Write.{
  int_max, emit, Writes, emit-Writes, Writes-both, Writes-none, room_for_lem, print_size_lem,
}
use otsardb.Sha256.{hex_data}
use otsardb.CheckpointManifest.{
  PageGroupRef, CheckpointManifest, encodable, print_header, print_group, groups_bytes, needed,
  write_groups, write_document, encode,
}

-- The document, written as one text.
abbrev pub print_groups : Bool → List PageGroupRef → Text
print_groups first [] = []
print_groups first (ref ∷ refs) = print_group first ref ++ print_groups false refs

abbrev pub print_checkpoint : CheckpointManifest → Text
print_checkpoint m = print_header m ++ (print_groups true m.page_groups ++ codes "]}\n")

print_group_given : (first : Bool) (ref : PageGroupRef) → 1 ≤ length (print_group first ref)
unfolding print_group
print_group_given true ref = omega arith
print_group_given false ref = omega arith

print_header_given : (m : CheckpointManifest) → 1 ≤ length (print_header m)
unfolding print_header
print_header_given m = omega arith

write_groups-Writes :
    (first : Bool) (refs : List PageGroupRef)
    → Writes (write_groups first refs) (print_groups first refs)
unfolding write_groups
write_groups-Writes first [] = Writes-none
write_groups-Writes first (ref ∷ refs) =
    Writes-both (emit (print_group first ref)) (write_groups false refs) (print_group first ref)
      (print_groups false refs) (emit-Writes (print_group first ref) (print_group_given first ref))
      (write_groups-Writes false refs)

write_document-Writes : (m : CheckpointManifest) → Writes (write_document m) (print_checkpoint m)
unfolding write_document
write_document-Writes m =
    Writes-both (emit (print_header m))
      (λ b. write_groups true m.page_groups b >>= emit (codes "]}\n")) (print_header m)
      (print_groups true m.page_groups ++ codes "]}\n")
      (emit-Writes (print_header m) (print_header_given m))
      (Writes-both (write_groups true m.page_groups) (emit (codes "]}\n"))
        (print_groups true m.page_groups) (codes "]}\n") (write_groups-Writes true m.page_groups)
        (emit-Writes (codes "]}\n") (omega arith)))

groups_bytes_lem :
    (first : Bool) (refs : List PageGroupRef)
    → length (print_groups first refs) ≤ int_max
    → groups_bytes first refs ≡ some (length (print_groups first refs))
unfolding groups_bytes
groups_bytes_lem first [] h = refl
groups_bytes_lem first (ref ∷ refs) h =
    let size = length-append (print_group first ref) (print_groups false refs) in
    rw
      (
        print_size_lem (print_group first ref) (omega arith),
        groups_bytes_lem false refs (omega arith),
      )
      (ap some (omega arith))

needed_lem :
    (m : CheckpointManifest)
    → length (print_checkpoint m) ≤ int_max
    → needed m ≡ some (length (print_checkpoint m))
unfolding needed
needed_lem m h =
    let groups = print_groups true m.page_groups in
    let all = length-append (print_header m) (groups ++ codes "]}\n") in
    let both = length-append groups (codes "]}\n") in
    let size : length (print_header m) + (length groups + 3) ≡ length (print_checkpoint m) =
      omega arith in
    let test : not (ltb int_max (length (print_checkpoint m))) ≡ true = ground arith in
    rw
      (
        print_size_lem (print_header m) (omega arith),
        groups_bytes_lem true m.page_groups (omega arith),
        size,
        test,
      )
      refl

-- A manifest that passes the tests of the encoder is written as its whole document, with the hash of this
-- document, where the document's size is below the largest int.
encode-print_checkpoint :
    (m : CheckpointManifest)
    → encodable m ≡ true
    → length (print_checkpoint m) < int_max
    → encode m ≡ some (print_checkpoint m, hex_data (print_checkpoint m))
unfolding encode
encode-print_checkpoint m accepted h =
    let size = length (print_checkpoint m) in
    rw
      (
        accepted,
        needed_lem m (omega arith),
        room_for_lem size h,
        (write_document-Writes m).fits [] (size + 1) (omega arith),
        ==_refl size,
      )
      refl
