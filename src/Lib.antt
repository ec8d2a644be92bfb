-- ===== src/Lib.antt =====
-- OtsarDB: the durable core of a SQL engine whose state lives in S3-compatible object storage.
--
-- A session writes SQLite WAL frames locally; each commit becomes a batch of page frames
-- (src/storage/wal_batch.c), which is stored as an immutable segment object (src/storage/segment.c);
-- the database image has a rolling checksum (src/storage/checksum.c). HEAD.json names the newest
-- commit and is replaced by conditional writes where the store has them (src/storage/journal.c);
-- lease.json names the one process that may publish (src/ha/lease.c); db.json fixes the identity of
-- the database (src/storage/db_metadata.c). A commit has a manifest that names its parent and its segments
-- (src/storage/commit_manifest.c), and CHECKPOINT.json names a checkpoint (src/storage/checkpoint_manifest.c);
-- behind it the older commits are swept away (src/storage/gc.c). They reach the object storage through the table of operations of
-- src/storage/object_store.h.
--
-- Files:
-- - Base (Tests, Lists, Bits): shared names, Boolean tests, lists over the native numbers, laws of
--   the bit operations.
-- - Bytes, Bytes/RoundTrip: the little- and big-endian words that each of the encoders declares.
-- - Checksum: src/storage/checksum.c. Checksum/Rebase: updating page by page. Checksum/Whole: the
--   file and the memory forms, and the range. Checksum/Hex: the text form.
-- - WalBatch: src/storage/wal_batch.c. WalBatch/Layout: the places of the fields.
--   WalBatch/RoundTrip: encoder and decoder. WalBatch/Bounds: what the decoder accepts.
-- - CheckpointPage: src/storage/checkpoint_page.c. CheckpointPage/Bounds: what the decoder accepts.
--   CheckpointPage/Layout: the places of the fields. CheckpointPage/Walk and
--   CheckpointPage/RoundTrip: encoder and decoder.
-- - SqliteWal: src/storage/sqlite_wal.c. SqliteWal/Delivery: the frames that a scan hands out.
--   SqliteWal/Fuel: the end of the scan. SqliteWal/Capacity: the growth of the array of references.
-- - AesGcm (Block, Ghash): src/crypto/aes_gcm_pure.c. AesGcm/Inverse: the counter mode undoes
--   itself. AesGcm/Authentic: encryption against decryption.
-- - Sha256 (Compress): src/crypto/sha256_pure.c and the text form of src/crypto/sha256.c.
--   Sha256/Stream: updates in pieces. Sha256/Padding: the digest against FIPS 180-4.
-- - Segment: src/storage/segment.c, the object and its decoder; LZ4 is a record of functions.
--   Segment/Frame: a block of format 3. Segment/Bounds: what its decoder accepts. Segment/Block: blocks
--   are read back. Segment/Layout and Segment/Whole: objects are.
--   Segment/Pages: the encoder of format 3 and the rebuilding of a batch. Segment/Pages/Newest and
--   Order: which frames are kept. Segment/Pages/Header, Rebuild and Stored: the batch that comes back.
-- - Text: the functions of the C library on texts that the JSON documents are read and written
--   with. Text/Search: what a search passes by and finds. Text/Decimal: printed numbers. Text/Scan,
--   Text/Write and Text/ReadBack: the steps of the readers and writers of manifests.
-- - ObjectStore: src/storage/object_store.h, and the interface record IsConditional: what the clients
--   rely on of conditional writes, and IsQuiet: what they see while nobody else acts.
--   ObjectStore/Memory: a store in memory that meets both.
-- - CommitManifest: src/storage/commit_manifest.c, the data and the tests. CommitManifest/Encode: the
--   encoder. CommitManifest/Parse and Decode: the decoder. CommitManifest/Written and Needed: the
--   document that is written. CommitManifest/Entries and Accepted: what the decoder returns.
--   CommitManifest/Parent: generations. CommitManifest/ListEnds: the loop over the numbers of a list.
--   CommitManifest/Lists, EntryFields and Segments: the array of the segments is read back.
-- - CheckpointManifest: src/storage/checkpoint_manifest.c. CheckpointManifest/Written: the document
--   that is written. CheckpointManifest/Pointer: CHECKPOINT.json. CheckpointManifest/Json: its
--   document is read back.
-- - Gc: src/storage/gc.c. Gc/Kept: what the steps leave. Gc/Chain: the loop. Gc/Below: the lease and
--   the end. Gc/Base: what is read before the loop. Gc/Spared: the whole sweep.
--   Gc/Ends: the fuel. Gc/Live: the commits that stay.
-- - Lease: the fields and the document of a lease. Lease/Claim: otsardb_lease_claim. Lease/Holder:
--   otsardb_lease_renew, _is_live, _address and _release. Lease/Json: the document is read back.
--   Lease/Written and Lease/Fence: what a claim that won has written, and over what.
--   Lease/Exclusion: renewals. Lease/Demotion: the end of a lease.
-- - Journal: src/storage/journal.c. Journal/Json: the document is read back. Journal/Read: reads of
--   HEAD. Journal/Publish: its publication.
-- - DbMetadata: src/storage/db_metadata.c. DbMetadata/Json: the document is read back.
--   DbMetadata/Create: creation and reading on a store.
-- - S3Target: src/storage/s3_target.c. S3Target/Normal: the form of what is parsed.
-- - Tests: runs and instances.
--
-- Numbers are natural numbers with the wrap of the C type written out. A buffer is the list of its
-- bytes, a pointer into it the list from there on, a null pointer is `none`. Memory allocation is
-- taken to succeed. Where an encoder's int would overflow, it has no result. A text is the list of its bytes; reading behind its end gives the NUL, 0.
--
-- The scan of a WAL takes its reader and its callback as parameters. Its loop runs on fuel, one more
-- than the size of the file, and every round moves on by a frame of at least 25 bytes; the growth of
-- the array of references has the 65 doublings that pass the range of size_t. The loop over the data
-- of a SHA-256 update has the size of the data as fuel. The other loops count their rounds down.
--
-- The store and the clock are functions on a world of an unknown type, so that whatever others do to
-- the storage is a change of the world between two operations; within one operation the storage
-- serves one caller. A time is a number of seconds that is not negative. A claim makes three attempts
-- and then reports the lease as held; the mutex of a lease is left out, since an operation of the
-- model runs from its start to its end.
--
-- The loop of the garbage collection has fuel; the generation that the checkpoint covers is enough. The
-- loops over the arrays of a manifest stop after 128 entries, and the one over the numbers of a list has the
-- length of the text and one as fuel, since each round takes a digit; a run that has used up its fuel is a
-- result of its own.
--
-- Not modelled: the OpenSSL branches of the cryptography, the publication of commits, recovery, the building
-- of checkpoints, and the layers around the SQLite VFS, sockets, threads, files, the command line and the
-- S3 client; range reads, streams and listings of the object store. The clearing of key material in memory
-- leaves no trace in the model.
pub mod Base
pub mod Bytes
pub mod Text
pub mod AesGcm
pub mod CheckpointManifest
pub mod CheckpointPage
pub mod Checksum
pub mod CommitManifest
pub mod DbMetadata
pub mod Gc
pub mod Journal
pub mod Lease
pub mod ObjectStore
pub mod S3Target
pub mod Segment
pub mod Sha256
pub mod SqliteWal
pub mod WalBatch
pub mod Tests
