-- ===== src/Tests.antt =====
-- Runs at concrete inputs, and the theorems applied to inputs that meet their hypotheses.
pub mod AesGcmTests
pub mod ChecksumTests
pub mod CheckpointManifestTests
pub mod CommitManifestTests
pub mod CheckpointPageTests
pub mod DbMetadataTests
pub mod GcTests
pub mod JournalTests
pub mod LeaseTests
pub mod Sha256Tests
pub mod S3TargetTests
pub mod SegmentTests
pub mod SqliteWalTests
pub mod WalBatchTests
