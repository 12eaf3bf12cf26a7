-- ===== src/Lib.antt =====
-- iTan-ReclaimSpace: a tool that replaces duplicate files of a workspace by hard links to master copies
-- in a content-addressable store on the same volume.
--
-- The program's parts, and the files that model them:
-- - crates/itan-core/src/linkage.rs (`AtomicLinkagePipeline`): Linkage. It publishes masters and puts hard
--   links in the place of duplicates, through the store, the permissions and the retry queue.
-- - crates/itan-core/src/store.rs (`CasStore`): Store, with the texts of digests in Store/Hex and `lookup`,
--   `acquire_slot` and `spill_slot` in Store/Slots.
-- - crates/itan-core/src/gc.rs (`QuarantineGc`): Gc, with both sweeps.
-- - crates/itan-core/src/ingest.rs (`IngestPipeline`): Ingest, with the verdicts in Verdict; it goes by
--   crates/itan-core/src/whitelist.rs (Whitelist) and crates/itan-core/src/digest.rs (Digest).
-- - crates/itan-core/src/recovery.rs (`StartupSweeper`): Recovery.
-- - crates/itan-core/src/retry_queue.rs (`DeferRetryQueue`): RetryQueue, with the job in RetryJob.
-- - crates/itan-core/src/permissions.rs: Permissions.
-- - crates/itan-core/src/capability.rs: Capability, with `probe_volume` of the default build in Capability/Probe,
--   and the detection of every build with its trial clones in Capability/Trial.
-- - crates/itan-core/src/usn.rs (`UsnDeltaScanner`): Usn, the scanner of the change journal of NTFS.
-- - crates/itan-cli/src/main.rs: Cli, with the command `ingest` in Cli/Ingest and
--   the dispatch of the commands in Cli/Commands; Cli/Sessions runs them one after the other.
-- Functions keep the names of the source; a loop is a function of its own, named for what it goes through.
--
-- Fs models what the program uses of `std::fs`: a table of names and inodes with link counts, and a monad of
-- programs on a world (Fs/World). Before each call the surroundings have a turn, in which other processes may
-- change the volume, time passes and the call may fail; a copy that fails may have written a part of the file,
-- and `create_dir_all` made a part of the directories.
-- Fs/Ensures has the rules for what holds of a volume whatever happens, Fs/Quietly those for what is known after a
-- call from what is known before it, Fs/Delivers and Fs/Returns those for what actions return, and Fs/Runs those
-- for a run without faults, which is one in a `calm` world. Text has the formatting and parsing of numbers. Base passes on
-- the library's names.
--
-- Bounds and fuel: the scans over slot indices have 2^32 rounds, which is what a `u32` counts, and end with the
-- overflow of the index; that a spill behind the last index would wrap is left out. Hashing has 2^63 rounds, since no file has more bytes. Draining the queue has one round
-- more than the queue has jobs, parsing the journal one more than the buffer has bytes. The traversal of a
-- workspace has a bound on the directories that it visits as an argument, and says so when that cuts it short;
-- Cli/Traversal has the bound that is enough for a finite tree.
--
-- Parameters: the hasher of blake3, how many bytes a read returns, the order of a hash map's keys, the channel of
-- crossbeam, the calls of Win32 that read the journal and the layout of its records, renameat2(2),
-- `MoveFileExW`, the calls that clone files and those that give hints to the system, each with its documented laws
-- where a theorem needs them.
--
-- Not modelled: the calls of Win32 around the journal; the commands in other builds than the default one; symbolic links
-- and the renaming of directories; argument parsing, logging and printing.
pub mod Base
pub mod Fs
pub mod RetryJob
pub mod Tests
pub mod Text
pub mod Capability
pub mod Cli
pub mod Digest
pub mod Store
pub mod Permissions
pub mod RetryQueue
pub mod Recovery
pub mod Usn
pub mod Verdict
pub mod Whitelist
pub mod Ingest
pub mod Linkage
pub mod Gc
