-- ===== src/Linkage.antt =====
-- crates/itan-core/src/linkage.rs: replacing a workspace file by a hard link to its master slot. The
-- channel of the retry queue is a parameter. The build is the default one, without `linux-cow`.
pub mod Beside
pub mod Collected
pub mod Duplicate
pub mod Faults
pub mod Fits
pub mod Kin
pub mod MoveFile
pub mod Names
pub mod Outcome
pub mod Publish
pub mod Refinement
pub mod Relink
pub mod Renameat2
pub mod Safety
pub mod Sealing
pub mod Steps
pub mod Tracked
use i_tan_reclaim_space.Base.{
  ℕ, Bytes, Bool, true, false, ◌||◌, [], ◌∷◌, ◌++◌, none, some, ◌==◌, codes,
}
use i_tan_reclaim_space.Base.Results.{Result, ok, err, unwrap_or}
use i_tan_reclaim_space.Fs.Path.{Name, text, opaque, FilePath}
use i_tan_reclaim_space.Fs.State.{IoError, already_exists, text_busy, os_error, Metadata}
use i_tan_reclaim_space.Fs.World.{
  Platform, unix, windows, M, pure, throw, ◌>>=◌, ◌>>◌, map_err, attempt, new_uuid, platform,
}
use i_tan_reclaim_space.Fs.Calls.{
  metadata, exists, copy, rename, remove_file, hard_link, create_dir_all,
}
use i_tan_reclaim_space.Permissions.{
  PermError, readonly, enforce_read_only, strip_read_only, is_executable,
}
use i_tan_reclaim_space.RetryQueue.{Channel, new_job, enqueue}
use i_tan_reclaim_space.RetryJob.{RetryJob}
use i_tan_reclaim_space.Store.{CasStore, SlotRef, StoreError}
use i_tan_reclaim_space.Store.Hex.{hex_encode, parse_digest_from_hex}
use i_tan_reclaim_space.Store.Slots.{acquire_slot, directory}
use i_tan_reclaim_space.Verdict.{IngestVerdict, bypass, unique, duplicate}

-- `panic` is that of a malformed digest in `parse_digest_from_hex`.
pub data LinkError : Type 0 where
  io : FilePath → IoError → LinkError
  store : StoreError → LinkError
  perm : PermError → LinkError
  deferred : FilePath → LinkError
  panic : LinkError

pub data LinkResult : Type 0 where
  linked : FilePath → SlotRef → ℕ → LinkResult
  skipped : LinkResult
  master_published : SlotRef → LinkResult
  queued : LinkResult

pub data RenameError : Type 0 where
  exists_already : RenameError
  failed : IoError → RenameError

abbrev pub classify : IoError → RenameError
classify already_exists = exists_already
classify e = failed e

unfoldable pub atomic_rename_noreplace : FilePath → FilePath → M RenameError (Unit {0})
atomic_rename_noreplace src dst = do
  there ← exists dst
  elim there [ true ↦ throw exists_already | false ↦ map_err classify (rename src dst) ]

-- `p.set_file_name(format!("{}.tmp_link", name))`
unfoldable pub sibling_tmp_link : FilePath → FilePath
sibling_tmp_link [] = text (codes "unnamed.tmp_link") ∷ []
sibling_tmp_link (text name ∷ p) = text (name ++ codes ".tmp_link") ∷ p
sibling_tmp_link (opaque name ∷ p) = text (codes "unnamed.tmp_link") ∷ p

abbrev pub transient : Platform → IoError → Bool
transient windows (os_error code) = code == 32 || code == 33
transient unix text_busy = true
transient _ _ = false

abbrev pub size_of : Result IoError Metadata → ℕ
size_of (ok meta) = meta.len
size_of (err e) = 0

unfoldable pub can_strip_target_readonly : FilePath → M LinkError Bool
can_strip_target_readonly target = do
  meta ← map_err (io target) (metadata target)
  pure (readonly meta.mode)

abbrev pub stage_name : Bytes → Bytes → Name
stage_name digest_hex uuid = text (digest_hex ++ (codes "_" ++ (uuid ++ codes ".stage")))

-- `is_executable(..).unwrap_or(false)`, then `enforce_read_only`.
unfoldable pub seal : FilePath → M LinkError (Unit {0})
seal path = do
  exec ← attempt (is_executable path)
  map_err perm (enforce_read_only path (unwrap_or exec false))

unfoldable pub publish_new_master : CasStore → FilePath → Bytes → M LinkError SlotRef
unfolding atomic_rename_noreplace seal
publish_new_master s source digest = do
  let digest_hex = hex_encode digest
  slot ← map_err store (acquire_slot s digest)
  published ← exists slot.path
  elim published [
    | true ↦ pure slot
    | false ↦ do
      uuid ← new_uuid
      let stage_path = stage_name digest_hex uuid ∷ s.tmp_dir
      map_err (io stage_path) (copy source stage_path)
      map_err (io (directory slot.path)) (create_dir_all (directory slot.path))
      renamed ← attempt (atomic_rename_noreplace stage_path slot.path)
      elim renamed [
        | ok _ ↦ do seal slot.path; pure slot
        | err exists_already ↦ do _ ← attempt {F = LinkError} (remove_file stage_path); pure slot
        | err (failed e) ↦ do
          _ ← attempt {F = LinkError} (remove_file stage_path)
          throw (io slot.path e)
      ]
  ]

abbrev pub platform_hardlink : FilePath → FilePath → M IoError (Unit {0})
platform_hardlink src dst = hard_link src dst

-- Without `windows-ntfs` it is a rename on Windows too.
abbrev pub atomic_replace : FilePath → FilePath → M IoError (Unit {0})
atomic_replace tmp_link target = rename tmp_link target

module _ (channel : Channel RetryJob) where
  -- Both error paths: the job goes to the retry queue if the error is transient.
  unfoldable pub defer_or_fail : FilePath → FilePath → FilePath → IoError → M LinkError LinkResult
  defer_or_fail target slot_path failed_path e = do
    os ← platform
    elim (transient os e) [
      | false ↦ throw (io failed_path e)
      | true ↦ do
        job ← new_job target slot_path
        _ ← attempt {F = LinkError} (enqueue channel job)
        pure queued
    ]

  -- Step 4: the link is made beside the target, and put in its place by one rename.
  unfoldable pub swap_in : FilePath → SlotRef → ℕ → M LinkError LinkResult
  unfolding defer_or_fail seal
  swap_in target slot original_size = do
    let tmp_link = sibling_tmp_link target
    link_result ← attempt (platform_hardlink slot.path tmp_link)
    elim link_result [
      | err e ↦ defer_or_fail target slot.path tmp_link e
      | ok _ ↦ do
        swap_result ← attempt (atomic_replace tmp_link target)
        elim swap_result [
          | err e ↦ do
            _ ← attempt {F = LinkError} (remove_file tmp_link)
            defer_or_fail target slot.path target e
          | ok _ ↦ do seal slot.path; pure (linked target slot original_size)
        ]
    ]

  unfoldable pub link_to_master : CasStore → FilePath → SlotRef → M LinkError LinkResult
  unfolding can_strip_target_readonly swap_in
  link_to_master s target found = do
    meta ← attempt (metadata target)
    elim (parse_digest_from_hex found.digest_hex) [
      | none ↦ throw panic
      | some raw_digest ↦ do
        slot ← map_err store (acquire_slot s raw_digest)
        stripping ← attempt (can_strip_target_readonly target)
        elim (unwrap_or stripping false) [
          | true ↦ do
            _ ← attempt {F = LinkError} (strip_read_only target)
            swap_in target slot (size_of meta)
          | false ↦ swap_in target slot (size_of meta)
        ]
    ]

  -- `AtomicLinkagePipeline::apply`
  unfoldable pub apply : CasStore → FilePath → IngestVerdict → Bytes → M LinkError LinkResult
  unfolding publish_new_master link_to_master
  apply s target (bypass reason) raw_digest = pure skipped
  apply s target unique raw_digest = do
    slot ← publish_new_master s target raw_digest
    pure (master_published slot)
  apply s target (duplicate slot) raw_digest = link_to_master s target slot
