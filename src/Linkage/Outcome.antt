-- ===== src/Linkage/Outcome.antt =====
-- What linking a duplicate leaves behind, in a run in which no call fails and no other process
-- interferes.
use i_tan_reclaim_space.Base.{ℕ, ap, ◌≡◌, ◌≢◌, ◌∙◌, true, false, none, some, arith}
use i_tan_reclaim_space.Base.Results.{ok}
use i_tan_reclaim_space.Fs.Path.{FilePath}
use i_tan_reclaim_space.Fs.Table.{erase-bind, find-bind_ne, find-bind_same, find, bind}
use i_tan_reclaim_space.Fs.State.{has_dir, has_parent}
use i_tan_reclaim_space.Fs.World.{World, calm, unix}
use i_tan_reclaim_space.Fs.Runs.Files.{
  with_table, hard_link-calm, rename-calm, with_mode, has_parent-table,
}
use i_tan_reclaim_space.Fs.Runs.{>>=-ok, attempt-eq, map_err-ok}
use i_tan_reclaim_space.Linkage.{linked, sibling_tmp_link, seal, swap_in}
use i_tan_reclaim_space.Permissions.Modes.{
  protected_mode, executable, is_executable-calm, enforce_read_only-calm,
}
use i_tan_reclaim_space.RetryJob.{RetryJob}
use i_tan_reclaim_space.RetryQueue.{Channel}
use i_tan_reclaim_space.Store.{SlotRef}

-- The mode that a sealed file gets: it stays executable if it was.
abbrev pub sealed_mode : ℕ → ℕ
sealed_mode mode = protected_mode (executable mode)

pub seal-calm :
    (p : FilePath) (i : ℕ) (w : World)
    → w.os ≡ unix
    → find p w.fs.table ≡ some i
    → seal p (calm w) ≡ (ok tt, with_mode i (sealed_mode (w.fs.inode i).mode) w)
unfolding seal
seal-calm p i w u f =
    >>=-ok _ _ (calm w) _ (calm w) (attempt-eq _ (calm w) _ (calm w) (is_executable-calm p i w u f))
    ∙ map_err-ok _ _ (calm w) tt _
        (enforce_read_only-calm p i w u f (executable (w.fs.inode i).mode))

module _ (channel : Channel RetryJob) (target : FilePath) (slot : SlotRef) (size i j : ℕ)
    (w : World) where
  -- Swapping in the link of a duplicate leaves one change of names: the target names the inode of the
  -- master slot in place of its own. The temporary link is gone, and the master is sealed read-only. The
  -- slot and the target are there with different inodes, nothing has the name of the temporary link, it
  -- can be made and the target replaced; on a Unix system, in a run in which no call fails and no other
  -- process interferes.
  pub swap_in-linked :
      w.os ≡ unix
      → find slot.path w.fs.table ≡ some i
      → find target w.fs.table ≡ some j
      → i ≢ j
      → find (sibling_tmp_link target) w.fs.table ≡ none
      → has_dir (sibling_tmp_link target) w.fs.dirs ≡ false
      → has_parent (sibling_tmp_link target) w.fs ≡ true
      → has_dir target w.fs.dirs ≡ false
      → has_parent target w.fs ≡ true
      → swap_in channel target slot size (calm w) ≡ (
        ok (linked target slot size),
        with_mode i (sealed_mode (w.fs.inode i).mode) (with_table (bind target i w.fs.table) w),
      )
  unfolding swap_in
  swap_in-linked u fs ft ne fn hdn hpn hdt hpt =
      >>=-ok _ _ (calm w) _ linked_beside
        (attempt-eq _ (calm w) _ linked_beside (hard_link-calm slot.path tmp i w fs fn hdn hpn))
      ∙ >>=-ok _ _ linked_beside _ swapped (
          attempt-eq _ linked_beside _ swapped (
            rename-calm tmp target i j linked_beside (find-bind_same tmp i w.fs.table)
              (find-bind_ne tmp target i j w.fs.table ft (λ e. ground arith)) ne hdt
              (has_parent-table target _ w.fs ∙ hpt)
            ∙ ap (λ t. (ok tt, with_table (bind target i t) w)) (erase-bind tmp i w.fs.table fn)))
      ∙ >>=-ok _ _ swapped tt _ (
          seal-calm slot.path i swapped u
            (find-bind_ne target slot.path i i w.fs.table fs (λ e. ground arith)))
    where
      tmp : FilePath
      tmp = sibling_tmp_link target

      linked_beside : World
      linked_beside = with_table (bind tmp i w.fs.table) w

      swapped : World
      swapped = with_table (bind target i w.fs.table) w
