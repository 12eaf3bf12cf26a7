-- ===== src/Linkage/Relink.antt =====
-- Linking a target that is a name of its master slot already.
use i_tan_reclaim_space.Base.{ℕ, ◌≡◌, ap, ◌∙◌, true, false, none, some, arith}
use i_tan_reclaim_space.Base.Results.{ok, err}
use i_tan_reclaim_space.Fs.Path.{FilePath}
use i_tan_reclaim_space.Fs.Table.{find-bind_ne, find-bind_same, find, bind}
use i_tan_reclaim_space.Fs.State.{already_exists, has_dir, has_parent}
use i_tan_reclaim_space.Fs.World.{World, calm, unix, platform}
use i_tan_reclaim_space.Fs.Runs.Files.{
  with_table, with_mode, hard_link-calm, has_parent-table, rename_same, hard_link_taken,
}
use i_tan_reclaim_space.Fs.Runs.{>>=-ok, attempt-eq}
use i_tan_reclaim_space.Linkage.{io, linked, sibling_tmp_link, swap_in, defer_or_fail}
use i_tan_reclaim_space.Linkage.Outcome.{sealed_mode, seal-calm}
use i_tan_reclaim_space.RetryJob.{RetryJob}
use i_tan_reclaim_space.RetryQueue.{Channel}
use i_tan_reclaim_space.Store.{SlotRef}

-- The world in which the temporary link is left.
abbrev pub left_over : FilePath → ℕ → World → World
left_over target i w =
    with_mode i (sealed_mode (w.fs.inode i).mode)
      (with_table (bind (sibling_tmp_link target) i w.fs.table) w)

module _ (channel : Channel RetryJob) where
  defer_or_fail_exists :
      (target slot_path failed_path : FilePath) (w : World)
      → w.os ≡ unix
      → defer_or_fail channel target slot_path failed_path already_exists (calm w)
        ≡ (err (io failed_path already_exists), calm w)
  unfolding defer_or_fail platform
  defer_or_fail_exists target slot_path failed_path w u =
      >>=-ok platform _ (calm w) unix (calm w) (ap (λ o. (ok o, calm w)) u)

  module _ (target : FilePath) (slot : SlotRef) (size i : ℕ) (w : World) (u : w.os ≡ unix)
      (slot_there : find slot.path w.fs.table ≡ some i) where
    -- While a file has the name of the temporary link, linking fails with that name and changes nothing. The slot is
    -- there, on a Unix system, in a run in which no call fails and no other process interferes.
    pub swap_in_blocked :
        (k : ℕ)
        → find (sibling_tmp_link target) w.fs.table ≡ some k
        → swap_in channel target slot size (calm w)
          ≡ (err (io (sibling_tmp_link target) already_exists), calm w)
    unfolding swap_in
    swap_in_blocked k e =
        >>=-ok _ _ (calm w) _ (calm w) (
          attempt-eq _ (calm w) _ (calm w)
            (hard_link_taken slot.path (sibling_tmp_link target) i k w slot_there e))
        ∙ defer_or_fail_exists target slot.path (sibling_tmp_link target) w u

    swap_in_relinked :
        find target w.fs.table ≡ some i
        → find (sibling_tmp_link target) w.fs.table ≡ none
        → has_dir (sibling_tmp_link target) w.fs.dirs ≡ false
        → has_parent (sibling_tmp_link target) w.fs ≡ true
        → has_dir target w.fs.dirs ≡ false
        → has_parent target w.fs ≡ true
        → swap_in channel target slot size (calm w)
          ≡ (ok (linked target slot size), left_over target i w)
    unfolding swap_in
    swap_in_relinked ft fn hdn hpn hdt hpt =
        >>=-ok _ _ (calm w) _ linked_beside (
          attempt-eq _ (calm w) _ linked_beside
            (hard_link-calm slot.path tmp i w slot_there fn hdn hpn))
        ∙ >>=-ok _ _ linked_beside _ linked_beside (
            attempt-eq _ linked_beside _ linked_beside (
              rename_same tmp target i linked_beside (find-bind_same tmp i w.fs.table)
                (find-bind_ne tmp target i i w.fs.table ft (λ e. ground arith)) hdt
                (has_parent-table target _ w.fs ∙ hpt)))
        ∙ >>=-ok _ _ linked_beside tt _ (
            seal-calm slot.path i linked_beside u
              (find-bind_ne tmp slot.path i i w.fs.table slot_there (λ e. ground arith)))
      where
        tmp : FilePath
        tmp = sibling_tmp_link target

        linked_beside : World
        linked_beside = with_table (bind tmp i w.fs.table) w

  -- Linking a target that is a name of its master slot already reports success, but leaves the temporary link behind,
  -- and linking it once more fails because of that. The slot is there, nothing has the name of the temporary link at
  -- first, it can be made and the target replaced; on a Unix system, in runs in which no call fails and no other
  -- process interferes.
  pub swap_in_twice :
      (target : FilePath) (slot : SlotRef) (size i : ℕ) (w : World)
      → w.os ≡ unix
      → find slot.path w.fs.table ≡ some i
      → find target w.fs.table ≡ some i
      → find (sibling_tmp_link target) w.fs.table ≡ none
      → has_dir (sibling_tmp_link target) w.fs.dirs ≡ false
      → has_parent (sibling_tmp_link target) w.fs ≡ true
      → has_dir target w.fs.dirs ≡ false
      → has_parent target w.fs ≡ true
      → (swap_in channel target slot size (calm w)
          ≡ (ok (linked target slot size), left_over target i w))
        × (swap_in channel target slot size (left_over target i w)
            ≡ (err (io (sibling_tmp_link target) already_exists), left_over target i w))
  swap_in_twice target slot size i w u fs ft fn hdn hpn hdt hpt = (
    swap_in_relinked target slot size i w u fs ft fn hdn hpn hdt hpt,
    swap_in_blocked target slot size i (left_over target i w) u
        (find-bind_ne (sibling_tmp_link target) slot.path i i w.fs.table fs (λ e. ground arith)) i
        (find-bind_same (sibling_tmp_link target) i w.fs.table),
  )
