-- ===== src/Linkage/Sealing.antt =====
-- What sealing a master keeps of its mode, in a run in which no call fails and no other process interferes.
use i_tan_reclaim_space.Base.{ℕ, true, sym, ap, ◌≡◌, ◌∙◌, some}
use i_tan_reclaim_space.Base.Results.{ok}
use i_tan_reclaim_space.Fs.Path.{FilePath}
use i_tan_reclaim_space.Fs.Table.{find}
use i_tan_reclaim_space.Fs.World.{World, calm, unix}
use i_tan_reclaim_space.Fs.Runs.Files.{with_mode}
use i_tan_reclaim_space.Linkage.{seal}
use i_tan_reclaim_space.Linkage.Outcome.{sealed_mode, seal-calm}
use i_tan_reclaim_space.Permissions.{readonly, is_executable}
use i_tan_reclaim_space.Permissions.Modes.{
  protected_mode, executable, is_executable-calm, new_mode, protected-readonly,
  protected-executable,
}

abbrev pub sealed : ℕ → World → World
sealed i w = with_mode i (sealed_mode (w.fs.inode i).mode) w

-- Sealing a file makes it read-only and leaves it as executable as it was, and sealing it once more changes nothing of
-- its mode. The file is there; on a Unix system, in runs in which no call fails and no other process interferes.
pub seal-is_executable :
    (p : FilePath) (i : ℕ) (w : World)
    → w.os ≡ unix
    → find p w.fs.table ≡ some i
    → (seal p (calm w) ≡ (ok tt, sealed i w))
      × (readonly ((sealed i w).fs.inode i).mode ≡ true)
      × (is_executable p (sealed i w) ≡ (ok (executable (w.fs.inode i).mode), sealed i w))
      × (seal p (sealed i w) ≡ (ok tt, sealed i (sealed i w)))
      × (((sealed i (sealed i w)).fs.inode i).mode ≡ ((sealed i w).fs.inode i).mode)
seal-is_executable p i w u f =
    let m = (w.fs.inode i).mode in
    let kept = new_mode i (sealed_mode m) w in
    let same = ap executable kept ∙ protected-executable (executable m) in
    (
      seal-calm p i w u f,
      ap readonly kept ∙ protected-readonly (executable m),
      is_executable-calm p i (sealed i w) u f ∙ ap (λ b. (ok b, sealed i w)) same,
      seal-calm p i (sealed i w) u f,
      new_mode i (sealed_mode ((sealed i w).fs.inode i).mode) (sealed i w)
          ∙ ap protected_mode same
          ∙ sym kept,
    )
