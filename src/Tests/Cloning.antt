-- ===== src/Tests/Cloning.antt =====
-- Trial clones on a volume, and renaming without replacing.
use i_tan_reclaim_space.Base.{ℕ, ◌<◌, ◌≡◌, refl, [], ◌∷◌, true, false, ℕ_discrete}
use i_tan_reclaim_space.Base.Results.{ok}
use i_tan_reclaim_space.Fs.Path.{path_dec}
use i_tan_reclaim_space.Fs.Table.{find}
use i_tan_reclaim_space.Fs.State.{IoError, os_error, has_dir}
use i_tan_reclaim_space.Fs.World.{World, M, calm, pure, throw}
use i_tan_reclaim_space.Fs.Runs.Handles.{rewritten}
use i_tan_reclaim_space.Capability.{LinkStrategy, is_hardlink}
use i_tan_reclaim_space.Capability.Trial.{
  linux, Build, System, succeeded, cow_dry_run_linux, detect_strategy_of,
}
use i_tan_reclaim_space.Capability.Trial.Choice.{NoClone, detect_strategy_of-is_hardlink}
use i_tan_reclaim_space.Capability.Trial.Cleanup.{
  IsFiclone, CanTry, cloned, cow_dry_run_linux-cleanup,
}
use i_tan_reclaim_space.Tests.Values.{root, a_store, target, digest, volume, world}

abbrev refusing : {A : Type 0} → M IoError A
refusing = throw (os_error 95)

-- A system on Btrfs whose clones fail.
abbrev no_clones : System
no_clones = record {
  statfs = λ p. pure 0x9123_683E;
  ficlone = λ d s. refusing;
  clonefile = λ s d. refusing;
  volume_flags = λ p. pure 0;
  open_existing = λ p. refusing;
  open_always = λ p. refusing;
  duplicate_extents = λ d s. refusing;
  close_handle = λ h. refusing;
}

no_clones-NoClone : NoClone no_clones
no_clones-NoClone = record {
  ficlone = λ d s w. refl;
  clonefile = λ s d w. refl;
  duplicate_extents = λ d s w. refl;
}

abbrev cow_build : Build
cow_build = record { target_os = linux; windows_ntfs = false; linux_cow = true }

abbrev trying : World
trying = world 5 (volume digest ((target, 0) ∷ []) (a_store.tmp_dir ∷ [] ∷ [])) []

detect_strategy_of-is_hardlink_example :
    (s : LinkStrategy) × (v : World) × (detect_strategy_of no_clones {E = IoError} cow_build root
        a_store.tmp_dir trying
      ≡ (ok s, v))
    × (is_hardlink s ≡ true)
detect_strategy_of-is_hardlink_example =
    detect_strategy_of-is_hardlink no_clones no_clones-NoClone cow_build root a_store.tmp_dir trying

-- A system whose clones succeed.
abbrev clones : System
clones = record no_clones { ficlone = λ d s w. (ok tt, rewritten d (w.fs.inode s).content w) }

clones-IsFiclone : IsFiclone clones
clones-IsFiclone = record { copies = λ d s w. (ok tt, (w.fs.inode s).content, refl) }

trying-CanTry : CanTry clones a_store.tmp_dir trying
unfolding find has_dir path_dec ℕ_discrete
trying-CanTry = record {
  no_src = refl;
  no_dst = refl;
  no_src_dir = refl;
  no_dst_dir = refl;
  tmp_there = refl;
}

cow_dry_run_linux-cleanup_example :
    (v : World) × (cow_dry_run_linux clones {E = IoError} a_store.tmp_dir (calm trying)
      ≡ (ok (succeeded (cloned clones a_store.tmp_dir trying)), v))
    × (v.fs.table ≡ trying.fs.table)
    × (v.fs.dirs ≡ trying.fs.dirs)
    × ((j : ℕ) → j < 10 → v.fs.inode j ≡ trying.fs.inode j)
cow_dry_run_linux-cleanup_example =
    cow_dry_run_linux-cleanup clones a_store.tmp_dir trying trying-CanTry clones-IsFiclone
