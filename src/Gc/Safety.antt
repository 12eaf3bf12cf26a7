-- ===== src/Gc/Safety.antt =====
-- The collector never touches a workspace file, whatever fails and whatever other processes do.
use i_tan_reclaim_space.Base.{ℕ, ◌≢◌, Bytes, ◌∷◌}
use i_tan_reclaim_space.Fs.Path.{Name, FilePath}
use i_tan_reclaim_space.Fs.World.{World}
use i_tan_reclaim_space.Fs.Undisturbed.{
  Undisturbed, rename_op-Undisturbed, remove_op-Undisturbed, mkdir_op-Undisturbed,
}
use i_tan_reclaim_space.Gc.{resurrection_path}
use i_tan_reclaim_space.Gc.Keeps.{Tended}

-- A path that is neither in a shard nor in quarantine.
pub Undisturbed-Tended :
    (objects_dir quarantine_dir p : FilePath) (i : ℕ) (c : Bytes)
    → ((m n : Name) → p ≢ m ∷ n ∷ objects_dir)
    → ((n : Name) → p ≢ n ∷ quarantine_dir)
    → Tended objects_dir quarantine_dir (Undisturbed p i c)
unfolding resurrection_path
Undisturbed-Tended objects_dir quarantine_dir p i c no_object no_entry = record {
  made = mkdir_op-Undisturbed p i c;
  moved = λ m n t. rename_op-Undisturbed p i c _ _ (no_object m n) (no_entry _);
  restored = λ n. rename_op-Undisturbed p i c _ _ (no_entry n) (no_object _ _);
  purged = λ n. remove_op-Undisturbed p i c _ (no_entry n);
}
