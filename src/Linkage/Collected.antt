-- ===== src/Linkage/Collected.antt =====
-- The commands other than a real `ingest` keep the tracked file: the collector moves a slot under
-- a name that stands for it, and the sweeps remove only what lies in quarantine or is staged.
use mathlib.Core.Path.{subst}
use i_tan_reclaim_space.Base.{ℕ, refl, sym, ap, ◌≢◌, Bytes, [], ◌∷◌, codes}
use i_tan_reclaim_space.Cli.Opening.{Harmless}
use i_tan_reclaim_space.Fs.Path.{Name, text, FilePath}
use i_tan_reclaim_space.Fs.State.{Fs, remove_op}
use i_tan_reclaim_space.Gc.{file_name_or, resurrection_path}
use i_tan_reclaim_space.Gc.Keeps.{quarantine_entry_of}
use i_tan_reclaim_space.Linkage.Fits.{staging, slot}
use i_tan_reclaim_space.Linkage.Kin.{
  stray, quarantined, objects_of, quarantine_of, quarantine_entry_of-slot, staging-objects,
  objects-quarantine, staging-quarantine, Owned-quarantine,
}
use i_tan_reclaim_space.Linkage.Names.{InStore, front}
use i_tan_reclaim_space.Linkage.Safety.{Present}
use i_tan_reclaim_space.Linkage.Tracked.{Tracked, owned, kin, own, Tracks}
use i_tan_reclaim_space.Store.Content.{mkdir_op-IsSound, remove_op-IsSound, rename_op-IsSound}
use i_tan_reclaim_space.Store.Hex.Laws.{IsDigest}
use i_tan_reclaim_space.Store.Slots.{slot_path, directory}

module _ (root p0 : FilePath) (d0 : Bytes) (v0 : IsDigest d0)
    (away0 : InStore root (directory p0) → ⊥) where
  unheld : (p : FilePath) → InStore root (directory p) → Present p0 p → ⊥
  unheld p s e = away0 (subst (λ x. InStore root (directory x)) e s)

  entry-InStore : (n : Name) → InStore root (directory (n ∷ quarantine_of root))
  entry-InStore n = (text (codes "quarantine") ∷ [], refl)

  object-InStore : (m n : Name) → InStore root (directory (m ∷ n ∷ objects_of root))
  object-InStore m n = (n ∷ text (codes "objects") ∷ [], refl)

  -- What gets a trusted name in quarantine has a trusted name.
  moved-Tracked :
      (m n : Name) (timestamp_ms : ℕ)
      → Tracked root d0 p0
          (quarantine_entry_of (m ∷ n ∷ objects_of root) timestamp_ms ∷ quarantine_of root)
      → Tracked root d0 p0 (m ∷ n ∷ objects_of root)
  moved-Tracked m n ts (owned o) = absurd (Owned-quarantine root d0 _ o)
  moved-Tracked m n ts (own e) = absurd (unheld _ (text (codes "quarantine") ∷ [], refl) e)
  moved-Tracked m n ts (kin (stray k x e)) = absurd (objects-quarantine root _ _ x (sym e))
  moved-Tracked m n ts (kin (quarantined k x e s)) = kin (
      stray k n (
        ap (λ x. x ∷ n ∷ objects_of root)
          (quarantine_entry_of-slot d0 v0 m (n ∷ objects_of root) ts k s)))

  -- So has what is restored to one.
  restored-Tracked :
      (n : Name)
      → Tracked root d0 p0
          (resurrection_path (objects_of root) (file_name_or [] (n ∷ quarantine_of root)))
      → Tracked root d0 p0 (n ∷ quarantine_of root)
  unfolding resurrection_path slot_path
  restored-Tracked n (owned (slot k e)) = kin (quarantined k n refl (ap front e))
  restored-Tracked n (own e) = absurd (unheld _ (_ ∷ text (codes "objects") ∷ [], refl) e)
  restored-Tracked n (kin (stray k x e)) = kin (quarantined k n refl (ap front e))
  restored-Tracked n (kin (quarantined k x e s)) = absurd (objects-quarantine root _ _ _ e)

  module _ (hash : Bytes → Bytes) where
    removed :
        (p : FilePath)
        → InStore root (directory p)
        → (fs : Fs) → Tracks hash root d0 p0 fs
        → Tracks hash root d0 p0 (remove_op p fs).1
    removed p s =
        remove_op-IsSound hash d0 (staging root) (Tracked root d0 p0) (Present p0) p (unheld p s)

    restored-NotStaged :
        (n m : Name)
        → resurrection_path (objects_of root) (file_name_or [] (n ∷ quarantine_of root))
          ≢ m ∷ staging root
    unfolding resurrection_path
    restored-NotStaged n m e = staging-objects root m _ _ (sym e)

    pub Tracks-Harmless : Harmless root (Tracks hash root d0 p0)
    Tracks-Harmless = record {
      tended = record {
        made = mkdir_op-IsSound hash d0 (staging root) (Tracked root d0 p0) (Present p0);
        moved = λ m n ts.
            rename_op-IsSound hash d0 (staging root) (Tracked root d0 p0) (Present p0) _ _
              (λ x e. staging-quarantine root x _ (sym e)) (unheld _ (object-InStore m n))
              (moved-Tracked m n ts);
        restored = λ n.
            rename_op-IsSound hash d0 (staging root) (Tracked root d0 p0) (Present p0) _ _
              (restored-NotStaged n) (unheld _ (entry-InStore n)) (restored-Tracked n);
        purged = λ n. removed _ (entry-InStore n);
      };
      removed = λ n. removed _ (text (codes "tmp") ∷ [], refl);
    }
