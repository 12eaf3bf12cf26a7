-- ===== src/Gc/Keeps.antt =====
-- What the sweeps of the collector keep of the volume, whatever fails and whatever other processes do.
use i_tan_reclaim_space.Base.{ℕ, codes, List, [], ◌∷◌, ltb}
use i_tan_reclaim_space.Fs.Path.{Name, text, FilePath}
use i_tan_reclaim_space.Fs.State.{Fs, Metadata, mkdir_op, rename_op, remove_op}
use i_tan_reclaim_space.Fs.Ensures.{
  Keeps, >>=-Ensures, map_err-Ensures, attempt-Ensures, pure-Keeps, Bool-Ensures, Result-Ensures,
  metadata-Keeps, platform-Keeps, clock-Keeps, read_dir-Keeps, next_entry-Keeps, is_dir-Keeps,
  rename-Keeps, remove_file-Keeps, create_dir_all-Keeps,
}
use i_tan_reclaim_space.Store.Slots.{platform_link_count}
use i_tan_reclaim_space.Gc.{
  GcStats, QuarantineGc, evaluate_objects_slot, sweep_slots, sweep_shards, sweep_objects,
  evaluate_quarantine_entry, sweep_entries, sweep_quarantine, resurrection_path, settle, judge,
  resurrect, purge, file_name_or, quarantine_name,
}

-- The name that a slot gets in quarantine.
abbrev pub quarantine_entry_of : FilePath → ℕ → Name
quarantine_entry_of slot_path timestamp_ms =
    text (quarantine_name timestamp_ms (file_name_or (codes "unknown") slot_path))

-- What the collector does to the volume keeps a predicate.
pub record Tended (objects_dir quarantine_dir : FilePath) (P : Fs → Type 0) : Type 0 where
  pub made : (q : FilePath) (fs : Fs) → P fs → P (mkdir_op q fs).1
  pub moved :
      (m n : Name) (timestamp_ms : ℕ) (fs : Fs)
      → P fs
      → P
          (rename_op
            (m ∷ n ∷ objects_dir)
            (quarantine_entry_of (m ∷ n ∷ objects_dir) timestamp_ms ∷ quarantine_dir)
            fs).1
  pub restored :
      (n : Name) (fs : Fs)
      → P fs
      → P
          (rename_op
            (n ∷ quarantine_dir)
            (resurrection_path objects_dir (file_name_or [] (n ∷ quarantine_dir)))
            fs).1
  pub purged : (n : Name) (fs : Fs) → P fs → P (remove_op (n ∷ quarantine_dir) fs).1

module _ (gc : QuarantineGc) (P : Fs → Type 0)
    (t : Tended gc.store.objects_dir gc.store.quarantine_dir P) where
  evaluate_objects_slot-Keeps :
      (m n : Name)
      → Keeps P (evaluate_objects_slot (m ∷ n ∷ gc.store.objects_dir) gc.store.quarantine_dir)
  unfolding evaluate_objects_slot
  evaluate_objects_slot-Keeps m n = >>=-Ensures _ _ (attempt-Ensures _ (metadata-Keeps _)) λ r _.
      Result-Ensures r _ _
        (λ meta. >>=-Ensures _ _ platform-Keeps λ os _.
          Bool-Ensures (ltb 1 (platform_link_count os meta)) _ _ (pure-Keeps _) (
            >>=-Ensures _ _ clock-Keeps λ now _.
              >>=-Ensures _ _ (map_err-Ensures _ _ (rename-Keeps _ _ (t.moved m n _)))
                λ _ _. pure-Keeps _))
        (λ e. pure-Keeps _)

  sweep_slots-Keeps :
      (n : Name) (names : List Name) (stats : GcStats)
      → Keeps P (sweep_slots gc.store.quarantine_dir (n ∷ gc.store.objects_dir) names stats)
  unfolding sweep_slots
  sweep_slots-Keeps n [] stats = pure-Keeps _
  sweep_slots-Keeps n (m ∷ names) stats =
      >>=-Ensures _ _ (attempt-Ensures _ (next_entry-Keeps m)) λ r _.
        Result-Ensures r _ _
          (λ m'.
            >>=-Ensures _ _ (attempt-Ensures _ (evaluate_objects_slot-Keeps m' n))
              λ q _. sweep_slots-Keeps n names _)
          (λ e. sweep_slots-Keeps n names _)

  sweep_shards-Keeps :
      (names : List Name) (stats : GcStats)
      → Keeps P (sweep_shards gc.store.quarantine_dir gc.store.objects_dir names stats)
  unfolding sweep_shards
  sweep_shards-Keeps [] stats = pure-Keeps _
  sweep_shards-Keeps (n ∷ names) stats =
      >>=-Ensures _ _ (attempt-Ensures _ (next_entry-Keeps n)) λ r _.
        Result-Ensures r _ _
          (λ n'. >>=-Ensures _ _ (is_dir-Keeps _) λ shard _.
            Bool-Ensures shard _ _
              (>>=-Ensures _ _ (attempt-Ensures _ (read_dir-Keeps _)) λ s _.
                Result-Ensures s _ _
                  (λ slots.
                    >>=-Ensures _ _ (sweep_slots-Keeps n' slots stats)
                      λ after _. sweep_shards-Keeps names after)
                  (λ e. sweep_shards-Keeps names _))
              (sweep_shards-Keeps names stats))
          (λ e. sweep_shards-Keeps names _)

  pub sweep_objects-Keeps : Keeps P (sweep_objects gc)
  unfolding sweep_objects
  sweep_objects-Keeps =
      >>=-Ensures _ _ (map_err-Ensures _ _ (read_dir-Keeps _))
        λ shards _. sweep_shards-Keeps shards _

  settle-Keeps :
      (n : Name) (meta : Metadata)
      → Keeps P (
          settle gc
            (n ∷ gc.store.quarantine_dir)
            (file_name_or [] (n ∷ gc.store.quarantine_dir))
            meta)
  unfolding settle resurrect purge
  settle-Keeps n meta = >>=-Ensures _ _ platform-Keeps λ os _.
      Bool-Ensures (ltb 1 (platform_link_count os meta)) _ _
        (>>=-Ensures _ _ (attempt-Ensures _ (create_dir_all-Keeps _ t.made)) λ _ _.
          >>=-Ensures _ _ (map_err-Ensures _ _ (rename-Keeps _ _ (t.restored n)))
            λ _ _. pure-Keeps _)
        (>>=-Ensures _ _ (map_err-Ensures _ _ (remove_file-Keeps _ (t.purged n)))
          λ _ _. pure-Keeps _)

  judge-Keeps :
      (n : Name) (age cooldown : ℕ)
      → Keeps P (
          judge gc
            (n ∷ gc.store.quarantine_dir)
            (file_name_or [] (n ∷ gc.store.quarantine_dir))
            age
            cooldown)
  unfolding judge
  judge-Keeps n age cooldown = Bool-Ensures (ltb age cooldown) _ _ (pure-Keeps _) (
      >>=-Ensures _ _ (attempt-Ensures _ (metadata-Keeps _))
        λ r _. Result-Ensures r _ _ (settle-Keeps n) (λ e. pure-Keeps _))

  evaluate_quarantine_entry-Keeps :
      (n : Name) → Keeps P (evaluate_quarantine_entry gc (n ∷ gc.store.quarantine_dir))
  unfolding evaluate_quarantine_entry
  evaluate_quarantine_entry-Keeps n = >>=-Ensures _ _ clock-Keeps (λ now _. judge-Keeps n _ _)

  sweep_entries-Keeps :
      (names : List Name) (stats : GcStats) → Keeps P (sweep_entries gc names stats)
  unfolding sweep_entries
  sweep_entries-Keeps [] stats = pure-Keeps _
  sweep_entries-Keeps (n ∷ names) stats =
      >>=-Ensures _ _ (attempt-Ensures _ (next_entry-Keeps n)) λ r _.
        Result-Ensures r _ _
          (λ n'.
            >>=-Ensures _ _ (attempt-Ensures _ (evaluate_quarantine_entry-Keeps n'))
              λ q _. sweep_entries-Keeps names _)
          (λ e. sweep_entries-Keeps names _)

  pub sweep_quarantine-Keeps : Keeps P (sweep_quarantine gc)
  unfolding sweep_quarantine
  sweep_quarantine-Keeps =
      >>=-Ensures _ _ (map_err-Ensures _ _ (read_dir-Keeps _))
        λ entries _. sweep_entries-Keeps entries _
