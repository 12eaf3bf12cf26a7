-- ===== src/Tests/Sweeps.antt =====
-- Sweeps of the collector and of the recovery, and commands.
use i_tan_reclaim_space.Base.{
  ◌<◌, ◌≤◌, ◌≡◌, refl, ◌≢◌, Bytes, true, false, [], ◌∷◌, none, some, codes, arith, ℕ_discrete, ltb,
  if◌then◌else◌,
}
use i_tan_reclaim_space.Base.Results.{ok}
use i_tan_reclaim_space.Fs.Path.{Name, text, FilePath, path_dec}
use i_tan_reclaim_space.Fs.Table.{find, names, erase, bind}
use i_tan_reclaim_space.Fs.State.{Fs, has_dir, has_file, ancestors_in}
use i_tan_reclaim_space.Fs.World.{World, calm}
use i_tan_reclaim_space.Fs.Undisturbed.{Undisturbed}
use i_tan_reclaim_space.Cli.Commands.{Command, ingest}
use i_tan_reclaim_space.Cli.{CliError}
use i_tan_reclaim_space.Cli.Ingest.{ingest_dirs, started}
use i_tan_reclaim_space.Cli.Laws.{ingest_dirs-dry_run}
use i_tan_reclaim_space.Gc.{
  QuarantineGc, with_default_cooldown, quarantine_name, evaluate_objects_slot,
  evaluate_quarantine_entry, purged, resurrected, quarantined, skipped_active, skipped_cooling,
}
use i_tan_reclaim_space.Gc.Lifecycle.{
  cooling, expired_orphan, expired_referenced, evaluate_objects_slot_lem, moved,
}
use i_tan_reclaim_space.Ingest.{new_pipeline}
use i_tan_reclaim_space.Recovery.{
  with_default_threshold, sweep_stale_tmp, sweep_entry, empty_report, count_removed,
}
use i_tan_reclaim_space.Recovery.Safety.{sweep_stale_tmp-Undisturbed, sweep_entry_lem}
use i_tan_reclaim_space.Text.{decimal}
use i_tan_reclaim_space.Tests.Values.{
  root, capability, a_store, target, digest, volume, world, a_hasher, a_channel, keys_of,
}

abbrev gc : QuarantineGc
gc = with_default_cooldown a_store

abbrev name : Bytes
name = codes "ab_s000"

abbrev shard : FilePath
shard = text (codes "ab") ∷ a_store.objects_dir

abbrev slot : FilePath
slot = text name ∷ shard

abbrev entry : FilePath
entry = text (quarantine_name 1_000 name) ∷ a_store.quarantine_dir

abbrev staged : FilePath
staged = text (codes "x.stage") ∷ a_store.tmp_dir

-- A workspace file, an orphan and two more slots.
abbrev stored : Fs
stored =
    volume digest ((target, 1) ∷ (slot, 2) ∷ (staged, 4) ∷ [])
      (shard ∷ a_store.objects_dir ∷ a_store.quarantine_dir ∷ a_store.tmp_dir ∷ [] ∷ [])

abbrev orphaned : Fs
orphaned = volume digest ((target, 1) ∷ (entry, 2) ∷ []) (a_store.quarantine_dir ∷ [] ∷ [])

abbrev linked_again : Fs
linked_again = volume digest ((target, 2) ∷ (entry, 2) ∷ []) (a_store.quarantine_dir ∷ [] ∷ [])

target-Undisturbed : Undisturbed target 1 digest stored
unfolding find path_dec ℕ_discrete
target-Undisturbed = (refl, refl)

no_stage : (n : Name) → target ≢ n ∷ a_store.tmp_dir
no_stage n e = ground arith

abbrev later : World
later = world 2_000_000 stored []

sweep_stale_tmp-Undisturbed_example :
    Undisturbed target 1 digest
      (sweep_stale_tmp {E = CliError} (with_default_threshold a_store) later).1.fs
sweep_stale_tmp-Undisturbed_example =
    sweep_stale_tmp-Undisturbed (with_default_threshold a_store) target 1 digest no_stage CliError
      later target-Undisturbed tt

staged_found : find staged stored.table ≡ some 4
unfolding find path_dec ℕ_discrete
staged_found = refl

sweep_entry_lem_example :
    sweep_entry {E = CliError}
      (with_default_threshold a_store)
      2_000_000
      (text (codes "x.stage"))
      empty_report
      (calm later)
    ≡ (
      ok (count_removed 32 empty_report),
      record (calm later) { fs = record stored { table = erase staged stored.table } },
    )
sweep_entry_lem_example =
    sweep_entry_lem CliError (with_default_threshold a_store) 2_000_000 (text (codes "x.stage"))
      empty_report 4 later staged_found

ingest_dirs-dry_run_example :
    Undisturbed target 1 digest
      (ingest_dirs a_hasher
        (λ n. 0)
        keys_of
        a_channel
        capability
        a_store
        true
        5
        ([] ∷ [])
        (started (new_pipeline a_store capability.strategy))
        later).1.fs
ingest_dirs-dry_run_example =
    ingest_dirs-dry_run (Undisturbed target 1 digest) a_hasher (λ n. 0) keys_of a_channel capability
      a_store 5 ([] ∷ []) (started (new_pipeline a_store capability.strategy)) later
      target-Undisturbed tt

cooling_example :
    evaluate_quarantine_entry gc entry (world 2_000 orphaned [])
    ≡ (ok (skipped_cooling 599), world 2_000 orphaned [])
cooling_example =
    cooling gc 1_000 name (world 2_000 orphaned []) (omega arith) (omega arith) (omega arith)
      (omega arith)

abbrev cooled : World
cooled = world 700_000 orphaned []

entry_found : find entry orphaned.table ≡ some 2
unfolding find path_dec ℕ_discrete quarantine_name decimal
entry_found = refl

one_name : names 2 orphaned.table ≤ 1
unfolding names ℕ_discrete
one_name = omega arith

expired_orphan_example : evaluate_quarantine_entry gc entry (calm cooled) ≡ (
  ok (purged 32),
  record (calm cooled) { fs = record orphaned { table = erase entry orphaned.table } },
)
expired_orphan_example =
    expired_orphan gc 1_000 name 2 cooled refl (omega arith) (omega arith) (omega arith) entry_found
      one_name

abbrev relinked : World
relinked = world 700_000 linked_again []

relinked_found : find entry linked_again.table ≡ some 2
unfolding find path_dec ℕ_discrete quarantine_name decimal
relinked_found = refl

two_names : 1 < names 2 linked_again.table
unfolding names ℕ_discrete
two_names = omega arith

nothing_in_the_way :
    (has_file (ancestors_in shard) linked_again.table ≡ false)
    × (has_dir slot linked_again.dirs ≡ false)
    × (find slot linked_again.table ≡ none)
unfolding has_file has_dir find path_dec ℕ_discrete quarantine_name decimal
nothing_in_the_way = (refl, refl, refl)

expired_referenced_example :
    evaluate_quarantine_entry gc entry (calm relinked)
    ≡ (ok (resurrected slot), moved entry slot 2 relinked)
expired_referenced_example =
    expired_referenced gc 1_000 name 2 relinked refl (omega arith) (omega arith) (omega arith)
      (omega arith) relinked_found two_names nothing_in_the_way.0 nothing_in_the_way.1
      nothing_in_the_way.2

slot_found :
    (find slot stored.table ≡ some 2)
    × (has_dir a_store.quarantine_dir stored.dirs ≡ true)
    × (has_dir (text (quarantine_name 2_000_000 name) ∷ a_store.quarantine_dir) stored.dirs ≡ false)
    × (find (text (quarantine_name 2_000_000 name) ∷ a_store.quarantine_dir) stored.table ≡ none)
unfolding has_dir find path_dec ℕ_discrete quarantine_name decimal
slot_found = (refl, refl, refl, refl)

evaluate_objects_slot_lem_example :
    evaluate_objects_slot slot a_store.quarantine_dir (calm later) ≡ (
      if ltb 1 (names 2 stored.table)
      then (ok (skipped_active (names 2 stored.table)), calm later)
      else (
        ok (quarantined (text (quarantine_name 2_000_000 name) ∷ a_store.quarantine_dir)),
        record (calm later) {
          fs = record stored {
            table =
                bind
                  (text (quarantine_name 2_000_000 name) ∷ a_store.quarantine_dir)
                  2
                  (erase slot stored.table);
          };
        },
      ))
evaluate_objects_slot_lem_example =
    evaluate_objects_slot_lem name shard a_store.quarantine_dir 2 later refl slot_found.0
      slot_found.1 slot_found.2 slot_found.3

abbrev trial_run : Command
trial_run = ingest (text (codes "work") ∷ []) (some root) none true
