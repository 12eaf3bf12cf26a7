-- ===== src/Gc.antt =====
-- crates/itan-core/src/gc.rs: the two-stage quarantine collector.
pub mod Fresh
pub mod Keeps
pub mod Lifecycle
pub mod Names
pub mod Safety
use i_tan_reclaim_space.Base.{
  ℕ, zero, suc, ◌+◌, ◌-◌, ◌*◌, ◌/◌, ◌%◌, ◌^◌, Bytes, Bool, true, false, List, [], ◌∷◌, ◌++◌, Option,
  none, some, ltb, leb, if◌then◌else◌, length, take, drop, codes,
}
use i_tan_reclaim_space.Base.Results.{Result, ok, err}
use i_tan_reclaim_space.Fs.Path.{Name, text, opaque, FilePath}
use i_tan_reclaim_space.Fs.State.{IoError, Metadata}
use i_tan_reclaim_space.Fs.World.{M, pure, throw, ◌>>=◌, ◌>>◌, map_err, attempt, clock, platform}
use i_tan_reclaim_space.Fs.Calls.{
  metadata, is_dir, read_dir, next_entry, rename, remove_file, create_dir_all,
}
use i_tan_reclaim_space.Text.{decimal, parse_u64, find_byte, before, u64_mod}
use i_tan_reclaim_space.Store.{CasStore}
use i_tan_reclaim_space.Store.Slots.{platform_link_count}

abbrev pub default_cooldown_secs : ℕ
default_cooldown_secs = 600

pub data GcError : Type 0 where
  cannot_read_dir quarantine_move cannot_purge : FilePath → IoError → GcError

pub data GcDecision : Type 0 where
  quarantined : FilePath → GcDecision
  resurrected : FilePath → GcDecision
  purged : ℕ → GcDecision
  skipped_active : ℕ → GcDecision
  skipped_cooling : ℕ → GcDecision

-- The messages of `GcStats::errors`, by what they are made from.
pub data GcMessage : Type 0 where
  shard_entry slot_entry quarantine_entry : IoError → GcMessage
  read_shard : FilePath → IoError → GcMessage
  evaluation : FilePath → GcError → GcMessage

pub record GcStats : Type 0 where
  pub quarantined : ℕ
  pub resurrected : ℕ
  pub purged : ℕ
  pub bytes_freed : ℕ
  pub skipped_active : ℕ
  pub errors : List GcMessage

abbrev pub no_stats : GcStats
no_stats = record {
  quarantined = 0;
  resurrected = 0;
  purged = 0;
  bytes_freed = 0;
  skipped_active = 0;
  errors = [];
}

abbrev pub message : GcMessage → GcStats → GcStats
message m stats = record stats { errors = stats.errors ++ (m ∷ []) }

pub record QuarantineGc : Type 0 where
  pub store : CasStore
  pub cooldown_secs : ℕ

abbrev pub with_default_cooldown : CasStore → QuarantineGc
with_default_cooldown s = record { store = s; cooldown_secs = default_cooldown_secs }

-- `path.file_name().and_then(|n| n.to_str()).unwrap_or(d)`
abbrev pub file_name_or : Bytes → FilePath → Bytes
file_name_or d [] = d
file_name_or d (text n ∷ p) = n
file_name_or d (opaque n ∷ p) = d

-- `format!("{}_{}", timestamp_ms, file_name)`
unfoldable pub quarantine_name : ℕ → Bytes → Bytes
quarantine_name timestamp_ms file_name = decimal timestamp_ms ++ b'_' ∷ file_name

unfoldable pub evaluate_objects_slot : FilePath → FilePath → M GcError GcDecision
evaluate_objects_slot slot_path quarantine_dir = do
  found ← attempt (metadata slot_path)
  elim found [
    | err e ↦ pure (skipped_active 0)
    | ok meta ↦ do
      os ← platform
      let link_count = platform_link_count os meta
      elim (ltb 1 link_count) [
        | true ↦ pure (skipped_active link_count)
        | false ↦ do
          timestamp_ms ← clock
          let name = quarantine_name timestamp_ms (file_name_or (codes "unknown") slot_path)
          let quarantine_path = text name ∷ quarantine_dir
          map_err (quarantine_move slot_path) (rename slot_path quarantine_path)
          pure (quarantined quarantine_path)
      ]
  ]

abbrev count_objects_slot : FilePath → Result GcError GcDecision → GcStats → GcStats
count_objects_slot p (ok (quarantined q)) stats = record stats {
  quarantined = stats.quarantined + 1;
}
count_objects_slot p (ok (skipped_active n)) stats = record stats {
  skipped_active = stats.skipped_active + 1;
}
count_objects_slot p (ok (resurrected q)) stats = stats
count_objects_slot p (ok (purged n)) stats = stats
count_objects_slot p (ok (skipped_cooling n)) stats = stats
count_objects_slot p (err e) stats = message (evaluation p e) stats

-- The loop over the entries of a shard.
unfoldable pub sweep_slots : FilePath → FilePath → List Name → GcStats → M GcError GcStats
unfolding evaluate_objects_slot
sweep_slots quarantine_dir shard_dir [] stats = pure stats
sweep_slots quarantine_dir shard_dir (n ∷ rest) stats = do
  entry ← attempt (next_entry n)
  elim entry [
    | err e ↦ sweep_slots quarantine_dir shard_dir rest (message (slot_entry e) stats)
    | ok name ↦ do
      decision ← attempt (evaluate_objects_slot (name ∷ shard_dir) quarantine_dir)
      sweep_slots quarantine_dir shard_dir rest
          (count_objects_slot (name ∷ shard_dir) decision stats)
  ]

-- The loop over the shards.
unfoldable pub sweep_shards : FilePath → FilePath → List Name → GcStats → M GcError GcStats
unfolding sweep_slots
sweep_shards quarantine_dir objects_dir [] stats = pure stats
sweep_shards quarantine_dir objects_dir (n ∷ rest) stats = do
  entry ← attempt (next_entry n)
  elim entry [
    | err e ↦ sweep_shards quarantine_dir objects_dir rest (message (shard_entry e) stats)
    | ok name ↦ do
      shard ← is_dir (name ∷ objects_dir)
      elim shard [
        | false ↦ sweep_shards quarantine_dir objects_dir rest stats
        | true ↦ do
          slots ← attempt (read_dir (name ∷ objects_dir))
          elim slots [
            | err e ↦
                sweep_shards quarantine_dir objects_dir rest
                  (message (read_shard (name ∷ objects_dir) e) stats)
            | ok names ↦ do
              after ← sweep_slots quarantine_dir (name ∷ objects_dir) names stats
              sweep_shards quarantine_dir objects_dir rest after
          ]
      ]
  ]

unfoldable pub sweep_objects : QuarantineGc → M GcError GcStats
unfolding sweep_shards
sweep_objects gc = do
  shards ← map_err (cannot_read_dir gc.store.objects_dir) (read_dir gc.store.objects_dir)
  sweep_shards gc.store.quarantine_dir gc.store.objects_dir shards no_stats

abbrev parsed_or_zero : Option ℕ → ℕ
parsed_or_zero none = 0
parsed_or_zero (some n) = n

-- `quarantine_entry_age_ms`, at the time `now`.
unfoldable pub quarantine_entry_age_ms : ℕ → Bytes → ℕ
quarantine_entry_age_ms now file_name =
    now % u64_mod - parsed_or_zero (parse_u64 (before b'_' file_name))

abbrev stripped : Bytes → Option ℕ → Bytes
stripped file_name none = file_name
stripped file_name (some idx) =
    if ltb (idx + 1) (length file_name) then drop (idx + 1) file_name else file_name

unfoldable pub strip_quarantine_prefix : Bytes → Bytes
strip_quarantine_prefix file_name = stripped file_name (find_byte b'_' file_name)

-- Where a resurrected entry goes. File names are ASCII, so that `[..2]` does not split a character.
unfoldable pub resurrection_path : FilePath → Bytes → FilePath
unfolding strip_quarantine_prefix
resurrection_path objects_dir file_name =
    let slot_name = strip_quarantine_prefix file_name in
    let prefix = if leb 2 (length slot_name) then take 2 slot_name else codes "00" in
    text slot_name ∷ text prefix ∷ objects_dir

-- What becomes of an entry whose cooldown has passed, if it has been linked since.
unfoldable pub resurrect : FilePath → FilePath → M GcError GcDecision
resurrect entry_path target = do
  _ ← attempt {F = GcError} (create_dir_all (drop 1 target))
  map_err (quarantine_move entry_path) (rename entry_path target)
  pure (resurrected target)

-- And if it has not.
unfoldable pub purge : FilePath → Metadata → M GcError GcDecision
purge entry_path meta = do
  map_err (cannot_purge entry_path) (remove_file entry_path)
  pure (purged meta.len)

-- What becomes of it, from its metadata.
unfoldable pub settle : QuarantineGc → FilePath → Bytes → Metadata → M GcError GcDecision
unfolding platform_link_count resurrect purge
settle gc entry_path file_name meta = do
  os ← platform
  elim (ltb 1 (platform_link_count os meta)) [
    | true ↦ resurrect entry_path (resurrection_path gc.store.objects_dir file_name)
    | false ↦ purge entry_path meta
  ]

-- The decision for an entry of a given age.
unfoldable pub judge : QuarantineGc → FilePath → Bytes → ℕ → ℕ → M GcError GcDecision
unfolding settle
judge gc entry_path file_name age_ms cooldown_ms = elim (ltb age_ms cooldown_ms) [
  | true ↦ pure (skipped_cooling ((cooldown_ms - age_ms) / 1_000))
  | false ↦ do
    found ← attempt (metadata entry_path)
    elim found [ err e ↦ pure (purged 0) | ok meta ↦ settle gc entry_path file_name meta ]
]

unfoldable pub evaluate_quarantine_entry : QuarantineGc → FilePath → M GcError GcDecision
unfolding judge
evaluate_quarantine_entry gc entry_path = do
  let file_name = file_name_or [] entry_path
  now ← clock
  judge gc entry_path file_name (quarantine_entry_age_ms now file_name)
      (gc.cooldown_secs * 1_000 % u64_mod)

abbrev count_entry : FilePath → Result GcError GcDecision → GcStats → GcStats
count_entry p (ok (purged n)) stats = record stats {
  purged = stats.purged + 1;
  bytes_freed = stats.bytes_freed + n;
}
count_entry p (ok (resurrected q)) stats = record stats { resurrected = stats.resurrected + 1 }
count_entry p (ok (quarantined q)) stats = stats
count_entry p (ok (skipped_active n)) stats = stats
count_entry p (ok (skipped_cooling n)) stats = stats
count_entry p (err e) stats = message (evaluation p e) stats

unfoldable pub sweep_entries : QuarantineGc → List Name → GcStats → M GcError GcStats
unfolding evaluate_quarantine_entry
sweep_entries gc [] stats = pure stats
sweep_entries gc (n ∷ rest) stats = do
  entry ← attempt (next_entry n)
  elim entry [
    | err e ↦ sweep_entries gc rest (message (quarantine_entry e) stats)
    | ok name ↦ do
      let path = name ∷ gc.store.quarantine_dir
      decision ← attempt (evaluate_quarantine_entry gc path)
      sweep_entries gc rest (count_entry path decision stats)
  ]

unfoldable pub sweep_quarantine : QuarantineGc → M GcError GcStats
unfolding sweep_entries
sweep_quarantine gc = do
  let dir = gc.store.quarantine_dir
  entries ← map_err (cannot_read_dir dir) (read_dir dir)
  sweep_entries gc entries no_stats
