-- ===== src/Recovery.antt =====
-- crates/itan-core/src/recovery.rs: the sweep of stale staging files at the start.
pub mod Safety
use i_tan_reclaim_space.Base.{
  ℕ, ◌+◌, ◌-◌, ◌*◌, Bool, true, false, List, [], ◌∷◌, ◌++◌, Option, none, some, ltb, leb,
  if◌then◌else◌,
}
use i_tan_reclaim_space.Base.Results.{Result, ok, err}
use i_tan_reclaim_space.Fs.Path.{Name, FilePath}
use i_tan_reclaim_space.Fs.State.{IoError, Metadata}
use i_tan_reclaim_space.Fs.World.{M, pure, ◌>>=◌, attempt, clock}
use i_tan_reclaim_space.Fs.Calls.{metadata, read_dir, next_entry, remove_file}
use i_tan_reclaim_space.Store.{CasStore}

abbrev pub default_stale_threshold_secs : ℕ
default_stale_threshold_secs = 300

pub data RecoveryError : Type 0 where
  cannot_read_dir cannot_stat cannot_remove : FilePath → IoError → RecoveryError

pub record SweepReport : Type 0 where
  pub removed_count : ℕ
  pub bytes_freed : ℕ
  pub errors : List RecoveryError

abbrev pub empty_report : SweepReport
empty_report = record { removed_count = 0; bytes_freed = 0; errors = [] }

abbrev pub report_error : RecoveryError → SweepReport → SweepReport
report_error e report = record report { errors = report.errors ++ (e ∷ []) }

pub record StartupSweeper : Type 0 where
  pub store : CasStore
  pub stale_threshold : ℕ

abbrev pub with_default_threshold : CasStore → StartupSweeper
with_default_threshold s = record {
  store = s;
  stale_threshold = default_stale_threshold_secs * 1_000;
}

-- `file_age`; nothing stands for `Duration::MAX`, the age of a file whose time is unknown or to come.
unfoldable pub file_age : Metadata → ℕ → Option ℕ
file_age meta now = elim meta.mtime [
  | none ↦ none
  | some mtime ↦ if leb mtime now then some (now - mtime) else none
]

-- `age < self.stale_threshold`
abbrev pub is_fresh : Option ℕ → ℕ → Bool
is_fresh none threshold = false
is_fresh (some age) threshold = ltb age threshold

abbrev pub count_removed : ℕ → SweepReport → SweepReport
count_removed size report = record report {
  removed_count = report.removed_count + 1;
  bytes_freed = report.bytes_freed + size;
}

abbrev after_removal : FilePath → ℕ → Result IoError (Unit {0}) → SweepReport → SweepReport
after_removal path size (ok _) report = count_removed size report
after_removal path size (err e) report = report_error (cannot_remove path e) report

-- What is done with a regular file of the directory.
unfoldable pub sweep_file :
    {E : Type 0} → StartupSweeper → ℕ → FilePath → Metadata → SweepReport → M E SweepReport
unfolding file_age
sweep_file sweeper now path meta report =
    elim (is_fresh (file_age meta now) sweeper.stale_threshold) [
      | true ↦ pure report
      | false ↦ do
        removed ← attempt (remove_file path)
        pure (after_removal path meta.len removed report)
    ]

-- What is done with an entry of the directory.
unfoldable pub sweep_entry :
    {E : Type 0} → StartupSweeper → ℕ → Name → SweepReport → M E SweepReport
unfolding sweep_file
sweep_entry sweeper now n report = do
  entry ← attempt (next_entry n)
  elim entry [
    | err e ↦ pure (report_error (cannot_read_dir sweeper.store.tmp_dir e) report)
    | ok name ↦ do
      found ← attempt (metadata (name ∷ sweeper.store.tmp_dir))
      elim found [
        | err e ↦ pure (report_error (cannot_stat (name ∷ sweeper.store.tmp_dir) e) report)
        | ok meta ↦ elim meta.is_dir [
          | true ↦ pure report
          | false ↦ sweep_file sweeper now (name ∷ sweeper.store.tmp_dir) meta report
        ]
      ]
  ]

-- The loop over the entries.
unfoldable pub sweep_tmp_entries :
    {E : Type 0} → StartupSweeper → ℕ → List Name → SweepReport → M E SweepReport
unfolding sweep_entry
sweep_tmp_entries sweeper now [] report = pure report
sweep_tmp_entries sweeper now (n ∷ rest) report = do
  next ← sweep_entry sweeper now n report
  sweep_tmp_entries sweeper now rest next

unfoldable pub sweep_stale_tmp : {E : Type 0} → StartupSweeper → M E SweepReport
unfolding sweep_tmp_entries
sweep_stale_tmp sweeper = do
  entries ← attempt (read_dir sweeper.store.tmp_dir)
  elim entries [
    | err e ↦ pure (report_error (cannot_read_dir sweeper.store.tmp_dir e) empty_report)
    | ok names ↦ do now ← clock; sweep_tmp_entries sweeper now names empty_report
  ]
