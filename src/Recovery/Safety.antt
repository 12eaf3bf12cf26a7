-- ===== src/Recovery/Safety.antt =====
-- What the sweep removes, and what it never touches.
use i_tan_reclaim_space.Base.{
  ℕ, ◌≡◌, ◌≢◌, Bytes, List, [], ◌∷◌, some, ltb, leb, ◌-◌, arith, ◌∙◌, if◌then◌else◌, ◌&&◌, length,
}
use i_tan_reclaim_space.Base.Results.{ok}
use i_tan_reclaim_space.Fs.Path.{Name, FilePath}
use i_tan_reclaim_space.Fs.Table.{find, erase}
use i_tan_reclaim_space.Fs.State.{Fs, Metadata, file_metadata, remove_op}
use i_tan_reclaim_space.Fs.World.{World, calm, ◌>>=◌, attempt, syscall, take_turn}
use i_tan_reclaim_space.Fs.Calls.{remove_file, next_entry}
use i_tan_reclaim_space.Fs.Runs.{metadata-calm, query-calm, attempt-eq, >>=-ok}
use i_tan_reclaim_space.Fs.Ensures.{
  Respect, Keeps, >>=-Ensures, attempt-Ensures, pure-Keeps, Bool-Ensures, Result-Ensures,
  metadata-Keeps, remove_file-Keeps, clock-Keeps, read_dir-Keeps, next_entry-Keeps,
}
use i_tan_reclaim_space.Fs.Undisturbed.{Undisturbed, remove_op-Undisturbed}
use i_tan_reclaim_space.Recovery.{
  SweepReport, StartupSweeper, count_removed, file_age, is_fresh, sweep_file, sweep_entry,
  sweep_tmp_entries, sweep_stale_tmp,
}

module _ (sweeper : StartupSweeper) (P : Fs → Type 0)
    (removed : (n : Name) (fs : Fs) → P fs → P (remove_op (n ∷ sweeper.store.tmp_dir) fs).1) where
  sweep_file-Keeps :
      {E : Type 0} (now : ℕ) (n : Name) (meta : Metadata) (report : SweepReport)
      → Keeps {E = E} P (sweep_file sweeper now (n ∷ sweeper.store.tmp_dir) meta report)
  unfolding sweep_file
  sweep_file-Keeps now n meta report =
      Bool-Ensures (is_fresh (file_age meta now) sweeper.stale_threshold) _ _ (pure-Keeps _)
        (>>=-Ensures _ _ (attempt-Ensures _ (remove_file-Keeps _ (removed n))) λ r _. pure-Keeps _)

  sweep_entry-Keeps :
      {E : Type 0} (now : ℕ) (n : Name) (report : SweepReport)
      → Keeps {E = E} P (sweep_entry sweeper now n report)
  unfolding sweep_entry
  sweep_entry-Keeps now n report = >>=-Ensures _ _ (attempt-Ensures _ (next_entry-Keeps n)) λ r _.
      Result-Ensures r _ _
        (λ name. >>=-Ensures _ _ (attempt-Ensures _ (metadata-Keeps _)) λ q _.
          Result-Ensures q _ _
            (λ meta.
              Bool-Ensures meta.is_dir _ _ (pure-Keeps _) (sweep_file-Keeps now name meta report))
            (λ e. pure-Keeps _))
        (λ e. pure-Keeps _)

  sweep_tmp_entries-Keeps :
      {E : Type 0} (now : ℕ) (names : List Name) (report : SweepReport)
      → Keeps {E = E} P (sweep_tmp_entries sweeper now names report)
  unfolding sweep_tmp_entries
  sweep_tmp_entries-Keeps now [] report = pure-Keeps _
  sweep_tmp_entries-Keeps now (n ∷ names) report =
      >>=-Ensures _ _ (sweep_entry-Keeps now n report)
        λ next _. sweep_tmp_entries-Keeps now names next

  pub sweep_stale_tmp-Keeps : {E : Type 0} → Keeps {E = E} P (sweep_stale_tmp sweeper)
  unfolding sweep_stale_tmp
  sweep_stale_tmp-Keeps = >>=-Ensures _ _ (attempt-Ensures _ (read_dir-Keeps _)) λ r _.
      Result-Ensures r _ _
        (λ names. >>=-Ensures _ _ clock-Keeps λ now _. sweep_tmp_entries-Keeps now names _)
        (λ e. pure-Keeps _)

module _ (sweeper : StartupSweeper) (p : FilePath) (i : ℕ) (c : Bytes)
    (no_entry : (n : Name) → p ≢ n ∷ sweeper.store.tmp_dir) where
  -- A file that is not directly in the staging directory keeps its inode and its content through the
  -- sweep, whatever fails, in each world whose other processes leave that file alone.
  pub sweep_stale_tmp-Undisturbed :
      (E : Type 0) (w : World)
      → Undisturbed p i c w.fs
      → Respect (Undisturbed p i c) w.turns
      → Undisturbed p i c (sweep_stale_tmp {E = E} sweeper w).1.fs
  sweep_stale_tmp-Undisturbed E w u r =
      ((sweep_stale_tmp-Keeps sweeper (Undisturbed p i c)
          (λ n. remove_op-Undisturbed p i c _ (no_entry n)) {E = E}).run
        w (u, r)).0.0

sweep_file-calm :
    {E : Type 0} (sweeper : StartupSweeper) (now : ℕ) (path : FilePath) (report : SweepReport)
    (i : ℕ) (w : World)
    → find path w.fs.table ≡ some i
    → sweep_file {E = E} sweeper now path (file_metadata i w.fs) report (calm w) ≡ (
        if leb (w.fs.inode i).mtime now && ltb (now - (w.fs.inode i).mtime) sweeper.stale_threshold
        then (ok report, calm w)
        else (
          ok (count_removed (length (w.fs.inode i).content) report),
          record (calm w) { fs = record w.fs { table = erase path w.fs.table } },
        ))
unfolding sweep_file file_age ◌>>=◌ attempt remove_file syscall take_turn remove_op
sweep_file-calm sweeper now path report i w f = ground arith

-- A staging file younger than the threshold stays, with no trace in the report; an older one, and one
-- whose time is still to come, is removed and counted with its length. In this run no call fails and no
-- other process interferes.
pub sweep_entry_lem :
    (E : Type 0) (sweeper : StartupSweeper) (now : ℕ) (n : Name) (report : SweepReport) (i : ℕ)
    (w : World)
    → find (n ∷ sweeper.store.tmp_dir) w.fs.table ≡ some i
    → sweep_entry {E = E} sweeper now n report (calm w) ≡ (
        if leb (w.fs.inode i).mtime now && ltb (now - (w.fs.inode i).mtime) sweeper.stale_threshold
        then (ok report, calm w)
        else (
          ok (count_removed (length (w.fs.inode i).content) report),
          record (calm w) {
            fs = record w.fs { table = erase (n ∷ sweeper.store.tmp_dir) w.fs.table };
          },
        ))
unfolding sweep_entry next_entry
sweep_entry_lem E sweeper now n report i w f =
    >>=-ok _ _ (calm w) (ok n) (calm w)
      (attempt-eq _ (calm w) (ok n) (calm w) (query-calm (λ fs. ok n) w))
    ∙ >>=-ok _ _ (calm w) _ (calm w)
        (attempt-eq _ (calm w) _ (calm w) (metadata-calm (n ∷ sweeper.store.tmp_dir) i w f))
    ∙ sweep_file-calm sweeper now (n ∷ sweeper.store.tmp_dir) report i w f
