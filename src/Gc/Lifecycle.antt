-- ===== src/Gc/Lifecycle.antt =====
-- The life of a slot in the collector, in a world whose calls succeed: when it is quarantined, how
-- long it cools, and when it is purged or goes back.
use mathlib.Core.Path.{ap₂}
use native.Mathlib.Nat.{mod-eq_of_lt}
use i_tan_reclaim_space.Base.{
  ℕ, ◌+◌, ◌-◌, ◌*◌, ◌/◌, ◌<◌, ◌≤◌, ◌≡◌, refl, Bytes, [], ◌∷◌, none, some, arith, ltb, if◌then◌else◌,
  length, drop, take, false, true, ap, ◌∙◌,
}
use i_tan_reclaim_space.Base.Results.{ok}
use i_tan_reclaim_space.Fs.Path.{Name, text, FilePath}
use i_tan_reclaim_space.Fs.Table.{find, erase, bind, names}
use i_tan_reclaim_space.Fs.State.{
  has_dir, has_file, has_parent, make_dirs, ancestors_in, file_metadata, remove_op, rename_op,
  replace, mkdir_op,
}
use i_tan_reclaim_space.Fs.Runs.Dirs.{has_dir_made, has_dir_deeper}
use i_tan_reclaim_space.Fs.World.{
  syscall, take_turn, World, ◌>>=◌, map_err, attempt, clock, platform, calm, unix,
}
use i_tan_reclaim_space.Fs.Calls.{metadata, rename, remove_file, create_dir_all}
use i_tan_reclaim_space.Text.{u64_mod}
use i_tan_reclaim_space.Store.Slots.{platform_link_count}
use i_tan_reclaim_space.Gc.{
  QuarantineGc, quarantined, skipped_active, purged, skipped_cooling, resurrected, quarantine_name,
  evaluate_objects_slot, evaluate_quarantine_entry, judge, settle, resurrect, purge,
  resurrection_path,
}
use i_tan_reclaim_space.Gc.Names.{
  quarantine_entry_age_ms-quarantine_name, strip_quarantine_prefix-quarantine_name,
}

judge_cooling :
    (gc : QuarantineGc) (p : FilePath) (s : Bytes) (age cooldown : ℕ) (w : World)
    → age < cooldown
    → judge gc p s age cooldown w ≡ (ok (skipped_cooling ((cooldown - age) / 1_000)), w)
unfolding judge
judge_cooling gc p s age cooldown w h = ground arith

judge_expired :
    (gc : QuarantineGc) (p : FilePath) (s : Bytes) (age cooldown i : ℕ) (w : World)
    → cooldown ≤ age
    → find p w.fs.table ≡ some i
    → judge gc p s age cooldown (calm w) ≡ settle gc p s (file_metadata i w.fs) (calm w)
unfolding judge ◌>>=◌ metadata attempt
judge_expired gc p s age cooldown i w h f = ground arith

-- A computed age and a computed cooldown in place of those of the entry.
evaluate_quarantine_entry_eq :
    (gc : QuarantineGc) (dir : FilePath) (ts : ℕ) (name : Bytes) (w : World)
    → w.now < u64_mod
    → ts < u64_mod
    → gc.cooldown_secs * 1_000 < u64_mod
    → evaluate_quarantine_entry gc (text (quarantine_name ts name) ∷ dir) w
      ≡ judge gc
          (text (quarantine_name ts name) ∷ dir)
          (quarantine_name ts name)
          (w.now - ts)
          (gc.cooldown_secs * 1_000)
          w
unfolding evaluate_quarantine_entry ◌>>=◌ clock
evaluate_quarantine_entry_eq gc dir ts name w hn ht hc =
    ap₂
      (λ age cooldown.
        judge gc (text (quarantine_name ts name) ∷ dir) (quarantine_name ts name) age cooldown w)
      (quarantine_entry_age_ms-quarantine_name w.now ts name hn ht) (mod-eq_of_lt hc)

-- A quarantined slot whose cooldown is not over stays where it is, in each world: no file is
-- touched, and the decision has the whole seconds that are left. The clock and the cooldown in
-- milliseconds fit in 64 bits.
pub cooling :
    (gc : QuarantineGc) (ts : ℕ) (name : Bytes) (w : World)
    → w.now < u64_mod
    → ts ≤ w.now
    → gc.cooldown_secs * 1_000 < u64_mod
    → w.now < ts + gc.cooldown_secs * 1_000
    → evaluate_quarantine_entry gc (text (quarantine_name ts name) ∷ gc.store.quarantine_dir) w
      ≡ (ok (skipped_cooling ((gc.cooldown_secs * 1_000 - (w.now - ts)) / 1_000)), w)
cooling gc ts name w hn ht hc h =
    evaluate_quarantine_entry_eq gc gc.store.quarantine_dir ts name w hn (omega arith) hc
    ∙ judge_cooling gc _ _ (w.now - ts) (gc.cooldown_secs * 1_000) w (omega arith)

settle_orphan :
    (gc : QuarantineGc) (p : FilePath) (s : Bytes) (i : ℕ) (w : World)
    → w.os ≡ unix
    → names i w.fs.table ≤ 1
    → settle gc p s (file_metadata i w.fs) w ≡ purge p (file_metadata i w.fs) w
unfolding settle ◌>>=◌ platform platform_link_count
settle_orphan gc p s i w u n = rw (u, platform_link_count) (ground arith)

settle_referenced :
    (gc : QuarantineGc) (p : FilePath) (s : Bytes) (i : ℕ) (w : World)
    → w.os ≡ unix
    → 1 < names i w.fs.table
    → settle gc p s (file_metadata i w.fs) w
      ≡ resurrect p (resurrection_path gc.store.objects_dir s) w
unfolding settle ◌>>=◌ platform platform_link_count
settle_referenced gc p s i w u n = rw (u, platform_link_count) (ground arith)

purge_found :
    (p : FilePath) (i : ℕ) (w : World)
    → find p w.fs.table ≡ some i
    → purge p (file_metadata i w.fs) (calm w) ≡ (
      ok (purged (length (w.fs.inode i).content)),
      record (calm w) { fs = record w.fs { table = erase p w.fs.table } },
    )
unfolding purge ◌>>=◌ map_err remove_file syscall take_turn remove_op
purge_found p i w f = rw (f, remove_op) refl

-- The world in which a file has moved to another path, whose directory is made for it.
abbrev pub moved : FilePath → FilePath → ℕ → World → World
moved p q i w = record (calm w) {
  fs = record w.fs {
    table = bind q i (erase p w.fs.table);
    dirs = make_dirs (ancestors_in (drop 1 q)) w.fs.dirs;
  };
}

resurrect_found :
    (p d : FilePath) (m : Name) (i : ℕ) (w : World)
    → find p w.fs.table ≡ some i
    → has_file (ancestors_in d) w.fs.table ≡ false
    → has_dir (m ∷ d) w.fs.dirs ≡ false
    → find (m ∷ d) w.fs.table ≡ none
    → resurrect p (m ∷ d) (calm w) ≡ (ok (resurrected (m ∷ d)), moved p (m ∷ d) i w)
unfolding resurrect ◌>>=◌ map_err rename syscall take_turn rename_op attempt create_dir_all mkdir_op
    has_parent replace
resurrect_found p d m i w f hf hd ht =
    ground (arith, has_dir_made d w.fs.dirs, has_dir_deeper d (m ∷ d) w.fs.dirs (omega arith))

-- A slot with no other name whose cooldown is over is purged: its last name is erased, nothing else
-- changes, and the decision has the length of its content. On a Unix system whose calls succeed;
-- the clock and the cooldown in milliseconds fit in 64 bits.
pub expired_orphan :
    (gc : QuarantineGc) (ts : ℕ) (name : Bytes) (i : ℕ) (w : World)
    → w.os ≡ unix
    → w.now < u64_mod
    → gc.cooldown_secs * 1_000 < u64_mod
    → ts + gc.cooldown_secs * 1_000 ≤ w.now
    → find (text (quarantine_name ts name) ∷ gc.store.quarantine_dir) w.fs.table ≡ some i
    → names i w.fs.table ≤ 1
    → evaluate_quarantine_entry gc
        (text (quarantine_name ts name) ∷ gc.store.quarantine_dir)
        (calm w)
      ≡ (
        ok (purged (length (w.fs.inode i).content)),
        record (calm w) {
          fs = record w.fs {
            table = erase (text (quarantine_name ts name) ∷ gc.store.quarantine_dir) w.fs.table;
          };
        },
      )
expired_orphan gc ts name i w u hn hc h f n =
    evaluate_quarantine_entry_eq gc gc.store.quarantine_dir ts name (calm w) hn (omega arith) hc
    ∙ judge_expired gc _ _ (w.now - ts) (gc.cooldown_secs * 1_000) i w (omega arith) f
    ∙ settle_orphan gc _ _ i (calm w) u n
    ∙ purge_found _ i w f

-- A slot name has two characters for its shard.
resurrection_path-quarantine_name :
    (objects_dir : FilePath) (ts : ℕ) (name : Bytes)
    → 2 ≤ length name
    → resurrection_path objects_dir (quarantine_name ts name)
      ≡ text name ∷ text (take 2 name) ∷ objects_dir
unfolding resurrection_path
resurrection_path-quarantine_name objects_dir ts [] h = absurd (omega arith)
resurrection_path-quarantine_name objects_dir ts (c ∷ name) h =
    rw (strip_quarantine_prefix-quarantine_name ts (c ∷ name) (λ e. ground arith)) (ground arith)

-- A slot that was linked again while it cooled goes back to the path that it was quarantined from,
-- `objects/<two characters>/<name>`, with its inode, and its entry is gone. On a Unix system whose
-- calls succeed, where no file is in the way; the clock and the cooldown fit in 64 bits.
pub expired_referenced :
    (gc : QuarantineGc) (ts : ℕ) (name : Bytes) (i : ℕ) (w : World)
    → w.os ≡ unix
    → w.now < u64_mod
    → gc.cooldown_secs * 1_000 < u64_mod
    → ts + gc.cooldown_secs * 1_000 ≤ w.now
    → 2 ≤ length name
    → find (text (quarantine_name ts name) ∷ gc.store.quarantine_dir) w.fs.table ≡ some i
    → 1 < names i w.fs.table
    → has_file (ancestors_in (text (take 2 name) ∷ gc.store.objects_dir)) w.fs.table ≡ false
    → has_dir (text name ∷ text (take 2 name) ∷ gc.store.objects_dir) w.fs.dirs ≡ false
    → find (text name ∷ text (take 2 name) ∷ gc.store.objects_dir) w.fs.table ≡ none
    → evaluate_quarantine_entry gc
        (text (quarantine_name ts name) ∷ gc.store.quarantine_dir)
        (calm w)
      ≡ (
        ok (resurrected (text name ∷ text (take 2 name) ∷ gc.store.objects_dir)),
        moved
            (text (quarantine_name ts name) ∷ gc.store.quarantine_dir)
            (text name ∷ text (take 2 name) ∷ gc.store.objects_dir)
            i
            w,
      )
expired_referenced gc ts name i w u hn hc h l f n hf hd ht =
    evaluate_quarantine_entry_eq gc gc.store.quarantine_dir ts name (calm w) hn (omega arith) hc
    ∙ judge_expired gc _ _ (w.now - ts) (gc.cooldown_secs * 1_000) i w (omega arith) f
    ∙ settle_referenced gc _ _ i (calm w) u n
    ∙ ap (λ t. resurrect (text (quarantine_name ts name) ∷ gc.store.quarantine_dir) t (calm w))
        (resurrection_path-quarantine_name gc.store.objects_dir ts name l)
    ∙ resurrect_found _ _ _ i w f hf hd ht

-- A slot that no workspace file is linked to goes into quarantine under its name and the time; one
-- with a second name stays where it is. On a Unix system whose calls succeed, with a quarantine
-- directory in which the new name is free.
pub evaluate_objects_slot_lem :
    (name : Bytes) (d q : FilePath) (i : ℕ) (w : World)
    → w.os ≡ unix
    → find (text name ∷ d) w.fs.table ≡ some i
    → has_dir q w.fs.dirs ≡ true
    → has_dir (text (quarantine_name w.now name) ∷ q) w.fs.dirs ≡ false
    → find (text (quarantine_name w.now name) ∷ q) w.fs.table ≡ none
    → evaluate_objects_slot (text name ∷ d) q (calm w) ≡ (
        if ltb 1 (names i w.fs.table) then (ok (skipped_active (names i w.fs.table)), calm w) else (
          ok (quarantined (text (quarantine_name w.now name) ∷ q)),
          record (calm w) {
            fs = record w.fs {
              table =
                  bind (text (quarantine_name w.now name) ∷ q) i (erase (text name ∷ d) w.fs.table);
            };
          },
        ))
unfolding evaluate_objects_slot ◌>>=◌ metadata attempt platform platform_link_count clock map_err
    rename syscall take_turn rename_op has_parent replace
evaluate_objects_slot_lem name d q i w u f hq hd hn = ground arith
