-- ===== src/Linkage/Faults.antt =====
-- What linking a duplicate leaves behind when a call of it fails.
use i_tan_reclaim_space.Base.{
  ℕ, ◌+◌, ◌<◌, ◌≡◌, refl, ap, ◌∙◌, true, false, List, [], ◌∷◌, ◌++◌, none, some, if◌then◌else◌,
  length, arith,
}
use i_tan_reclaim_space.Base.Results.{ok, err}
use i_tan_reclaim_space.Fs.Path.{FilePath}
use i_tan_reclaim_space.Fs.Table.{erase-bind, find-bind_same, find, bind}
use i_tan_reclaim_space.Fs.State.{IoError, has_dir, has_parent, link_op}
use i_tan_reclaim_space.Fs.World.{World, Turn, calm, platform, clock, ◌>>=◌, syscall, take_turn}
use i_tan_reclaim_space.Fs.Calls.{hard_link, rename}
use i_tan_reclaim_space.Fs.Runs.Files.{with_table, remove_file-calm}
use i_tan_reclaim_space.Fs.Runs.{branch, >>=-ok, attempt-eq}
use i_tan_reclaim_space.Linkage.{
  LinkError, io, queued, sibling_tmp_link, swap_in, defer_or_fail, transient,
}
use i_tan_reclaim_space.RetryJob.{RetryJob}
use i_tan_reclaim_space.RetryQueue.{Channel, IsChannel, new_job, backoff_for, queue_capacity}
use i_tan_reclaim_space.RetryQueue.Drain.{enqueue_lem}
use i_tan_reclaim_space.Store.{SlotRef}

-- A turn in which the surroundings do nothing, and one in which they make the call fail.
abbrev pub quiet : Turn
quiet = record { fault = none; written = none; other = λ fs. fs; elapsed = 0 }

abbrev pub failing : IoError → Turn
failing e = record { fault = some e; written = none; other = λ fs. fs; elapsed = 0 }

-- The world with the turns of the surroundings to come.
abbrev pub facing : List Turn → World → World
facing ts w = record w { turns = ts }

hard_link-quiet :
    (src dst : FilePath) (i : ℕ) (ts : List Turn) (w : World)
    → find src w.fs.table ≡ some i
    → find dst w.fs.table ≡ none
    → has_dir dst w.fs.dirs ≡ false
    → has_parent dst w.fs ≡ true
    → hard_link src dst (facing (quiet ∷ ts) w)
      ≡ (ok tt, facing ts (with_table (bind dst i w.fs.table) w))
unfolding hard_link syscall take_turn link_op
hard_link-quiet src dst i ts w hs hd hdir hp = ground arith

rename-failing :
    (src dst : FilePath) (e : IoError) (w : World)
    → rename src dst (facing (failing e ∷ []) w) ≡ (err e, calm w)
unfolding rename syscall take_turn
rename-failing src dst e w = ap (λ n. (err e, record w { now = n; turns = [] })) (omega arith)

-- The job that waits for a retry.
abbrev pub waiting_job : FilePath → FilePath → World → RetryJob
waiting_job target slot_path w = record {
  target = target;
  slot_path = slot_path;
  attempts = 0;
  retry_after = w.now + 100;
}

platform-calm : {E : Type 0} (w : World) → platform {E = E} (calm w) ≡ (ok w.os, calm w)
unfolding platform
platform-calm w = refl

new_job-calm :
    (target slot_path : FilePath) (w : World)
    → new_job {E = LinkError} target slot_path (calm w)
      ≡ (ok (waiting_job target slot_path w), calm w)
unfolding new_job ◌>>=◌ clock backoff_for
new_job-calm target slot_path w = refl

module _ (channel : Channel RetryJob) (law : IsChannel channel) where
  defer_or_fail-calm :
      (target slot_path failed_path : FilePath) (e : IoError) (w : World)
      → length w.queue < queue_capacity
      → defer_or_fail channel target slot_path failed_path e (calm w) ≡ (
          if transient w.os e
          then (
            ok queued,
            record (calm w) { queue = w.queue ++ (waiting_job target slot_path w ∷ []) },
          )
          else (err (io failed_path e), calm w))
  unfolding defer_or_fail
  defer_or_fail-calm target slot_path failed_path e w q =
      >>=-ok platform _ (calm w) w.os (calm w) (platform-calm w)
      ∙ branch (transient w.os e) _ _ (calm w) _
          (λ t.
            >>=-ok _ _ (calm w) _ (calm w) (new_job-calm target slot_path w)
            ∙ >>=-ok _ _ (calm w) _ queued_world (
                attempt-eq _ (calm w) (ok tt) queued_world
                  (enqueue_lem channel law (waiting_job target slot_path w) (calm w) q))
            ∙ rw t refl)
          (λ t. rw t refl)
    where
      queued_world : World
      queued_world = record (calm w) { queue = w.queue ++ (waiting_job target slot_path w ∷ []) }

  module _ (target : FilePath) (slot : SlotRef) (size i : ℕ) (w : World)
      (slot_there : find slot.path w.fs.table ≡ some i)
      (no_tmp : find (sibling_tmp_link target) w.fs.table ≡ none)
      (no_tmp_dir : has_dir (sibling_tmp_link target) w.fs.dirs ≡ false)
      (has_place : has_parent (sibling_tmp_link target) w.fs ≡ true) where
    abbrev tmp : FilePath
    tmp = sibling_tmp_link target

    -- If the rename that puts the link in the place of the target fails, the temporary link is removed, so that every
    -- name of the volume is as before; a transient error puts one job for the target at the end of the retry queue,
    -- and any other error is returned for the target. The slot is there, nothing has the name of the temporary link,
    -- which can be made, the queue is not full, and no other call fails.
    pub swap_in_rename_failed :
        (e : IoError)
        → length w.queue < queue_capacity
        → swap_in channel target slot size (facing (quiet ∷ failing e ∷ []) w) ≡ (
            if transient w.os e
            then (
              ok queued,
              record (calm w) { queue = w.queue ++ (waiting_job target slot.path w ∷ []) },
            )
            else (err (io target e), calm w))
    unfolding swap_in
    swap_in_rename_failed e q =
        >>=-ok _ _ (facing (quiet ∷ failing e ∷ []) w) _ (facing (failing e ∷ []) linked_beside) (
          attempt-eq _ (facing (quiet ∷ failing e ∷ []) w) _ (facing (failing e ∷ []) linked_beside)
            (hard_link-quiet slot.path tmp i (failing e ∷ []) w slot_there no_tmp no_tmp_dir
              has_place))
        ∙ >>=-ok _ _ (facing (failing e ∷ []) linked_beside) _ linked_beside (
            attempt-eq _ (facing (failing e ∷ []) linked_beside) _ linked_beside
              (rename-failing tmp target e linked_beside))
        ∙ >>=-ok _ _ linked_beside _ (calm w) (
            attempt-eq _ linked_beside (ok tt) (calm w) (
              remove_file-calm tmp i linked_beside (find-bind_same tmp i w.fs.table)
              ∙ ap (λ t. (ok tt, with_table t w)) (erase-bind tmp i w.fs.table no_tmp)))
        ∙ defer_or_fail-calm target slot.path target e w q
      where
        linked_beside : World
        linked_beside = with_table (bind tmp i w.fs.table) w
