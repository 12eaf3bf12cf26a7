-- ===== src/Fs/Runs/Handles.antt =====
-- How the calls on open files run in a world whose calls succeed and whose other processes do not interfere.
use i_tan_reclaim_space.Base.{
  ℕ, ◌-◌, ◌<◌, ◌≡◌, refl, Bytes, true, false, ◌++◌, none, some, length, take, drop, replicate,
  arith,
}
use i_tan_reclaim_space.Base.Results.{ok}
use i_tan_reclaim_space.Fs.Path.{FilePath}
use i_tan_reclaim_space.Fs.Table.{find}
use i_tan_reclaim_space.Fs.State.{has_dir, has_parent}
use i_tan_reclaim_space.Fs.World.{World, calm, query, syscall, take_turn}
use i_tan_reclaim_space.Fs.Handles.{
  with_content, with_new, create_op, file_open, file_create, write_all, flush, set_len,
}

-- The world with a new empty file, and with a file's content replaced.
abbrev pub created : FilePath → World → World
created p w = record (calm w) { fs = with_new p w.now w.fs }

abbrev pub rewritten : ℕ → Bytes → World → World
rewritten i content w = record (calm w) { fs = with_content i content w.now w.fs }

-- Files with a lower number are as they were.
pub created_elsewhere :
    (p : FilePath) (j : ℕ) (w : World) → j < w.fs.next_ino → (created p w).fs.inode j ≡ w.fs.inode j
created_elsewhere p j w l = ground (arith, l)

pub rewritten_elsewhere :
    (i j : ℕ) (content : Bytes) (w : World)
    → j < i
    → (rewritten i content w).fs.inode j ≡ w.fs.inode j
rewritten_elsewhere i j content w l = ground (arith, l)

pub file_create_fresh :
    (p : FilePath) (w : World)
    → find p w.fs.table ≡ none
    → has_dir p w.fs.dirs ≡ false
    → has_parent p w.fs ≡ true
    → file_create p (calm w) ≡ (ok w.fs.next_ino, created p w)
unfolding file_create syscall take_turn create_op
file_create_fresh p w f d h = ground arith

pub file_open-calm :
    (p : FilePath) (i : ℕ) (w : World)
    → find p w.fs.table ≡ some i
    → file_open p (calm w) ≡ (ok i, calm w)
unfolding file_open query syscall take_turn
file_open-calm p i w f = ground arith

pub write_all-calm :
    (i : ℕ) (bytes : Bytes) (w : World)
    → write_all i bytes (calm w)
      ≡ (ok tt, rewritten i (bytes ++ drop (length bytes) (w.fs.inode i).content) w)
unfolding write_all syscall take_turn
write_all-calm i bytes w = refl

pub flush-calm : (i : ℕ) (w : World) → flush i (calm w) ≡ (ok tt, calm w)
unfolding flush query syscall take_turn
flush-calm i w = refl

pub set_len-calm :
    (i size : ℕ) (w : World)
    → set_len i size (calm w) ≡ (
      ok tt,
      rewritten i
          (take size (w.fs.inode i).content ++ replicate (size - length (w.fs.inode i).content) 0)
          w,
    )
unfolding set_len syscall take_turn
set_len-calm i size w = refl
