-- ===== src/Fs/Runs/Dirs.antt =====
-- How directories are made in a world whose calls succeed and whose other processes do not interfere.
use i_tan_reclaim_space.Base.{
  ℕ, ◌≡◌, ◌≢◌, ◌<◌, true, false, List, [], ◌∷◌, length, arith, refl, All,
}
use i_tan_reclaim_space.Base.Results.{ok}
use i_tan_reclaim_space.Fs.Path.{Name, FilePath}
use i_tan_reclaim_space.Fs.Table.{Table, bind, find-bind}
use i_tan_reclaim_space.Fs.State.{has_dir, has_file, make_dirs, ancestors_in, mkdir_op}
use i_tan_reclaim_space.Fs.World.{World, calm, syscall, take_turn}
use i_tan_reclaim_space.Fs.Calls.{create_dir_all}

abbrev pub with_dirs : List FilePath → World → World
with_dirs ds w = record (calm w) { fs = record w.fs { dirs = ds } }

pub create_dir_all-calm :
    (p : FilePath) (w : World)
    → has_file (ancestors_in p) w.fs.table ≡ false
    → create_dir_all p (calm w) ≡ (ok tt, with_dirs (make_dirs (ancestors_in p) w.fs.dirs) w)
unfolding create_dir_all syscall take_turn mkdir_op
create_dir_all-calm p w h = ground arith

-- The directory itself is there then, and nothing that is at least as deep.
pub has_dir_made :
    (p : FilePath) (ds : List FilePath) → has_dir p (make_dirs (ancestors_in p) ds) ≡ true
unfolding has_dir make_dirs
has_dir_made [] ds = ground arith
has_dir_made (n ∷ p) ds = ground arith

pub has_dir_deeper :
    (p q : FilePath) (ds : List FilePath)
    → length p < length q
    → has_dir q (make_dirs (ancestors_in p) ds) ≡ has_dir q ds
unfolding has_dir make_dirs
has_dir_deeper [] q ds l = ground arith
has_dir_deeper (n ∷ p) q ds l = ground (arith, has_dir_deeper p q ds (omega (arith, l)))

has_file_deeper :
    (p q : FilePath) (i : ℕ) (t : Table)
    → length p < length q
    → has_file (ancestors_in p) (bind q i t) ≡ has_file (ancestors_in p) t
unfolding has_file
has_file_deeper [] q i t l = ground (arith, find-bind q [] i t)
has_file_deeper (n ∷ p) q i t l =
    ground (arith, find-bind q (n ∷ p) i t, has_file_deeper p q i t (omega (arith, l)))

-- A new file is above no other path of its depth.
pub has_file_beside :
    (n : Name) (p q : FilePath) (i : ℕ) (t : Table)
    → length p < length q
    → n ∷ p ≢ q
    → has_file (ancestors_in (n ∷ p)) (bind q i t) ≡ has_file (ancestors_in (n ∷ p)) t
unfolding has_file
has_file_beside n p q i t l ne = ground (arith, find-bind q (n ∷ p) i t, has_file_deeper p q i t l)

pub has_dir_beside :
    (n : Name) (p q : FilePath) (ds : List FilePath)
    → length p < length q
    → q ≢ n ∷ p
    → has_dir q (make_dirs (ancestors_in (n ∷ p)) ds) ≡ has_dir q ds
unfolding has_dir make_dirs
has_dir_beside n p q ds l ne = ground (arith, has_dir_deeper p q ds l)

pub has_dir_kept :
    (q : FilePath) (ps ds : List FilePath)
    → has_dir q ds ≡ true
    → has_dir q (make_dirs ps ds) ≡ true
unfolding has_dir make_dirs
has_dir_kept q [] ds h = h
has_dir_kept q (p ∷ ps) ds h = ground (arith, has_dir_kept q ps ds h)

-- Directories that are there already are not made.
pub make_dirs_there :
    (ps ds : List FilePath) → All (λ p. has_dir p ds ≡ true) ps → make_dirs ps ds ≡ ds
unfolding make_dirs
make_dirs_there [] ds a = refl
make_dirs_there (p ∷ ps) ds a = rw (make_dirs_there ps ds a.1, a.0) refl

-- Below directories that are there, only the last one is made.
pub has_dir_other :
    (n : Name) (p q : FilePath) (ds : List FilePath)
    → All (λ a. has_dir a ds ≡ true) (ancestors_in p)
    → q ≢ n ∷ p
    → has_dir q (make_dirs (ancestors_in (n ∷ p)) ds) ≡ has_dir q ds
unfolding make_dirs has_dir
has_dir_other n p q ds a ne = ground (arith, make_dirs_there (ancestors_in p) ds a)
