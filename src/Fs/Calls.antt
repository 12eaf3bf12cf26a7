-- ===== src/Fs/Calls.antt =====
-- The part of `std::fs` and `std::path` that the program calls.
use i_tan_reclaim_space.Base.{
  ℕ, suc, drop, Bytes, Bool, true, false, List, [], ◌∷◌, Option, none, some, any, ◌==◌,
}
use i_tan_reclaim_space.Base.Results.{Result, ok, err}
use i_tan_reclaim_space.Fs.Path.{Name, text, opaque, FilePath}
use i_tan_reclaim_space.Fs.State.{
  IoError, os_error, Metadata, metadata_of, link_op, rename_op, remove_op, chmod_op, copy_op,
  partial_copy_op, mkdir_op, read_dir_of, read_of,
}
use i_tan_reclaim_space.Fs.World.{World, Turn, M, throw, syscall, query, take_turn}

unfoldable pub metadata : FilePath → M IoError Metadata
unfolding query metadata_of
metadata p = query (metadata_of p)

abbrev pub is_ok : Result IoError Metadata → Bool
is_ok (ok m) = true
is_ok (err e) = false

abbrev pub names_dir : Result IoError Metadata → Bool
names_dir (ok m) = m.is_dir
names_dir (err e) = false

-- `Path::exists`: an error counts as absence.
unfoldable pub exists : {E : Type 0} → FilePath → M E Bool
unfolding metadata
exists p w = let r = metadata p w in (ok (is_ok r.0), r.1)

-- `Path::is_dir`
unfoldable pub is_dir : {E : Type 0} → FilePath → M E Bool
unfolding metadata
is_dir p w = let r = metadata p w in (ok (names_dir r.0), r.1)

unfoldable pub hard_link : FilePath → FilePath → M IoError (Unit {0})
unfolding syscall link_op
hard_link src dst = syscall (λ now. link_op src dst)

unfoldable pub rename : FilePath → FilePath → M IoError (Unit {0})
unfolding syscall rename_op
rename src dst = syscall (λ now. rename_op src dst)

unfoldable pub remove_file : FilePath → M IoError (Unit {0})
unfolding syscall remove_op
remove_file p = syscall (λ now. remove_op p)

unfoldable pub set_permissions : FilePath → ℕ → M IoError (Unit {0})
unfolding syscall chmod_op
set_permissions p mode = syscall (λ now. chmod_op p mode)

-- How much a turn lets a call do that it makes fail.
abbrev pub written_first : List Turn → Option ℕ
written_first [] = none
written_first (t ∷ ts) = t.written

abbrev pub copied_or_cut :
    FilePath → FilePath → Option ℕ → Option IoError × World → Result IoError (Unit {0}) × World
copied_or_cut src dst part (none, w) =
    let r = copy_op src dst w.now w.fs in (r.0, record w { fs = r.1 })
copied_or_cut src dst none (some e, w) = (err e, w)
copied_or_cut src dst (some k) (some e, w) =
    (err e, record w { fs = partial_copy_op src dst k w.now w.fs })

-- A copy that fails leaves what it has written by then.
unfoldable pub copy : FilePath → FilePath → M IoError (Unit {0})
unfolding take_turn copy_op partial_copy_op
copy src dst w = copied_or_cut src dst (written_first w.turns) (take_turn w.turns w)

abbrev pub made_or_cut :
    FilePath → Option ℕ → Option IoError × World → Result IoError (Unit {0}) × World
made_or_cut p part (none, w) = let r = mkdir_op p w.fs in (r.0, record w { fs = r.1 })
made_or_cut p none (some e, w) = (err e, w)
made_or_cut p (some k) (some e, w) = (err e, record w { fs = (mkdir_op (drop (suc k) p) w.fs).1 })

-- When it fails, the outer directories may have been made.
unfoldable pub create_dir_all : FilePath → M IoError (Unit {0})
unfolding take_turn mkdir_op
create_dir_all p w = made_or_cut p (written_first w.turns) (take_turn w.turns w)

unfoldable pub read_dir : FilePath → M IoError (List Name)
unfolding query read_dir_of
read_dir d = query (read_dir_of d)

-- The next entry of an iteration over a directory.
unfoldable pub next_entry : Name → M IoError Name
unfolding query
next_entry n = query (λ fs. ok n)

-- Opening a file and reading all of it.
unfoldable pub read : FilePath → M IoError Bytes
unfolding query read_of
read p = query (read_of p)

abbrev pub bytes_of : Name → Bytes
bytes_of (text s) = s
bytes_of (opaque s) = s

abbrev pub has_zero_byte : FilePath → Bool
has_zero_byte path = any (λ n. any (0 ==◌) (bytes_of n)) path

-- `CString::new`: a path must not have a zero byte. The number is that of `InvalidInput` here.
unfoldable pub c_string : {A : Type 0} → FilePath → M IoError A → M IoError A
c_string path rest = elim (has_zero_byte path) [ true ↦ throw (os_error 22) | false ↦ rest ]
