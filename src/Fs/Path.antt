-- ===== src/Fs/Path.antt =====
-- Paths, as `std::path` sees them: file names joined by separators. The list has the innermost
-- component first, so that `join` is `∷` and `parent` is the tail.
use i_tan_reclaim_space.Base.{ℕ_discrete, Bytes, List, [], ◌∷◌, Option, none, some}

-- An `OsStr`: valid Unicode, given by its UTF-8 bytes, or any other sequence of bytes.
pub data Name : Type 0 where
  text : Bytes → Name
  opaque : Bytes → Name

abbrev pub FilePath : Type 0
FilePath = List Name

pub Name-discrete : Discrete Name
Name-discrete = hlevel ℕ_discrete

unfoldable pub path_dec : Discrete FilePath
path_dec = hlevel ℕ_discrete

-- `OsStr::to_str`
abbrev pub to_str : Name → Option Bytes
to_str (text s) = some s
to_str (opaque s) = none

-- `Path::file_name`. Components are never `..` or `.` here.
abbrev pub file_name : FilePath → Option Name
file_name [] = none
file_name (n ∷ p) = some n

abbrev pub parent : FilePath → Option FilePath
parent [] = none
parent (n ∷ p) = some p
