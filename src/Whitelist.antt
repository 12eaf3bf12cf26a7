-- ===== src/Whitelist.antt =====
-- crates/itan-core/src/whitelist.rs: which files may become hard links.
pub mod Laws
use i_tan_reclaim_space.Base.{
  Bytes, Bool, true, false, ◌&&◌, List, [], ◌∷◌, Option, none, some, ◌==◌, if◌then◌else◌, any,
  codes,
}
use i_tan_reclaim_space.Fs.Path.{Name, text, opaque, FilePath}
use i_tan_reclaim_space.Text.{to_ascii_lowercase, str_eq}

pub data FileClass : Type 0 where
  whitelisted prohibited unknown : FileClass

-- What follows the last `.`.
unfoldable pub after_last_dot : Bytes → Option Bytes
after_last_dot [] = none
after_last_dot (c ∷ s) = elim (after_last_dot s) [
  | some e ↦ some e
  | none ↦ if c == b'.' then some s else none
]

abbrev pub bytes_of : Name → Bytes
bytes_of (text s) = s
bytes_of (opaque s) = s

abbrev extension_of : Bytes → Option Bytes
extension_of [] = none
extension_of (c ∷ s) = after_last_dot s

-- `Path::extension`: a `.` at the front does not count. An extension that is not Unicode stays here
-- as its bytes; it is none of those below.
unfoldable pub extension : FilePath → Option Bytes
unfolding after_last_dot
extension [] = none
extension (n ∷ p) = extension_of (bytes_of n)

abbrev pub whitelisted_extensions : List Bytes
whitelisted_extensions =
    codes "a"
    ∷ codes "lib"
    ∷ codes "so"
    ∷ codes "dll"
    ∷ codes "dylib"
    ∷ codes "png"
    ∷ codes "jpg"
    ∷ codes "jpeg"
    ∷ codes "gif"
    ∷ codes "bmp"
    ∷ codes "webp"
    ∷ codes "ico"
    ∷ codes "mp3"
    ∷ codes "ogg"
    ∷ codes "wav"
    ∷ codes "flac"
    ∷ codes "aac"
    ∷ codes "bin"
    ∷ codes "dat"
    ∷ codes "npz"
    ∷ codes "gguf"
    ∷ codes "onnx"
    ∷ codes "pt"
    ∷ codes "pth"
    ∷ []

abbrev pub prohibited_extensions : List Bytes
prohibited_extensions = codes "d" ∷ codes "obj" ∷ codes "o" ∷ codes "pdb" ∷ codes "tsbuildinfo" ∷ []

unfoldable pub is_one_of : Bytes → List Bytes → Bool
unfolding str_eq
is_one_of s ss = any (str_eq s) ss

abbrev pub named : Bytes → Name → Bool
named s (text n) = str_eq n s
named s (opaque n) = false

-- `f.eq_ignore_ascii_case("compile_commands.json")`
abbrev pub is_compile_commands : FilePath → Bool
is_compile_commands [] = false
is_compile_commands (text n ∷ p) = str_eq (to_ascii_lowercase n) (codes "compile_commands.json")
is_compile_commands (opaque n ∷ p) = false

unfoldable pub is_inside_node_modules : FilePath → Bool
unfolding str_eq
is_inside_node_modules [] = false
is_inside_node_modules (n ∷ p) = any (named (codes "node_modules")) p

-- The class of a lower-case extension.
abbrev pub classify_extension : FilePath → Bytes → FileClass
classify_extension path ext =
    if is_one_of ext whitelisted_extensions
    then whitelisted
    else if is_one_of ext prohibited_extensions
    then prohibited
    else if str_eq ext (codes "json") && is_compile_commands path
    then prohibited
    else unknown

unfoldable pub classify_path : FilePath → FileClass
unfolding extension is_inside_node_modules is_one_of
classify_path path = if is_inside_node_modules path then whitelisted else elim (extension path) [
  | none ↦ unknown
  | some e ↦ classify_extension path (to_ascii_lowercase e)
]
