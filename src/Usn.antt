-- ===== src/Usn.antt =====
-- crates/itan-core/src/usn.rs: the scanner of the change journal of NTFS. The calls of Win32, the layout of its
-- records and the conversions of the standard library are parameters.
pub mod Frames
pub mod Total
use Prim.Native.Nat.{bit_and}
use i_tan_reclaim_space.Base.{
  ℕ, zero, suc, ◌+◌, ◌-◌, ◌*◌, Bytes, Bool, true, false, List, [], ◌∷◌, ◌++◌, Option, none, some,
  leb, ◌==◌, ◌&&◌, if◌then◌else◌, length, take, drop,
}
use i_tan_reclaim_space.Base.Results.{Result, ok, err}
use i_tan_reclaim_space.Fs.Path.{FilePath, text}
use i_tan_reclaim_space.Fs.State.{IoError}
use i_tan_reclaim_space.Fs.World.{M, pure, throw, ◌>>=◌, map_err, attempt}

-- `panic` is that of a slice out of range; the code has no place that makes a `journal_wrapped`.
pub data UsnError : Type 0 where
  open_volume : FilePath → IoError → UsnError
  read_journal : IoError → UsnError
  journal_wrapped : ℕ → ℕ → UsnError
  panic : UsnError

pub data UsnReason : Type 0 where
  hard_link_change data_overwrite other : UsnReason

pub record UsnEntry : Type 0 where
  pub path : FilePath
  pub reason : UsnReason
  pub usn : ℕ

pub record UsnDeltaScanner : Type 0 where
  pub volume_root : FilePath
  pub last_usn : ℕ

-- The fields of a `USN_RECORD_V2` that the scanner reads.
pub record Header : Type 0 where
  pub record_length : ℕ
  pub reason : ℕ
  pub file_name_offset : ℕ
  pub file_name_length : ℕ
  pub usn : ℕ

-- What windows-sys and the standard library give: the size of a record's header and its fields, the masks of
-- the reasons, and the text of UTF-16.
pub record Layout : Type 0 where
  pub header_size : ℕ
  pub header : Bytes → Header
  pub hard_link_mask : ℕ
  pub overwrite_mask : ℕ
  pub from_utf16 : List ℕ → Option Bytes

-- `str::trim_end_matches` of a character.
abbrev dropped_at_end : ℕ → ℕ → Bytes → Bytes
dropped_at_end c d [] = if d == c then [] else d ∷ []
dropped_at_end c d (e ∷ s) = d ∷ e ∷ s

unfoldable pub trim_end_matches : ℕ → Bytes → Bytes
trim_end_matches c [] = []
trim_end_matches c (d ∷ s) = dropped_at_end c d (trim_end_matches c s)

abbrev str_or_c : Option Bytes → Bytes
str_or_c none = b'C' ∷ b':' ∷ b'\\' ∷ []
str_or_c (some s) = s

-- The name that the volume is opened by, from the text of its root.
unfoldable pub unc_volume : Option Bytes → Bytes
unfolding trim_end_matches
unc_volume root =
    let vol_str = trim_end_matches b'\\' (str_or_c root) in
    b'\\' ∷ b'\\' ∷ b'.' ∷ b'\\' ∷ trim_end_matches b':' vol_str

-- `u64::from_le_bytes` and `u16::from_le_bytes`
abbrev pub from_le_bytes : Bytes → ℕ
from_le_bytes [] = 0
from_le_bytes (b ∷ s) = b + 256 * from_le_bytes s

-- `chunks_exact(2)`, each as a `u16`.
unfoldable pub u16_chunks : Bytes → List ℕ
u16_chunks [] = []
u16_chunks (b ∷ []) = []
u16_chunks (b ∷ c ∷ s) = from_le_bytes (b ∷ c ∷ []) ∷ u16_chunks s

-- `&buf[from..to]`; nothing stands for the panic.
unfoldable pub slice : ℕ → ℕ → Bytes → Option Bytes
slice from to buf =
    if leb from to && leb to (length buf) then some (take (to - from) (drop from buf)) else none

module _ (layout : Layout) where
  unfoldable pub reason_of : Header → UsnReason
  reason_of record_header =
      if bit_and record_header.reason layout.hard_link_mask == 0
      then (if bit_and record_header.reason layout.overwrite_mask == 0
          then other
          else data_overwrite)
      else hard_link_change

  abbrev pub entry_named : FilePath → UsnReason → ℕ → Option Bytes → List UsnEntry
  entry_named volume_root reason usn none = []
  entry_named volume_root reason usn (some name) =
      record { path = text name ∷ volume_root; reason = reason; usn = usn } ∷ []

  -- What a record in range that is acted on adds to the entries. A name is one component here.
  unfoldable pub entry_at : FilePath → ℕ → Bytes → UsnReason → Header → Option (List UsnEntry)
  unfolding slice u16_chunks
  entry_at volume_root offset buf reason record_header =
      let from = offset + record_header.file_name_offset in
      elim (slice from (from + record_header.file_name_length) buf) [
        | none ↦ none
        | some name_bytes ↦ some (
            entry_named volume_root reason record_header.usn
              (layout.from_utf16 (u16_chunks name_bytes)))
      ]

  -- What a record adds to the entries; nothing stands for a panic.
  unfoldable pub entries_of : FilePath → ℕ → ℕ → Bytes → UsnReason → Header → Option (List UsnEntry)
  unfolding entry_at
  entries_of volume_root bytes offset buf other record_header = some []
  entries_of volume_root bytes offset buf hard_link_change record_header =
      if leb (offset + record_header.file_name_offset + record_header.file_name_length) bytes
      then entry_at volume_root offset buf hard_link_change record_header
      else some []
  entries_of volume_root bytes offset buf data_overwrite record_header =
      if leb (offset + record_header.file_name_offset + record_header.file_name_length) bytes
      then entry_at volume_root offset buf data_overwrite record_header
      else some []

  -- The loop over the records, for so many rounds. Nothing stands for a panic, and for a loop cut short.
  unfoldable pub parse_records :
      ℕ → FilePath → ℕ → Bytes → ℕ → List UsnEntry → Option (List UsnEntry)
  unfolding reason_of entries_of
  parse_records zero volume_root bytes buf offset entries = none
  parse_records (suc rounds) volume_root bytes buf offset entries =
      let record_header = layout.header (drop offset buf) in
      elim (leb (offset + layout.header_size) bytes) [
        | false ↦ some entries
        | true ↦ elim (record_header.record_length == 0) [
          | true ↦ some entries
          | false ↦
              elim (entries_of volume_root bytes offset buf (reason_of record_header)
                record_header) [
                  | none ↦ none
                  | some more ↦
                      parse_records rounds volume_root bytes buf
                        (offset + record_header.record_length) (entries ++ more)
                ]
        ]
      ]

  abbrev pub or_panic : ℕ → Option (List UsnEntry) → M UsnError (List UsnEntry × ℕ)
  or_panic next_usn none = throw panic
  or_panic next_usn (some entries) = pure (entries, next_usn)

  -- Each record takes at least one byte, so there is a round for each.
  unfoldable pub parse_buffer : FilePath → ℕ → Bytes → M UsnError (List UsnEntry × ℕ)
  unfolding parse_records
  parse_buffer volume_root bytes buf =
      or_panic (from_le_bytes (take 8 buf)) (parse_records (suc bytes) volume_root bytes buf 8 [])

  -- The calls of Win32: opening a volume, the words that `FSCTL_QUERY_USN_JOURNAL` fills, and the buffer and the
  -- count of bytes of `FSCTL_READ_USN_JOURNAL` from a cursor.
  module _ (to_str : FilePath → Option Bytes) (create_file : Bytes → M IoError ℕ)
      (query_ioctl : ℕ → M IoError (List ℕ)) (read_ioctl : ℕ → ℕ → M IoError (Bytes × ℕ))
      (close_handle : ℕ → M UsnError (Unit {0})) where
    unfoldable pub open_volume_handle : FilePath → M UsnError ℕ
    unfolding unc_volume
    open_volume_handle volume_root =
        map_err (open_volume volume_root) (create_file (unc_volume (to_str volume_root)))

    unfoldable pub read_usn_journal : ℕ → ℕ → FilePath → M UsnError (List UsnEntry × ℕ)
    unfolding parse_buffer
    read_usn_journal handle start_usn volume_root = do
      out ← map_err read_journal (read_ioctl handle start_usn)
      parse_buffer volume_root out.1 out.0

    -- `buf[2]`; the system's buffer has 16 words.
    abbrev third : List ℕ → ℕ
    third (a ∷ b ∷ c ∷ s) = c
    third _ = 0

    unfoldable pub query_journal_next_usn : ℕ → M UsnError ℕ
    query_journal_next_usn handle = do
      buf ← map_err read_journal (query_ioctl handle)
      pure (third buf)

    -- `UsnDeltaScanner::open`
    unfoldable pub open_scanner : FilePath → M UsnError UsnDeltaScanner
    unfolding open_volume_handle query_journal_next_usn
    open_scanner volume_root = do
      handle ← open_volume_handle volume_root
      next_usn ← query_journal_next_usn handle
      _ ← close_handle handle
      pure (record { volume_root = volume_root; last_usn = next_usn })

    abbrev advanced :
        UsnDeltaScanner
        → Result UsnError (List UsnEntry × ℕ)
        → Result UsnError (List UsnEntry) × UsnDeltaScanner
    advanced scanner (ok r) = (ok r.0, record scanner { last_usn = r.1 })
    advanced scanner (err e) = (err e, scanner)

    -- The result and the scanner that is left.
    unfoldable pub scan_delta :
        UsnDeltaScanner → M UsnError (Result UsnError (List UsnEntry) × UsnDeltaScanner)
    unfolding open_volume_handle read_usn_journal
    scan_delta scanner = do
      opened ← attempt (open_volume_handle scanner.volume_root)
      elim opened [
        | err e ↦ pure (err e, scanner)
        | ok handle ↦ do
          result ← attempt (read_usn_journal handle scanner.last_usn scanner.volume_root)
          _ ← close_handle handle
          pure (advanced scanner result)
      ]
