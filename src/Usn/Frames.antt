-- ===== src/Usn/Frames.antt =====
-- Reading back a journal of well-formed records.
use mathlib.Core.Path.{ap₂, subst}
use i_tan_reclaim_space.Base.{
  ℕ, zero, suc, ◌+◌, ◌-◌, ◌≤◌, ◌<◌, ◌≡◌, refl, sym, ◌∙◌, ap, Bytes, true, false, List, [], ◌∷◌,
  ◌++◌, some, append_assoc, append-nil, leb, le→leb, lt→leb, ◌==◌, ne→==, length, take, drop, All,
  length-append, length-drop, drop_add, drop-append, take-append, drop-length, take-length, arith,
}
use i_tan_reclaim_space.Base.Results.{ok}
use i_tan_reclaim_space.Fs.Path.{FilePath}
use i_tan_reclaim_space.Fs.World.{World}
use i_tan_reclaim_space.Usn.{
  UsnReason, hard_link_change, data_overwrite, other, UsnEntry, Header, Layout, u16_chunks,
  entry_named, or_panic, reason_of, entry_at, entries_of, parse_records, parse_buffer,
  from_le_bytes,
}
use i_tan_reclaim_space.Usn.Total.{slice_lem}

-- A record of the journal: its bytes, and the fields of its header.
pub record Frame : Type 0 where
  pub bytes : Bytes
  pub fields : Header

-- The records back to back.
abbrev pub written : List Frame → Bytes
written [] = []
written (f ∷ fs) = f.bytes ++ written fs

module _ (layout : Layout) where
  -- The header of the record is read from its first bytes, and its length and its name are in range.
  pub record IsFrame (f : Frame) : Type 0 where
    pub read : (rest : Bytes) → layout.header (f.bytes ++ rest) ≡ f.fields
    pub size : f.fields.record_length ≡ length f.bytes
    pub whole_header : layout.header_size ≤ length f.bytes
    pub name : f.fields.file_name_offset + f.fields.file_name_length ≤ length f.bytes

  abbrev pub name_of : Frame → Bytes
  name_of f = take f.fields.file_name_length (drop f.fields.file_name_offset f.bytes)

  -- What a record stands for: an entry if its reason is acted on and its name is Unicode.
  abbrev pub entry_for : FilePath → Frame → UsnReason → List UsnEntry
  entry_for root f other = []
  entry_for root f hard_link_change =
      entry_named layout root hard_link_change f.fields.usn
        (layout.from_utf16 (u16_chunks (name_of f)))
  entry_for root f data_overwrite =
      entry_named layout root data_overwrite f.fields.usn
        (layout.from_utf16 (u16_chunks (name_of f)))

  abbrev pub entries_for : FilePath → List Frame → List UsnEntry
  entries_for root [] = []
  entries_for root (f ∷ fs) = entry_for root f (reason_of layout f.fields) ++ entries_for root fs

  module _ (root : FilePath) (before : Bytes) (f : Frame) (rest : Bytes) (valid : IsFrame f)
      (bytes : ℕ) (within : length before + length f.bytes ≤ bytes) where
    name_slice :
        take
          (length before
            + f.fields.file_name_offset
            + f.fields.file_name_length
            - (length before + f.fields.file_name_offset))
          (drop (length before + f.fields.file_name_offset) (before ++ (f.bytes ++ rest)))
        ≡ name_of f
    name_slice =
        ap₂ take difference (
          sym (drop_add (length before) o (before ++ (f.bytes ++ rest)))
          ∙ ap (drop o) (drop-length before (f.bytes ++ rest))
          ∙ drop-append o f.bytes rest (omega (arith, valid.name)))
        ∙ take-append n (drop o f.bytes) rest (omega (arith, valid.name, length-drop o f.bytes))
      where
        o : ℕ
        o = f.fields.file_name_offset

        n : ℕ
        n = f.fields.file_name_length

        difference : length before + o + n - (length before + o) ≡ n
        difference = omega arith

    entry_at-frame :
        (reason : UsnReason)
        → entry_at layout root (length before) (before ++ (f.bytes ++ rest)) reason f.fields
          ≡ some (
              entry_named layout root reason f.fields.usn
                (layout.from_utf16 (u16_chunks (name_of f))))
    unfolding entry_at
    entry_at-frame reason =
        rw
          (
            slice_lem (length before + f.fields.file_name_offset)
                (length before + f.fields.file_name_offset + f.fields.file_name_length)
                (before ++ (f.bytes ++ rest)) (omega arith)
                (omega (
                  arith,
                  valid.name,
                  length-append before (f.bytes ++ rest),
                  length-append f.bytes rest,
                )),
            entry_at,
          )
          (ap
            (λ s.
              some (entry_named layout root reason f.fields.usn (layout.from_utf16 (u16_chunks s))))
            name_slice)

    in_range :
        leb (length before + f.fields.file_name_offset + f.fields.file_name_length) bytes ≡ true
    in_range = le→leb _ _ (omega (arith, valid.name))

    entries_of-frame :
        (reason : UsnReason)
        → entries_of layout root bytes (length before) (before ++ (f.bytes ++ rest)) reason f.fields
          ≡ some (entry_for root f reason)
    unfolding entries_of
    entries_of-frame other = refl
    entries_of-frame hard_link_change = rw (in_range, entries_of) (entry_at-frame hard_link_change)
    entries_of-frame data_overwrite = rw (in_range, entries_of) (entry_at-frame data_overwrite)

  parse_records-step :
      (root : FilePath) (rounds bytes : ℕ) (buf : Bytes) (offset : ℕ) (entries : List UsnEntry)
      (h : Header) (more : List UsnEntry)
      → leb (offset + layout.header_size) bytes ≡ true
      → layout.header (drop offset buf) ≡ h
      → (h.record_length == 0) ≡ false
      → entries_of layout root bytes offset buf (reason_of layout h) h ≡ some more
      → parse_records layout (suc rounds) root bytes buf offset entries
        ≡ parse_records layout rounds root bytes buf (offset + h.record_length) (entries ++ more)
  unfolding parse_records
  parse_records-step root rounds bytes buf offset entries h more e f z k =
      subst
        (λ x.
          (x.record_length == 0) ≡ false
          → entries_of layout root bytes offset buf (reason_of layout x) x ≡ some more
          → parse_records layout (suc rounds) root bytes buf offset entries
            ≡ parse_records layout rounds root bytes buf (offset + x.record_length)
                (entries ++ more))
        f (λ z' k'. ground arith) z k

  module _ (root : FilePath) (header_not_empty : 0 < layout.header_size) (pad : Bytes) where
    -- The loop from a record on, behind what has been read.
    parse_records-written :
        (fs : List Frame) (rounds bytes : ℕ) (before : Bytes) (entries : List UsnEntry)
        → All IsFrame fs
        → bytes ≡ length before + length (written fs)
        → suc bytes - length before < rounds
        → parse_records layout rounds root bytes
            (before ++ (written fs ++ pad))
            (length before)
            entries
          ≡ some (entries ++ entries_for root fs)
    unfolding parse_records
    parse_records-written fs zero bytes before entries v e m = absurd (omega arith)
    parse_records-written [] (suc rounds) bytes before entries v e m =
        rw
          (
            lt→leb (length before + layout.header_size) bytes (omega (arith, e, header_not_empty)),
            append-nil,
            parse_records,
          )
          refl
    parse_records-written (f ∷ fs) (suc rounds) bytes before entries (v, vs) e m =
        ap (λ b. parse_records layout (suc rounds) root bytes (before ++ b) (length before) entries)
          (append_assoc f.bytes (written fs) pad)
        ∙ parse_records-step root rounds bytes (before ++ (f.bytes ++ (written fs ++ pad)))
            (length before) entries f.fields (entry_for root f (reason_of layout f.fields))
            (le→leb _ _ (omega (arith, e, v.whole_header, length-append f.bytes (written fs))))
            (ap layout.header (drop-length before (f.bytes ++ (written fs ++ pad)))
              ∙ v.read (written fs ++ pad))
            (ne→== _ 0 (omega (arith, v.size, v.whole_header, header_not_empty)))
            (entries_of-frame root before f (written fs ++ pad) v bytes
              (omega (arith, e, length-append f.bytes (written fs))) (reason_of layout f.fields))
        ∙ ap₂
            (λ b k.
              parse_records layout rounds root bytes b k
                (entries ++ entry_for root f (reason_of layout f.fields)))
            (sym (append_assoc before f.bytes (written fs ++ pad)))
            (omega (arith, v.size, length-append before f.bytes))
        ∙ parse_records-written fs rounds bytes (before ++ f.bytes)
            (entries ++ entry_for root f (reason_of layout f.fields)) vs
            (omega (arith, e, length-append before f.bytes, length-append f.bytes (written fs)))
            (omega (
              arith,
              e,
              v.whole_header,
              header_not_empty,
              length-append before f.bytes,
              length-append f.bytes (written fs),
            ))
        ∙ ap some (
            append_assoc entries (entry_for root f (reason_of layout f.fields))
              (entries_for root fs))

    -- A journal of well-formed records is read back as exactly the entries of those whose reason is acted on and
    -- whose name is Unicode, in their order and with their numbers and names, whatever the buffer holds behind
    -- them; the cursor is the one in front of them. The header of a record has a size.
    pub parse_buffer-written :
        (cursor : Bytes) (fs : List Frame) (w : World)
        → length cursor ≡ 8
        → All IsFrame fs
        → parse_buffer layout root (8 + length (written fs)) (cursor ++ (written fs ++ pad)) w
          ≡ (ok (entries_for root fs, from_le_bytes cursor), w)
    unfolding parse_buffer
    parse_buffer-written cursor fs w l v =
        ap₂ (λ c p. or_panic layout (from_le_bytes c) p w)
          (subst (λ n. take n (cursor ++ (written fs ++ pad)) ≡ cursor) l
            (take-length cursor (written fs ++ pad)))
          (subst
            (λ n.
              parse_records layout (suc total) root total (cursor ++ (written fs ++ pad)) n []
              ≡ some (entries_for root fs))
            l
            (parse_records-written fs (suc total) total cursor [] v (omega (arith, l))
              (omega (arith, l))))
      where
        total : ℕ
        total = 8 + length (written fs)
