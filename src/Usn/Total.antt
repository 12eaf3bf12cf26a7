-- ===== src/Usn/Total.antt =====
-- Reading a journal always ends, and never reads out of range.
use i_tan_reclaim_space.Base.{
  ℕ, zero, suc, ◌+◌, ◌-◌, ◌≤◌, ◌<◌, ◌≡◌, refl, Bytes, Bool, true, false, List, [], ◌++◌, some, leb,
  if◌then◌else◌, leb→le, le→leb, ◌==◌, ==→ne, length, take, drop, arith, Bool-cases, inl, inr,
}
use i_tan_reclaim_space.Base.Results.{ok}
use i_tan_reclaim_space.Fs.Path.{FilePath}
use i_tan_reclaim_space.Fs.World.{World}
use i_tan_reclaim_space.Usn.{
  UsnReason, hard_link_change, data_overwrite, other, UsnEntry, Header, Layout, slice, u16_chunks,
  entry_named, reason_of, entry_at, entries_of, parse_records, parse_buffer, from_le_bytes,
}

pub slice_lem :
    (from to : ℕ) (buf : Bytes)
    → from ≤ to
    → to ≤ length buf
    → slice from to buf ≡ some (take (to - from) (drop from buf))
unfolding slice
slice_lem from to buf h k = rw (le→leb from to h, le→leb to (length buf) k) refl

module _ (layout : Layout) (root : FilePath) (bytes : ℕ) (buf : Bytes)
    (fits : bytes ≤ length buf) where
  entry_at-total :
      (offset : ℕ) (reason : UsnReason) (h : Header)
      → offset + h.file_name_offset + h.file_name_length ≤ bytes
      → (more : List UsnEntry) × (entry_at layout root offset buf reason h ≡ some more)
  unfolding entry_at
  entry_at-total offset reason h k =
      let from = offset + h.file_name_offset in
      let name = take (from + h.file_name_length - from) (drop from buf) in
      (
        entry_named layout root reason h.usn (layout.from_utf16 (u16_chunks name)),
        rw (slice_lem from (from + h.file_name_length) buf (omega arith) (omega arith), entry_at)
            refl,
      )

  acted_on-total :
      (offset : ℕ) (reason : UsnReason) (h : Header) (b : Bool)
      → leb (offset + h.file_name_offset + h.file_name_length) bytes ≡ b
      → (more : List UsnEntry) × ((if b then entry_at layout root offset buf reason h else some [])
          ≡ some more)
  acted_on-total offset reason h true e = entry_at-total offset reason h (leb→le _ _ e)
  acted_on-total offset reason h false e = ([], refl)

  entries_of-total :
      (offset : ℕ) (reason : UsnReason) (h : Header)
      → (more : List UsnEntry) × (entries_of layout root bytes offset buf reason h ≡ some more)
  unfolding entries_of
  entries_of-total offset other h = ([], refl)
  entries_of-total offset hard_link_change h = acted_on-total offset hard_link_change h _ refl
  entries_of-total offset data_overwrite h = acted_on-total offset data_overwrite h _ refl

  parse_records-total :
      (rounds offset : ℕ) (entries : List UsnEntry)
      → suc bytes - offset < rounds
      → (all : List UsnEntry) × (parse_records layout rounds root bytes buf offset entries
          ≡ some all)
  unfolding parse_records
  parse_records-total zero offset entries m = absurd (omega arith)
  parse_records-total (suc rounds) offset entries m =
      elim (Bool-cases (leb (offset + layout.header_size) bytes)) [
        | inl e ↦ elim (Bool-cases ((layout.header (drop offset buf)).record_length == 0)) [
          | inl z ↦ (entries, ground arith)
          | inr z ↦
              let (more, f) =
                entries_of-total offset (reason_of layout (layout.header (drop offset buf)))
                  (layout.header (drop offset buf)) in
              let (all, g) =
                parse_records-total rounds
                  (offset + (layout.header (drop offset buf)).record_length) (entries ++ more)
                  (omega (arith, leb→le _ _ e, ==→ne _ _ z)) in
              (all, ground (arith, e, z, f, g))
        ]
        | inr e ↦ (entries, ground arith)
      ]

  -- However malformed the records are, reading a buffer of the journal returns entries, with the cursor that the
  -- buffer starts with: the loop over the records ends and no slice is out of range. The system has filled no more
  -- bytes than the buffer has.
  pub parse_buffer-total :
      (w : World)
      → (entries : List UsnEntry) × (parse_buffer layout root bytes buf w
          ≡ (ok (entries, from_le_bytes (take 8 buf)), w))
  unfolding parse_buffer
  parse_buffer-total w =
      let (all, e) = parse_records-total (suc bytes) 8 [] (omega arith) in
      (all, rw (e, parse_buffer) refl)
