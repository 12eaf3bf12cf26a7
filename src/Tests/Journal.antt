-- ===== src/Tests/Journal.antt =====
-- Reading a journal of three records.
use i_tan_reclaim_space.Base.{ℕ, ◌≡◌, refl, Bytes, List, [], ◌∷◌, ◌++◌, some, take, arith}
use i_tan_reclaim_space.Base.Results.{ok}
use i_tan_reclaim_space.Usn.{UsnEntry, Header, Layout, parse_buffer, from_le_bytes}
use i_tan_reclaim_space.Usn.Total.{parse_buffer-total}
use i_tan_reclaim_space.Usn.Frames.{Frame, IsFrame, written, entries_for, parse_buffer-written}
use i_tan_reclaim_space.Tests.Values.{root, volume, world}

header_of : Bytes → Header
header_of (a ∷ b ∷ c ∷ d ∷ e ∷ s) = record {
  record_length = a;
  reason = b;
  file_name_offset = c;
  file_name_length = d;
  usn = e;
}
header_of _ = record {
  record_length = 0;
  reason = 0;
  file_name_offset = 0;
  file_name_length = 0;
  usn = 0;
}

-- A layout with five bytes for a header.
abbrev layout : Layout
layout = record {
  header_size = 5;
  header = header_of;
  hard_link_mask = 1;
  overwrite_mask = 2;
  from_utf16 = λ us. some us;
}

-- A record with a name of one unit.
abbrev frame : ℕ → ℕ → Frame
frame reason usn = record {
  bytes = 7 ∷ reason ∷ 5 ∷ 2 ∷ usn ∷ b'a' ∷ 0 ∷ [];
  fields = record {
    record_length = 7;
    reason = reason;
    file_name_offset = 5;
    file_name_length = 2;
    usn = usn;
  };
}

frame-IsFrame : (reason usn : ℕ) → IsFrame layout (frame reason usn)
unfolding header_of
frame-IsFrame reason usn = record {
  read = λ rest. refl;
  size = refl;
  whole_header = omega arith;
  name = omega arith;
}

abbrev frames : List Frame
frames = frame 1 20 ∷ frame 4 21 ∷ frame 2 22 ∷ []

abbrev cursor : Bytes
cursor = 23 ∷ 0 ∷ 0 ∷ 0 ∷ 0 ∷ 0 ∷ 0 ∷ 0 ∷ []

abbrev buffer : Bytes
buffer = cursor ++ (written frames ++ (9 ∷ []))

parse_buffer-written_example :
    parse_buffer layout root 29 buffer (world 5 (volume [] [] []) [])
    ≡ (ok (entries_for layout root frames, 23), world 5 (volume [] [] []) [])
parse_buffer-written_example =
    parse_buffer-written layout root (omega arith) (9 ∷ []) cursor frames
      (world 5 (volume [] [] []) []) refl
      (frame-IsFrame 1 20, (frame-IsFrame 4 21, (frame-IsFrame 2 22, tt)))

-- A record that claims to be longer than the buffer.
abbrev malformed : Bytes
malformed = cursor ++ (200 ∷ 1 ∷ 5 ∷ 90 ∷ 20 ∷ 0 ∷ [])

parse_buffer-total_example :
    (entries : List UsnEntry) × (parse_buffer layout root 14 malformed
        (world 5 (volume [] [] []) [])
      ≡ (ok (entries, from_le_bytes (take 8 malformed)), world 5 (volume [] [] []) []))
parse_buffer-total_example =
    parse_buffer-total layout root 14 malformed (omega arith) (world 5 (volume [] [] []) [])
