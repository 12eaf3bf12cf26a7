-- ===== src/Store/Hex.antt =====
-- Digests as text: `hex_encode`, `slot_filename` and `validate_digest_hex` of store.rs, and the
-- parser of linkage.rs, which the command line repeats.
pub mod Laws
use i_tan_reclaim_space.Base.{
  ℕ, zero, suc, ◌+◌, ◌-◌, ◌*◌, ◌/◌, ◌%◌, Bytes, Bool, true, false, ◌&&◌, ◌||◌, not, List, [], ◌∷◌,
  ◌++◌, Option, none, some, leb, ltb, ◌==◌, if◌then◌else◌, length, replicate, set, all, any, codes,
}
use i_tan_reclaim_space.Text.{decimal_03}

-- A digit of `{:02x}`.
abbrev pub hex_digit : ℕ → ℕ
hex_digit n = if ltb n 10 then b'0' + n else b'a' + (n - 10)

unfoldable pub hex_encode : Bytes → Bytes
hex_encode [] = []
hex_encode (b ∷ bytes) = hex_digit (b / 16) ∷ hex_digit (b % 16) ∷ hex_encode bytes

unfoldable pub slot_filename : Bytes → ℕ → Bytes
unfolding decimal_03
slot_filename digest_hex slot_idx = digest_hex ++ (codes "_s" ++ decimal_03 slot_idx)

abbrev pub is_ascii_hexdigit : ℕ → Bool
is_ascii_hexdigit c =
    (leb b'0' c && leb c b'9') || ((leb b'a' c && leb c b'f') || (leb b'A' c && leb c b'F'))

abbrev pub contains : Bytes → ℕ → Bool
contains s c = any (λ d. d == c) s

-- Whether the function returns `Ok(())`; the only error is `InvalidDigest`.
unfoldable pub validate_digest_hex : Bytes → Bool
validate_digest_hex digest_hex =
    if not (length digest_hex == 64)
    then false
    else if not (all is_ascii_hexdigit digest_hex)
    then false
    else not (contains digest_hex b'.' || (contains digest_hex b'/' || contains digest_hex b'\\'))

unfoldable pub hex_nibble : ℕ → ℕ
hex_nibble b =
    if leb b'0' b && leb b b'9'
    then b - b'0'
    else if leb b'a' b && leb b b'f'
    then b - b'a' + 10
    else if leb b'A' b && leb b b'F'
    then b - b'A' + 10
    else 0

-- The loop from chunk `i` on. `none` is the panic of an index out of range: `out[i]`, or `chunk[1]`
-- of a last chunk of one byte. The low four bits of `hi << 4` are clear, so `|` adds.
unfoldable pub parse_chunks : ℕ → Bytes → Bytes → Option Bytes
unfolding hex_nibble
parse_chunks i [] out = some out
parse_chunks i (c ∷ []) out = none
parse_chunks i (c ∷ d ∷ hex) out =
    let rest = parse_chunks (i + 1) hex (set out i (hex_nibble c * 16 % 256 + hex_nibble d)) in
    if ltb i 32 then rest else none

unfoldable pub parse_digest_from_hex : Bytes → Option Bytes
unfolding parse_chunks
parse_digest_from_hex hex = parse_chunks 0 hex (replicate 32 0)
