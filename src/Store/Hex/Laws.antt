-- ===== src/Store/Hex/Laws.antt =====
-- The text of a digest stands for one digest, is accepted, and names one file for each slot.
use native.Mathlib.Numerals.{add-one}
use i_tan_reclaim_space.Base.{
  ℕ, zero, suc, ◌+◌, ◌*◌, ◌/◌, ◌%◌, ◌<◌, ◌≤◌, ◌≡◌, refl, sym, ap, ◌∙◌, Bytes, true, false, [], ◌∷◌,
  ◌++◌, some, arith, ◌==◌, length, take, set, replicate, all, All, codes, append-nil, append_assoc,
  lt→ltb, ==_iff, length-set, ◌≢◌, ◌↔◌,
}
use i_tan_reclaim_space.Text.{u64_mod, decimal_03}
use i_tan_reclaim_space.Text.Laws.{decimal_03_injective}
use i_tan_reclaim_space.Store.Hex.{
  hex_digit, hex_encode, slot_filename, is_ascii_hexdigit, contains, validate_digest_hex,
  hex_nibble, parse_chunks, parse_digest_from_hex,
}

-- A `[u8; 32]`.
pub record IsDigest (d : Bytes) : Type 0 where
  pub size : length d ≡ 32
  pub bytes : All (λ b. b < 256) d

pub length-hex_encode : (bs : Bytes) → length (hex_encode bs) ≡ 2 * length bs
unfolding hex_encode
length-hex_encode [] = omega arith
length-hex_encode (b ∷ bs) = omega (arith, length-hex_encode bs)

hex_nibble-hex_digit : (n : ℕ) → n < 16 → hex_nibble (hex_digit n) ≡ n
unfolding hex_nibble
hex_nibble-hex_digit n h = ground arith

-- What the loop has written after the bytes `bs`.
splice : ℕ → Bytes → Bytes → Bytes
splice i [] out = out
splice i (b ∷ bs) out = splice (suc i) bs (set out i b)

take_all : (xs : Bytes) → take (length xs) xs ≡ xs
take_all [] = refl
take_all (x ∷ xs) = ap (◌∷◌ x) (take_all xs)

parse_chunks-hex_encode :
    (i : ℕ) (bs out : Bytes)
    → All (λ b. b < 256) bs
    → i + length bs ≤ 32
    → parse_chunks i (hex_encode bs) out ≡ some (splice i bs out)
unfolding parse_chunks hex_encode splice
parse_chunks-hex_encode i [] out h l = refl
parse_chunks-hex_encode i (b ∷ bs) out h l =
    let e : hex_nibble (hex_digit (b / 16)) * 16 % 256 + hex_nibble (hex_digit (b % 16)) ≡ b =
      omega (
        arith,
        hex_nibble-hex_digit (b / 16) (omega arith),
        hex_nibble-hex_digit (b % 16) (omega arith),
      ) in
    rw (lt→ltb i 32 (omega arith), e, add-one)
      (parse_chunks-hex_encode (suc i) bs _ h.1 (omega arith))

take-set :
    (i : ℕ) (out : Bytes) (b : ℕ)
    → i < length out
    → take (suc i) (set out i b) ≡ take i out ++ b ∷ []
take-set i [] b h = absurd (omega arith)
take-set zero (x ∷ xs) b h = refl
take-set (suc i) (x ∷ xs) b h = ap (◌∷◌ x) (take-set i xs b (omega arith))

splice_lem :
    (i : ℕ) (bs out : Bytes) → i + length bs ≡ length out → splice i bs out ≡ take i out ++ bs
unfolding splice
splice_lem i [] out e =
    let e' : i ≡ length out = omega arith in rw (e', append-nil) (sym (take_all out))
splice_lem i (b ∷ bs) out e =
    splice_lem (suc i) bs (set out i b) (omega (arith, length-set out i b))
    ∙ rw (take-set i out b (omega arith), append_assoc) refl

-- `parse_digest_from_hex` gives back the digest of 32 bytes that `hex_encode` wrote.
pub parse_digest_from_hex-hex_encode :
    (d : Bytes) → IsDigest d → parse_digest_from_hex (hex_encode d) ≡ some d
unfolding parse_digest_from_hex
parse_digest_from_hex-hex_encode d v =
    parse_chunks-hex_encode 0 d (replicate 32 0) v.bytes (omega (arith, v.size))
    ∙ ap some (splice_lem 0 d (replicate 32 0) (omega (arith, v.size)))

pub hex_encode_injective :
    (d e : Bytes) → IsDigest d → IsDigest e → hex_encode d ≡ hex_encode e → d ≡ e
hex_encode_injective d e hd he h =
    cc (parse_digest_from_hex-hex_encode d hd, parse_digest_from_hex-hex_encode e he)

-- What a digit of `hex_encode` is: it is accepted by `is_ascii_hexdigit`, and separates nothing.
IsHex : ℕ → Type 0
IsHex c = (is_ascii_hexdigit c ≡ true) × (c ≢ b'.') × (c ≢ b'/') × (c ≢ b'\\') × (c ≢ b'_')

hex_digit-IsHex : (n : ℕ) → n < 16 → IsHex (hex_digit n)
unfolding IsHex
hex_digit-IsHex n h = ground arith

hex_encode-IsHex : (bs : Bytes) → All (λ b. b < 256) bs → All IsHex (hex_encode bs)
unfolding hex_encode
hex_encode-IsHex [] h = tt
hex_encode-IsHex (b ∷ bs) h = (
  hex_digit-IsHex (b / 16) (omega arith),
  (hex_digit-IsHex (b % 16) (omega arith), hex_encode-IsHex bs h.1),
)

all-IsHex : (s : Bytes) → All IsHex s → all is_ascii_hexdigit s ≡ true
unfolding IsHex
all-IsHex [] h = refl
all-IsHex (c ∷ s) h = rw (h.0.0) (all-IsHex s h.1)

contains_of_all :
    (s : Bytes) (x : ℕ)
    → all is_ascii_hexdigit s ≡ true
    → is_ascii_hexdigit x ≡ false
    → contains s x ≡ false
contains_of_all [] x h k = refl
contains_of_all (c ∷ s) x h k = ground (arith, contains_of_all s x)

-- Every digest is accepted.
pub validate_digest_hex-hex_encode :
    (d : Bytes) → IsDigest d → validate_digest_hex (hex_encode d) ≡ true
unfolding validate_digest_hex
validate_digest_hex-hex_encode d v =
    let l : (length (hex_encode d) == 64) ≡ true =
      (==_iff _ 64).1 (omega (arith, length-hex_encode d, v.size)) in
    let a : all is_ascii_hexdigit (hex_encode d) ≡ true =
      all-IsHex _ (hex_encode-IsHex d v.bytes) in
    rw (
      l,
      a,
      contains_of_all (hex_encode d) b'.' a refl,
      contains_of_all (hex_encode d) b'/' a refl,
      contains_of_all (hex_encode d) b'\\' a refl,
    )

-- A text is accepted exactly if it has 64 characters, all of them hexadecimal digits of either case.
pub validate_digest_hex_iff :
    (s : Bytes)
    → (validate_digest_hex s ≡ true) ↔ ((length s ≡ 64) × (all is_ascii_hexdigit s ≡ true))
unfolding validate_digest_hex
validate_digest_hex_iff s = (
  λ h. ground arith,
  λ h. rw (
    (==_iff _ 64).1 h.0,
    h.1,
    contains_of_all s b'.' h.1 refl,
    contains_of_all s b'/' h.1 refl,
    contains_of_all s b'\\' h.1 refl,
  ),
)

pub append-injective : (s t u v : Bytes) → length s ≡ length t → s ++ u ≡ t ++ v → (s ≡ t) × (u ≡ v)
append-injective [] [] u v l e = (refl, e)
append-injective [] (c ∷ t) u v l e = absurd (omega arith)
append-injective (c ∷ s) [] u v l e = absurd (omega arith)
append-injective (c ∷ s) (d ∷ t) u v l e =
    let r : (s ≡ t) × (u ≡ v) = append-injective s t u v (omega arith) (cc) in (cc (r.0), r.1)

-- Two slots share a file name only if they are of one digest and have one index, where the digests
-- are 32 bytes and the indices fit in 64 bits.
pub slot_filename_injective :
    (d e : Bytes) (i j : ℕ)
    → IsDigest d
    → IsDigest e
    → i < u64_mod
    → j < u64_mod
    → slot_filename (hex_encode d) i ≡ slot_filename (hex_encode e) j
    → (d ≡ e) × (i ≡ j)
unfolding slot_filename
slot_filename_injective d e i j hd he hi hj h =
    let r : (hex_encode d ≡ hex_encode e)
        × (codes "_s" ++ decimal_03 i ≡ codes "_s" ++ decimal_03 j) =
      append-injective (hex_encode d) (hex_encode e) _ _
        (omega (arith, length-hex_encode d, length-hex_encode e, hd.size, he.size)) h in
    (hex_encode_injective d e hd he r.0, decimal_03_injective i j hi hj (cc (r.1)))
