-- ===== src/Digest.antt =====
-- crates/itan-core/src/digest.rs: the two hashes of a file. The hasher of blake3 is a parameter, and
-- so is how many bytes a call of `read` returns at an offset.
pub mod Laws
pub mod Openers
pub mod Reads
pub mod Rounds
use i_tan_reclaim_space.Base.{
  ℕ, zero, suc, ◌+◌, ◌-◌, ◌^◌, ◌≡◌, Bytes, Bool, true, false, List, [], ◌∷◌, ◌++◌, Option, none,
  some, ltb, ◌==◌, if◌then◌else◌, min, length, take, drop,
}
use i_tan_reclaim_space.Base.Results.{Result, ok, err}
use i_tan_reclaim_space.Fs.Path.{FilePath}
use i_tan_reclaim_space.Fs.Table.{find}
use i_tan_reclaim_space.Fs.State.{Fs, IoError, not_found, os_error, Metadata}
use i_tan_reclaim_space.Fs.World.{
  Platform, unix, windows, other, platform, M, pure, throw, ◌>>=◌, ◌>>◌, map_err, query,
}
use i_tan_reclaim_space.Fs.Calls.{metadata}
use i_tan_reclaim_space.Fs.Handles.{file_open}
use i_tan_reclaim_space.Capability.{LinkStrategy}

pub data DigestError : Type 0 where
  open_failed read_failed seek_failed : FilePath → IoError → DigestError

abbrev pub block_size : ℕ
block_size = 65_536

abbrev pub min_file_size : ℕ
min_file_size = 4_096

abbrev pub boundary_full_read_limit : ℕ
boundary_full_read_limit = 8_192

abbrev pub boundary_sample : ℕ
boundary_sample = 4_096

-- `blake3::Hasher`
pub record Hasher : Type 1 where
  pub State : Type 0
  pub new : State
  pub update : State → Bytes → State
  pub finalize : State → Bytes

-- Its documentation: several updates are one update by their concatenation.
pub record IsHasher (h : Hasher) : Type 0 where
  pub update_nil : (s : h.State) → h.update s [] ≡ s
  pub update_append : (s : h.State) (a b : Bytes) → h.update (h.update s a) b ≡ h.update s (a ++ b)

-- `blake3::hash`
unfoldable pub hash_of : Hasher → Bytes → Bytes
hash_of h content = h.finalize (h.update h.new content)

-- `File::read_to_end`, from an offset.
unfoldable pub read_to_end : ℕ → ℕ → M IoError Bytes
read_to_end file offset = query (λ fs. ok (drop offset (fs.inode file).content))

abbrev exactly : ℕ → Bytes → Result IoError Bytes
exactly n bytes = if length bytes == n then ok bytes else err (os_error 0)

-- `File::read_exact`, from an offset: `UnexpectedEof` when the file is too short.
unfoldable pub read_exact : ℕ → ℕ → ℕ → M IoError Bytes
read_exact file offset n = query (λ fs. exactly n (take n (drop offset (fs.inode file).content)))

-- `File::seek` to an offset from the start, with the position of the file after it.
unfoldable pub seek : ℕ → M IoError ℕ
seek offset = query (λ fs. ok offset)

unfoldable pub open_file_for_read : FilePath → M DigestError ℕ
unfolding file_open
open_file_for_read path = map_err (open_failed path) (file_open path)

-- Without the feature `linux-cow` the file is opened twice on Linux, and the first is closed. The hint of
-- Windows is left out here.
unfoldable pub open_on : Platform → FilePath → M DigestError ℕ
unfolding open_file_for_read
open_on unix path = do _ ← open_file_for_read path; open_file_for_read path
open_on windows path = open_file_for_read path
open_on other path = open_file_for_read path

unfoldable pub open_file_with_sequential_hint : FilePath → LinkStrategy → M DigestError ℕ
unfolding open_on
open_file_with_sequential_hint path strategy = do os ← platform; open_on os path

module _ (h : Hasher) where
  -- A small file is read whole.
  unfoldable pub whole_hash : FilePath → ℕ → M DigestError Bytes
  unfolding read_to_end
  whole_hash path file = do
    buf ← map_err (read_failed path) (read_to_end file 0)
    pure (h.finalize (h.update h.new buf))

  -- The head and the tail of a large one.
  unfoldable pub ends_hash : FilePath → ℕ → ℕ → M DigestError Bytes
  unfolding read_exact seek
  ends_hash path file tail_offset = do
    head ← map_err (read_failed path) (read_exact file 0 boundary_sample)
    position ← map_err (seek_failed path) (seek tail_offset)
    tail ← map_err (read_failed path) (read_exact file position boundary_sample)
    pure (h.finalize (h.update (h.update h.new head) tail))

  unfoldable pub boundary_hash : FilePath → M DigestError Bytes
  unfolding open_file_for_read whole_hash ends_hash
  boundary_hash path = do
    meta ← map_err (open_failed path) (metadata path)
    file ← open_file_for_read path
    elim (ltb meta.len boundary_full_read_limit) [
      | true ↦ whole_hash path file
      | false ↦ ends_hash path file (meta.len - boundary_sample)
    ]

  module _ (granted : ℕ → ℕ) where
    -- `File::read` at an offset, into the buffer: at least one byte, unless the file ends there.
    unfoldable pub read_block : ℕ → ℕ → M IoError Bytes
    read_block file offset = query (λ fs.
        ok (take (min block_size (suc (granted offset))) (drop offset (fs.inode file).content)))

    -- The loop that reads block by block. A file has no byte behind the offset 2⁶³ - 1.
    unfoldable pub digest_rounds : ℕ → FilePath → ℕ → ℕ → h.State → M DigestError Bytes
    unfolding read_block
    digest_rounds zero path file offset hasher = pure (h.finalize hasher)
    digest_rounds (suc rounds) path file offset hasher = do
      block ← map_err (read_failed path) (read_block file offset)
      elim (length block == 0) [
        | true ↦ pure (h.finalize hasher)
        | false ↦ digest_rounds rounds path file (offset + length block) (h.update hasher block)
      ]

    unfoldable pub full_cas_digest : FilePath → LinkStrategy → M DigestError Bytes
    unfolding open_file_with_sequential_hint digest_rounds
    full_cas_digest path strategy = do
      file ← open_file_with_sequential_hint path strategy
      digest_rounds (2 ^ 63) path file 0 h.new
