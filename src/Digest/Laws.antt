-- ===== src/Digest/Laws.antt =====
-- What the two hashes of a file are, in a world whose calls succeed and whose other processes do not
-- interfere.
use i_tan_reclaim_space.Base.{
  ℕ, zero, suc, ◌+◌, ◌-◌, ◌^◌, ◌<◌, ◌≤◌, ◌≡◌, refl, ap, ◌∙◌, sym, Bytes, false, ◌++◌, some, ltb,
  ◌==◌, if◌then◌else◌, min, length, take, drop, length-take, length-drop, take-all, arith, eq→==,
  if-cases,
}
use i_tan_reclaim_space.Base.Results.{ok, err}
use i_tan_reclaim_space.Fs.Handles.{file_open}
use i_tan_reclaim_space.Fs.Path.{FilePath}
use i_tan_reclaim_space.Fs.Table.{find}
use i_tan_reclaim_space.Fs.State.{file_metadata, os_error}
use i_tan_reclaim_space.Fs.World.{
  Platform, unix, windows, other, platform, World, calm, ◌>>=◌, map_err, query, syscall, take_turn,
}
use i_tan_reclaim_space.Fs.Runs.{branch, >>=-ok, map_err-ok, query-calm, metadata-calm}
use i_tan_reclaim_space.Capability.{LinkStrategy}
use i_tan_reclaim_space.Digest.Rounds.{block_at, rounds_of, digest_of, digest_of-hash_of}
use i_tan_reclaim_space.Digest.{
  Hasher, IsHasher, hash_of, open_file_for_read, open_on, open_file_with_sequential_hint,
  read_to_end, read_exact, seek, whole_hash, ends_hash, boundary_hash, read_block, digest_rounds,
  full_cas_digest, block_size, boundary_sample, boundary_full_read_limit,
}

open_file_for_read-calm :
    (path : FilePath) (i : ℕ) (w : World)
    → find path w.fs.table ≡ some i
    → open_file_for_read path (calm w) ≡ (ok i, calm w)
unfolding open_file_for_read file_open map_err query syscall take_turn
open_file_for_read-calm path i w f = ground arith

open_on-calm :
    (os : Platform) (path : FilePath) (i : ℕ) (w : World)
    → find path w.fs.table ≡ some i
    → open_on os path (calm w) ≡ (ok i, calm w)
unfolding open_on
open_on-calm unix path i w f =
    >>=-ok _ _ (calm w) i (calm w) (open_file_for_read-calm path i w f)
    ∙ open_file_for_read-calm path i w f
open_on-calm windows path i w f = open_file_for_read-calm path i w f
open_on-calm other path i w f = open_file_for_read-calm path i w f

open_file_with_sequential_hint-calm :
    (path : FilePath) (strategy : LinkStrategy) (i : ℕ) (w : World)
    → find path w.fs.table ≡ some i
    → open_file_with_sequential_hint path strategy (calm w) ≡ (ok i, calm w)
unfolding open_file_with_sequential_hint platform
open_file_with_sequential_hint-calm path strategy i w f =
    >>=-ok platform (λ os. open_on os path) (calm w) w.os (calm w) refl
    ∙ open_on-calm w.os path i w f

module _ (h : Hasher) (granted : ℕ → ℕ) where
  digest_rounds-step :
      (rounds : ℕ) (path : FilePath) (i offset : ℕ) (hasher : h.State) (w : World)
      → let block =
          take (min block_size (suc (granted offset))) (drop offset (w.fs.inode i).content) in
        digest_rounds h granted (suc rounds) path i offset hasher (calm w) ≡ (
          if length block == 0
          then (ok (h.finalize hasher), calm w)
          else digest_rounds h granted rounds path i
              (offset + length block)
              (h.update hasher block)
              (calm w))
  unfolding digest_rounds ◌>>=◌ map_err read_block query syscall take_turn
  digest_rounds-step rounds path i offset hasher w = ground arith

  digest_rounds-rounds_of :
      (rounds : ℕ) (path : FilePath) (i offset : ℕ) (hasher : h.State) (w : World)
      → digest_rounds h granted rounds path i offset hasher (calm w)
        ≡ (ok (rounds_of h granted rounds (w.fs.inode i).content offset hasher), calm w)
  unfolding rounds_of digest_rounds
  digest_rounds-rounds_of zero path i offset hasher w = refl
  digest_rounds-rounds_of (suc rounds) path i offset hasher w =
      digest_rounds-step rounds path i offset hasher w
      ∙ if-cases (length (block_at h granted (w.fs.inode i).content offset) == 0)
          (λ e. rw (e, rounds_of) refl)
          (λ e. digest_rounds-rounds_of rounds path i _ _ w ∙ rw (e, rounds_of) refl)

  -- The full digest of a file is the hash of its whole content, however the blocks are cut that the
  -- system returns, and computing it changes nothing. The file is shorter than 2⁶³ bytes, and in
  -- this run no call fails and no other process interferes.
  pub full_cas_digest-hash_of :
      IsHasher h
      → (path : FilePath) (strategy : LinkStrategy) (i : ℕ) (w : World)
      → find path w.fs.table ≡ some i
      → length (w.fs.inode i).content < 2 ^ 63
      → full_cas_digest h granted path strategy (calm w)
        ≡ (ok (hash_of h (w.fs.inode i).content), calm w)
  unfolding full_cas_digest digest_of
  full_cas_digest-hash_of law path strategy i w f l =
      >>=-ok _ _ (calm w) i (calm w) (open_file_with_sequential_hint-calm path strategy i w f)
      ∙ digest_rounds-rounds_of (2 ^ 63) path i 0 h.new w
      ∙ ap (λ d. (ok d, calm w)) (digest_of-hash_of h granted law (w.fs.inode i).content l)

-- What the boundary hash covers: the whole of a file below 8 KiB, the first and the last 4 KiB of
-- any other.
abbrev pub sampled : Bytes → Bytes
sampled c =
    if ltb (length c) boundary_full_read_limit
    then c
    else take boundary_sample c ++ drop (length c - boundary_sample) c

read_exact-calm :
    (i offset n : ℕ) (w : World)
    → offset + n ≤ length (w.fs.inode i).content
    → read_exact i offset n (calm w) ≡ (ok (take n (drop offset (w.fs.inode i).content)), calm w)
unfolding read_exact
read_exact-calm i offset n w l =
    query-calm _ w
    ∙ ap
        (λ b. (
          (if b then ok (take n (drop offset (w.fs.inode i).content)) else err (os_error 0)),
          calm w,
        ))
        (eq→== (length (take n (drop offset (w.fs.inode i).content))) n (
          omega (
            arith,
            length-take n (drop offset (w.fs.inode i).content),
            length-drop offset (w.fs.inode i).content,
          )))

seek-calm : (offset : ℕ) (w : World) → seek offset (calm w) ≡ (ok offset, calm w)
unfolding seek
seek-calm offset w = query-calm _ w

module _ (h : Hasher) (path : FilePath) (i : ℕ) (w : World) where
  whole_hash-calm : whole_hash h path i (calm w) ≡ (ok (hash_of h (w.fs.inode i).content), calm w)
  unfolding whole_hash hash_of ◌>>=◌ map_err read_to_end query syscall take_turn
  whole_hash-calm = refl

  ends_hash-calm :
      (offset : ℕ)
      → boundary_sample ≤ length (w.fs.inode i).content
      → offset + boundary_sample ≡ length (w.fs.inode i).content
      → ends_hash h path i offset (calm w) ≡ (
        ok (
            h.finalize (
              h.update
                (h.update h.new (take boundary_sample (w.fs.inode i).content))
                (drop offset (w.fs.inode i).content))),
        calm w,
      )
  unfolding ends_hash
  ends_hash-calm offset l e =
      >>=-ok _ _ (calm w) _ (calm w) (
        map_err-ok _ _ (calm w) _ (calm w)
          (read_exact-calm i 0 boundary_sample w (omega (arith, l))))
      ∙ >>=-ok _ _ (calm w) offset (calm w)
          (map_err-ok _ _ (calm w) offset (calm w) (seek-calm offset w))
      ∙ >>=-ok _ _ (calm w) _ (calm w) (
          map_err-ok _ _ (calm w) _ (calm w)
            (read_exact-calm i offset boundary_sample w (omega (arith, e))))
      ∙ ap
          (λ t. (
            ok (
                h.finalize
                  (h.update (h.update h.new (take boundary_sample (w.fs.inode i).content)) t)),
            calm w,
          ))
          (take-all boundary_sample (drop offset (w.fs.inode i).content)
            (omega (arith, e, length-drop offset (w.fs.inode i).content)))

  -- The boundary hash of a file is the hash of what it covers, and computing it changes nothing. In
  -- this run no call fails and no other process interferes.
  pub boundary_hash-hash_of :
      IsHasher h
      → find path w.fs.table ≡ some i
      → boundary_hash h path (calm w) ≡ (ok (hash_of h (sampled (w.fs.inode i).content)), calm w)
  unfolding boundary_hash hash_of
  boundary_hash-hash_of law f =
      >>=-ok _ _ (calm w) (file_metadata i w.fs) (calm w)
        (map_err-ok _ _ (calm w) (file_metadata i w.fs) (calm w) (metadata-calm path i w f))
      ∙ >>=-ok _ _ (calm w) i (calm w) (open_file_for_read-calm path i w f)
      ∙ branch (ltb (length c) boundary_full_read_limit) _ _ (calm w) _
          (λ e. whole_hash-calm ∙ ap (λ t. (ok (hash_of h t), calm w)) (sym (rw e refl)))
          (λ e.
            ends_hash-calm (length c - boundary_sample) (large e) (omega (arith, large e))
            ∙ ap (λ s. (ok (h.finalize s), calm w)) (law.update_append h.new _ _)
            ∙ ap (λ t. (ok (hash_of h t), calm w)) (sym (rw e refl)))
    where
      c : Bytes
      c = (w.fs.inode i).content

      large : ltb (length c) boundary_full_read_limit ≡ false → boundary_sample ≤ length c
      large e = ground arith
