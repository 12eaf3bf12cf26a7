-- ===== src/Cli/Laws.antt =====
-- What the commands promise about the files of the workspace.
use i_tan_reclaim_space.Base.{
  ℕ, zero, suc, ◌≡◌, Bytes, true, List, [], ◌∷◌, some, length, arith, eq→==,
}
use i_tan_reclaim_space.Fs.Path.{Name, FilePath}
use i_tan_reclaim_space.Fs.State.{Fs}
use i_tan_reclaim_space.Fs.World.{World}
use i_tan_reclaim_space.Fs.Ensures.{
  Respect, Keeps, >>=-Ensures, attempt-Ensures, pure-Keeps, Bool-Ensures, Result-Ensures,
  next_entry-Keeps, is_dir-Keeps, read_dir-Keeps,
}
use i_tan_reclaim_space.Capability.{VolumeCapability}
use i_tan_reclaim_space.Cli.{parse_hex_digest}
use i_tan_reclaim_space.Cli.Ingest.{
  Progress, ingest_file, ingest_entries, ingest_dirs, is_store_dir,
}
use i_tan_reclaim_space.Digest.{Hasher}
use i_tan_reclaim_space.Ingest.{InodeCache}
use i_tan_reclaim_space.Ingest.Keeps.{evaluate-Keeps}
use i_tan_reclaim_space.RetryJob.{RetryJob}
use i_tan_reclaim_space.RetryQueue.{Channel}
use i_tan_reclaim_space.Store.{CasStore}
use i_tan_reclaim_space.Store.Hex.{hex_encode, parse_digest_from_hex}
use i_tan_reclaim_space.Store.Hex.Laws.{
  IsDigest, length-hex_encode, parse_digest_from_hex-hex_encode,
}

-- `parse_hex_digest` gives back the digest of 32 bytes that `hex_encode` wrote.
pub parse_hex_digest-hex_encode :
    (d : Bytes) → IsDigest d → parse_hex_digest (hex_encode d) ≡ some d
unfolding parse_hex_digest parse_digest_from_hex
parse_hex_digest-hex_encode d v =
    rw
      (
        eq→== (length (hex_encode d)) 64 (omega (arith, length-hex_encode d, v.size)),
        parse_hex_digest,
      )
      (parse_digest_from_hex-hex_encode d v)

module _ (P : Fs → Type 0) (h : Hasher) (granted : ℕ → ℕ) (keys : InodeCache → List ℕ)
    (channel : Channel RetryJob) (cap : VolumeCapability) (store : CasStore) where
  ingest_file-dry_run :
      (path : FilePath) (p : Progress)
      → Keeps P (ingest_file h granted keys channel cap store true path p)
  unfolding ingest_file
  ingest_file-dry_run path p =
      >>=-Ensures _ _ (attempt-Ensures _ (evaluate-Keeps P keys h granted path _))
        λ r _. Result-Ensures r _ _ (λ v. pure-Keeps _) (λ e. pure-Keeps _)

  ingest_entries-dry_run :
      (dir : FilePath) (names : List Name) (dirs : List FilePath) (p : Progress)
      → Keeps P (ingest_entries h granted keys channel cap store true dir names dirs p)
  unfolding ingest_entries
  ingest_entries-dry_run dir [] dirs p = pure-Keeps _
  ingest_entries-dry_run dir (n ∷ rest) dirs p =
      >>=-Ensures _ _ (attempt-Ensures _ (next_entry-Keeps n)) λ r _.
        Result-Ensures r _ _
          (λ name. >>=-Ensures _ _ (is_dir-Keeps (name ∷ dir)) λ directory _.
            Bool-Ensures directory _ _
              (Bool-Ensures (is_store_dir name) _ _ (ingest_entries-dry_run dir rest dirs p)
                (ingest_entries-dry_run dir rest ((name ∷ dir) ∷ dirs) p))
              (>>=-Ensures _ _ (ingest_file-dry_run (name ∷ dir) p)
                λ next _. ingest_entries-dry_run dir rest dirs next))
          (λ e. ingest_entries-dry_run dir rest dirs p)

  pub ingest_dirs-dry_run-Keeps :
      (rounds : ℕ) (dirs : List FilePath) (p : Progress)
      → Keeps P (ingest_dirs h granted keys channel cap store true rounds dirs p)
  unfolding ingest_dirs
  ingest_dirs-dry_run-Keeps zero [] p = pure-Keeps _
  ingest_dirs-dry_run-Keeps (suc rounds) [] p = pure-Keeps _
  ingest_dirs-dry_run-Keeps zero (dir ∷ dirs) p = pure-Keeps _
  ingest_dirs-dry_run-Keeps (suc rounds) (dir ∷ dirs) p =
      >>=-Ensures _ _ (attempt-Ensures _ (read_dir-Keeps dir)) λ r _.
        Result-Ensures r _ _
          (λ names.
            >>=-Ensures _ _ (ingest_entries-dry_run dir names dirs p)
              λ visited _. ingest_dirs-dry_run-Keeps rounds visited.0 visited.1)
          (λ e. ingest_dirs-dry_run-Keeps rounds dirs p)

  -- The traversal of a dry run changes nothing on the volume: whatever holds of it before, and is kept
  -- by the other processes, holds after it, however far the traversal gets and whatever fails.
  pub ingest_dirs-dry_run :
      (rounds : ℕ) (dirs : List FilePath) (p : Progress) (w : World)
      → P w.fs
      → Respect P w.turns
      → P (ingest_dirs h granted keys channel cap store true rounds dirs p w).1.fs
  ingest_dirs-dry_run rounds dirs p w v r =
      ((ingest_dirs-dry_run-Keeps rounds dirs p).run w (v, r)).0.0
