-- ===== src/Cli/Traversal.antt =====
-- The traversal of `ingest` comes to an end.
use i_tan_reclaim_space.Base.{
  ℕ, zero, suc, ◌+◌, ◌≤◌, ◌<◌, ◌≡◌, refl, ap, ◌∙◌, true, List, [], ◌∷◌, some, All, arith,
}
use i_tan_reclaim_space.Base.Results.{ok}
use i_tan_reclaim_space.Fs.Path.{Name, FilePath}
use i_tan_reclaim_space.Fs.State.{Fs, metadata_of, read_dir_of}
use i_tan_reclaim_space.Fs.World.{World}
use i_tan_reclaim_space.Fs.Calls.{names_dir}
use i_tan_reclaim_space.Fs.Delivers.{
  Delivers, pure-Delivers, >>=-Delivers, attempt-Delivers, Bool-Delivers, Result-Delivers, Same,
  read_dir-Ensures, is_dir-Delivers, next_entry-Ensures,
}
use i_tan_reclaim_space.Fs.Ensures.{Respect}
use i_tan_reclaim_space.Capability.{VolumeCapability}
use i_tan_reclaim_space.Cli.Ingest.{
  Progress, ingest_file, ingest_entries, ingest_dirs, is_store_dir,
}
use i_tan_reclaim_space.Digest.{Hasher}
use i_tan_reclaim_space.Ingest.{InodeCache}
use i_tan_reclaim_space.Ingest.Keeps.{evaluate-Keeps}
use i_tan_reclaim_space.RetryJob.{RetryJob}
use i_tan_reclaim_space.RetryQueue.{Channel}
use i_tan_reclaim_space.Store.{CasStore}

-- What the entries of a directory, and the directories still to be visited, weigh together.
abbrev pub total : (FilePath → ℕ) → FilePath → List Name → ℕ
total size d [] = 0
total size d (n ∷ names) = size (n ∷ d) + total size d names

abbrev pub sizes : (FilePath → ℕ) → List FilePath → ℕ
sizes size [] = 0
sizes size (d ∷ dirs) = size d + sizes size dirs

-- The directories form a finite tree: each weighs more than its entries together.
pub record IsTree (fs : Fs) (size : FilePath → ℕ) : Type 0 where
  pub directory : (p : FilePath) → names_dir (metadata_of p fs) ≡ true → 0 < size p
  pub listed :
      (d : FilePath) (names : List Name) → read_dir_of d fs ≡ ok names → total size d names < size d

module _ (h : Hasher) (granted : ℕ → ℕ) (keys : InodeCache → List ℕ) (channel : Channel RetryJob)
    (cap : VolumeCapability) (store : CasStore) (fs : Fs) (size : FilePath → ℕ)
    (tree : IsTree fs size) where
  ingest_file-Delivers :
      (path : FilePath) (p : Progress)
      → Delivers
          (Same fs)
          (λ _. Unit {0})
          (ingest_file h granted keys channel cap store true path p)
  unfolding ingest_file
  ingest_file-Delivers path p =
      >>=-Delivers _ _ (attempt-Delivers _ (evaluate-Keeps (Same fs) keys h granted path _)) λ r u.
        Result-Delivers {R = λ _. Unit {0}} r _ _ u (λ v _. pure-Delivers _ tt)
          (λ e. pure-Delivers _ tt)

  abbrev Within : ℕ → List FilePath → Type 0
  Within k dirs = (sizes size dirs ≤ k) × All (λ d. 0 < size d) dirs

  ingest_entries-Delivers :
      (dir : FilePath) (names : List Name) (dirs : List FilePath) (p : Progress) (k : ℕ)
      → sizes size dirs + total size dir names ≤ k
      → All (λ d. 0 < size d) dirs
      → Delivers
          (Same fs)
          (λ r. Within k r.0)
          (ingest_entries h granted keys channel cap store true dir names dirs p)
  unfolding ingest_entries
  ingest_entries-Delivers dir [] dirs p k l a = pure-Delivers _ (omega (arith, l), a)
  ingest_entries-Delivers dir (m ∷ rest) dirs p k l a =
      >>=-Delivers _ _ (attempt-Delivers _ (next_entry-Ensures m)) λ r e.
        Result-Delivers r _ _ e
          (λ name f. >>=-Delivers _ _ (is_dir-Delivers (name ∷ dir) fs) λ directory there.
            Bool-Delivers directory _ _
              (λ d.
                Bool-Delivers (is_store_dir name) _ _
                  (λ _. ingest_entries-Delivers dir rest dirs p k (omega (arith, l)) a)
                  (λ _.
                    ingest_entries-Delivers dir rest ((name ∷ dir) ∷ dirs) p k
                      (omega (arith, l, ap (λ x. size (x ∷ dir)) f))
                      (tree.directory (name ∷ dir) (there d), a)))
              (λ _.
                >>=-Delivers _ _ (ingest_file-Delivers (name ∷ dir) p)
                  λ next _. ingest_entries-Delivers dir rest dirs next k (omega (arith, l)) a))
          (λ _. ingest_entries-Delivers dir rest dirs p k (omega (arith, l)) a)

  ingest_dirs-Delivers :
      (rounds : ℕ) (dirs : List FilePath) (p : Progress)
      → sizes size dirs ≤ rounds
      → All (λ d. 0 < size d) dirs
      → Delivers
          (Same fs)
          (λ o. (q : Progress) × (o ≡ some q))
          (ingest_dirs h granted keys channel cap store true rounds dirs p)
  unfolding ingest_dirs
  ingest_dirs-Delivers zero [] p l a = pure-Delivers _ (p, refl)
  ingest_dirs-Delivers (suc rounds) [] p l a = pure-Delivers _ (p, refl)
  ingest_dirs-Delivers zero (dir ∷ dirs) p l a = absurd (omega (arith, l, a.0))
  ingest_dirs-Delivers (suc rounds) (dir ∷ dirs) p l a =
      >>=-Delivers _ _ (attempt-Delivers _ (read_dir-Ensures dir fs)) λ r e.
        Result-Delivers r _ _ e
          (λ names f.
            >>=-Delivers _ _
              (ingest_entries-Delivers dir names dirs p rounds
                (omega (arith, l, tree.listed dir names f)) a.1)
              λ visited v. ingest_dirs-Delivers rounds visited.0 visited.1 v.0 v.1)
          (λ _. ingest_dirs-Delivers rounds dirs p (omega (arith, l, a.0)) a.1)

  -- The traversal of a dry run comes to its end: with as many rounds as the directories to visit weigh together it is
  -- not cut short, whatever calls fail. The directories form a finite tree, in which each one to visit weighs something,
  -- and the volume stays the same, in the hands of the other processes too.
  pub ingest_dirs-ends :
      (rounds : ℕ) (dirs : List FilePath) (p : Progress) (w : World)
      → w.fs ≡ fs
      → Respect (Same fs) w.turns
      → sizes size dirs ≤ rounds
      → All (λ d. 0 < size d) dirs
      → (q : Progress) × (v : World) × (ingest_dirs h granted keys channel cap store true rounds
            dirs p w
          ≡ (ok (some q), v))
  ingest_dirs-ends rounds dirs p w e r l a =
      let (o, v, f, i, (q, g)) = (ingest_dirs-Delivers rounds dirs p l a).run w (e, r) in
      (q, v, f ∙ ap (λ x. (ok x, v)) g)
