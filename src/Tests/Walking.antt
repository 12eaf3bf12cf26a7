-- ===== src/Tests/Walking.antt =====
-- The traversal of a workspace with one directory and one file in it.
use mathlib.Core.Path.{subst}
use i_tan_reclaim_space.Base.{
  ℕ, ◌<◌, ◌≡◌, refl, ap, List, [], ◌∷◌, some, true, codes, arith, ℕ_discrete,
}
use i_tan_reclaim_space.Base.Results.{ok, unwrap_or}
use i_tan_reclaim_space.Fs.Path.{Name, text, FilePath, path_dec}
use i_tan_reclaim_space.Fs.Table.{find, children}
use i_tan_reclaim_space.Fs.State.{Fs, has_dir, subdirs, metadata_of, read_dir_of}
use i_tan_reclaim_space.Fs.World.{World}
use i_tan_reclaim_space.Fs.Calls.{names_dir}
use i_tan_reclaim_space.Cli.Ingest.{Progress, started, ingest_dirs}
use i_tan_reclaim_space.Cli.Traversal.{IsTree, total, ingest_dirs-ends}
use i_tan_reclaim_space.Ingest.{new_pipeline}
use i_tan_reclaim_space.Tests.Values.{
  root, capability, a_store, target, digest, volume, world, a_hasher, a_channel, keys_of,
}

abbrev workspace : Fs
workspace = volume digest ((target, 0) ∷ []) ((text (codes "work") ∷ []) ∷ [] ∷ [])

abbrev weight : FilePath → ℕ
weight [] = 2
weight (n ∷ []) = 1
weight (n ∷ m ∷ p) = 0

total_deep : (n : Name) (p : FilePath) (names : List Name) → total weight (n ∷ p) names ≡ 0
total_deep n p [] = refl
total_deep n p (m ∷ names) = omega (arith, total_deep n p names)

workspace-IsTree : IsTree workspace weight
unfolding metadata_of read_dir_of find has_dir children subdirs path_dec ℕ_discrete
workspace-IsTree = record { directory = directory; listed = listed }
  where
    directory : (p : FilePath) → names_dir (metadata_of p workspace) ≡ true → 0 < weight p
    directory [] e = omega arith
    directory (n ∷ []) e = omega arith
    directory (n ∷ m ∷ p) e = absurd (ground arith)

    listed :
        (d : FilePath) (names : List Name)
        → read_dir_of d workspace ≡ ok names
        → total weight d names < weight d
    listed [] names e =
        subst (λ ns. total weight [] ns < 2) (ap (λ r. unwrap_or r []) e) (omega arith)
    listed (n ∷ []) names e = omega (arith, total_deep n [] names)
    listed (n ∷ m ∷ p) names e = absurd (ground arith)

ingest_dirs-ends_example :
    (q : Progress) × (v : World) × (ingest_dirs a_hasher
        (λ n. 0)
        keys_of
        a_channel
        capability
        a_store
        true
        2
        (root ∷ [])
        (started (new_pipeline a_store capability.strategy))
        (world 5 workspace [])
      ≡ (ok (some q), v))
ingest_dirs-ends_example =
    ingest_dirs-ends a_hasher (λ n. 0) keys_of a_channel capability a_store workspace weight
      workspace-IsTree 2 (root ∷ []) (started (new_pipeline a_store capability.strategy))
      (world 5 workspace []) refl tt (omega arith) (omega arith, tt)
