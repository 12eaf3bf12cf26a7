-- ===== src/Tests/Ingesting.antt =====
-- Runs of the commands on a workspace with two equal files.
use i_tan_reclaim_space.Base.{
  ℕ, zero, suc, ◌%◌, ◌<◌, ◌≡◌, ◌≢◌, refl, Bytes, [], ◌∷◌, ◌++◌, none, some, false, true, List,
  length, replicate, All, codes, arith,
}
use i_tan_reclaim_space.Fs.Path.{Name, text, FilePath}
use i_tan_reclaim_space.Fs.State.{Fs}
use i_tan_reclaim_space.Fs.Table.{find}
use i_tan_reclaim_space.Cli.Commands.{Command, probe, recover, gc, status, ingest}
use i_tan_reclaim_space.Cli.Sessions.{session, session-Tracks}
use i_tan_reclaim_space.Digest.{Hasher}
use i_tan_reclaim_space.Digest.Rounds.{digest_of, digest_of-finalize}
use i_tan_reclaim_space.Linkage.Fits.{staging}
use i_tan_reclaim_space.Linkage.Names.{InStore}
use i_tan_reclaim_space.Linkage.Tracked.{Tracks}
use i_tan_reclaim_space.Store.Hex.Laws.{IsDigest}
use i_tan_reclaim_space.Store.Slots.{directory}
use i_tan_reclaim_space.Tests.Values.{root, target, volume, world, a_channel, keys_of}

-- The first bytes of a text, so many of them.
unfoldable pub padded : ℕ → Bytes → Bytes
padded zero s = []
padded (suc n) [] = 0 ∷ padded n []
padded (suc n) (c ∷ s) = c % 256 ∷ padded n s

padded-length : (n : ℕ) (s : Bytes) → length (padded n s) ≡ n
unfolding padded
padded-length zero s = refl
padded-length (suc n) [] = omega (arith, padded-length n [])
padded-length (suc n) (c ∷ s) = omega (arith, padded-length n s)

padded-bytes : (n : ℕ) (s : Bytes) → All (λ b. b < 256) (padded n s)
unfolding padded
padded-bytes zero s = tt
padded-bytes (suc n) [] = (omega arith, padded-bytes n [])
padded-bytes (suc n) (c ∷ s) = (omega arith, padded-bytes n s)

-- A hasher whose hashes have 32 bytes.
abbrev pub short_hasher : Hasher
short_hasher = record { State = Bytes; new = []; update = λ s b. s ++ b; finalize = padded 32 }

pub short_hasher-IsDigest : (s : Bytes) → IsDigest (padded 32 s)
short_hasher-IsDigest s = record { size = padded-length 32 s; bytes = padded-bytes 32 s }

abbrev pub body : Bytes
body = replicate 5_000 7

abbrev pub other_file : FilePath
other_file = text (codes "libb.so") ∷ text (codes "work") ∷ []

abbrev two_files : Fs
two_files = volume body ((target, 1) ∷ (other_file, 2) ∷ []) ((text (codes "work") ∷ []) ∷ [] ∷ [])

abbrev digest_of_body : Bytes
digest_of_body = digest_of short_hasher (λ n. 1_000) body

digest_of_body-IsDigest : IsDigest digest_of_body
digest_of_body-IsDigest =
    digest_of-finalize short_hasher (λ n. 1_000) IsDigest short_hasher-IsDigest body

two_files-Tracks : Tracks (digest_of short_hasher (λ n. 1_000)) root digest_of_body target two_files
unfolding find
two_files-Tracks = record {
  bounded = (omega arith, (omega arith, tt));
  staged = λ n p j e f. absurd (unstaged n j e);
  trusted = λ p j t e. refl;
  present = λ p t e. ground arith;
}
  where
    unstaged : (n : Name) (j : ℕ) → find (n ∷ staging root) two_files.table ≢ some j
    unstaged n j e = ground arith

pub target_away : InStore root (directory target) → ⊥
target_away ([], e) = ground arith
target_away (n ∷ [], e) = ground arith
target_away (n ∷ m ∷ s, e) = ground arith

root_away : InStore root root → ⊥
root_away ([], e) = ground arith
root_away (n ∷ s, e) = ground arith

-- A run of every command, a real `ingest` first.
abbrev commands : List Command
commands =
    ingest root none none false
    ∷ gc root
    ∷ recover root
    ∷ probe root
    ∷ ingest root none (some 4) true
    ∷ status root
    ∷ []

session-Tracks_example :
    let after =
      (session short_hasher
        (λ n. 1_000)
        keys_of
        a_channel
        2
        commands
        (world 500 two_files [])).1.fs in
    Tracks (digest_of short_hasher (λ n. 1_000)) root digest_of_body target after
    × ((j : ℕ) × (find target after.table ≡ some j)
        × (digest_of short_hasher (λ n. 1_000) (after.inode j).content ≡ digest_of_body))
session-Tracks_example =
    session-Tracks short_hasher (λ n. 1_000) keys_of a_channel 2 short_hasher-IsDigest root target
      digest_of_body digest_of_body-IsDigest target_away commands (world 500 two_files [])
      ((refl, root_away), ((refl, tt), ((refl, tt), ((refl, tt), ((refl, tt), ((refl, tt), tt))))))
      tt two_files-Tracks
