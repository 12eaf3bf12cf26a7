-- ===== src/Tests/EqualFiles.antt =====
-- `ingest` on two equal files of an open volume.
use i_tan_reclaim_space.Cli.Duplicates.{IsCandidate}
use i_tan_reclaim_space.Cli.EqualFiles.{both_done, ingest_file_equal}
use i_tan_reclaim_space.Base.{
  ℕ, ◌≡◌, refl, Bytes, [], ◌∷◌, none, some, true, append-nil, append_assoc, ◌+◌, false, ℕ_discrete,
  length, All, codes, arith,
}
use i_tan_reclaim_space.Base.Results.{ok}
use i_tan_reclaim_space.Fs.Path.{text, path_dec}
use i_tan_reclaim_space.Fs.Runs.Files.{there}
use i_tan_reclaim_space.Fs.World.{World, calm, ◌>>=◌}
use i_tan_reclaim_space.Ingest.{cached, new_pipeline}
use i_tan_reclaim_space.Linkage.{sibling_tmp_link}
use i_tan_reclaim_space.Linkage.Beside.{IsBeside}
use i_tan_reclaim_space.Linkage.Publish.{CanPublish, first, shard, stage}
use i_tan_reclaim_space.Store.Hex.{hex_encode, slot_filename}
use i_tan_reclaim_space.Text.{decimal_03}
use i_tan_reclaim_space.Whitelist.{whitelisted, classify_path}
use i_tan_reclaim_space.Fs.State.{has_dir, has_file, ancestors_in, metadata_of}
use i_tan_reclaim_space.Fs.Table.{find}
use i_tan_reclaim_space.Cli.Ingest.{Progress, started, ingest_file}
use i_tan_reclaim_space.Digest.{IsHasher, hash_of}
use i_tan_reclaim_space.Store.Hex.Laws.{IsDigest}
use i_tan_reclaim_space.Store.Slots.{directory, shard_of, slot_path}
use i_tan_reclaim_space.Tests.Values.{
  root, target, volume, world, a_channel, keys_of, capability, a_store,
}
use i_tan_reclaim_space.Tests.Ingesting.{
  padded, short_hasher, short_hasher-IsDigest, body, other_file, target_away,
}

short_hasher-IsHasher : IsHasher short_hasher
short_hasher-IsHasher = record {
  update_nil = λ s. append-nil s;
  update_append = λ s a b. append_assoc s a b;
}

-- The same files on a volume whose store is open.
abbrev opened : World
opened =
    world 500
      (volume body ((target, 1) ∷ (other_file, 2) ∷ []) (
        (text (codes "work") ∷ [])
        ∷ a_store.objects_dir
        ∷ a_store.tmp_dir
        ∷ (text (codes ".itan_store") ∷ [])
        ∷ []
        ∷ []))
      []

abbrev start : Progress
start = started (new_pipeline a_store capability.strategy)

abbrev hash_of_body : Bytes
hash_of_body = hash_of short_hasher body

hash_of_body-IsDigest : IsDigest hash_of_body
unfolding hash_of
hash_of_body-IsDigest = short_hasher-IsDigest body

named :
    (find target opened.fs.table ≡ some 1)
    × (find other_file opened.fs.table ≡ some 2)
    × (find (sibling_tmp_link other_file) opened.fs.table ≡ none)
    × (has_dir (sibling_tmp_link other_file) opened.fs.dirs ≡ false)
    × (has_dir other_file opened.fs.dirs ≡ false)
    × (has_dir (directory other_file) opened.fs.dirs ≡ true)
unfolding find has_dir sibling_tmp_link path_dec ℕ_discrete
named = (refl, refl, refl, refl, refl, refl)

open_dirs : All (λ a. has_dir a opened.fs.dirs ≡ true) (ancestors_in a_store.objects_dir)
unfolding has_dir path_dec ℕ_discrete
open_dirs = (refl, (refl, (refl, tt)))

whitelisted_files : (classify_path target ≡ whitelisted) × (classify_path other_file ≡ whitelisted)
unfolding classify_path
whitelisted_files = (refl, refl)

uncached : (k : ℕ) → cached k [] ≡ false
unfolding cached
uncached k = refl

target-IsCandidate :
    IsCandidate short_hasher
      (λ n. 1_000)
      keys_of
      a_channel
      capability
      a_store
      short_hasher-IsHasher
      target
      1
      opened
      start
target-IsCandidate = record {
  opened = refl;
  named = named.0;
  class = whitelisted_files.0;
  large = omega arith;
  short = omega arith;
  new = uncached 1;
}

free_names :
    (there (first root capability hash_of_body target 1 opened) opened.fs ≡ false)
    × (find (stage root capability hash_of_body target 1 opened) opened.fs.table ≡ none)
    × (has_dir (stage root capability hash_of_body target 1 opened) opened.fs.dirs ≡ false)
    × (has_dir a_store.tmp_dir opened.fs.dirs ≡ true)
    × (has_file (ancestors_in (shard root capability hash_of_body target 1 opened)) opened.fs.table
        ≡ false)
    × (there
          (slot_path (shard_of a_store (hex_encode hash_of_body)) (hex_encode hash_of_body) 1)
          opened.fs
        ≡ false)
unfolding hash_of padded find has_dir has_file metadata_of slot_path slot_filename decimal_03
    hex_encode path_dec ℕ_discrete
free_names = (refl, refl, refl, refl, refl, refl)

target-CanPublish : CanPublish root capability hash_of_body target 1 opened
target-CanPublish = record {
  os = refl;
  digest = hash_of_body-IsDigest;
  source_there = named.0;
  absent = free_names.0;
  no_stage = free_names.1;
  no_stage_dir = free_names.2;
  tmp_there = free_names.3;
  no_file_above = free_names.4;
}

other_file-IsBeside :
    IsBeside root capability (text (codes "libb.so")) (text (codes "work") ∷ []) 2 opened
other_file-IsBeside = record {
  away = target_away;
  bounded = (omega arith, (omega arith, tt));
  objects_there = open_dirs;
  some_links = omega arith;
  file_there = named.1;
  link_free = named.2;
  no_link_dir = named.3;
  no_file_dir = named.4;
  dir_there = named.5;
}

abbrev linked_world : World
linked_world = both_done root capability hash_of_body target 1 opened other_file 2

ingest_file_equal_example :
    (q : Progress) × ((ingest_file short_hasher
            (λ n. 1_000)
            keys_of
            a_channel
            capability
            a_store
            false
            target
            start
          >>= ingest_file short_hasher
              (λ n. 1_000)
              keys_of
              a_channel
              capability
              a_store
              false
              other_file)
        (calm opened)
      ≡ (ok q, linked_world))
    × (q.total_files ≡ 2)
    × (q.unique ≡ 1)
    × (q.linked ≡ 1)
    × (q.total_saved ≡ 0 + length body)
    × (find other_file linked_world.fs.table ≡ some 10)
    × (find (first root capability hash_of_body target 1 opened) linked_world.fs.table ≡ some 10)
    × (find target linked_world.fs.table ≡ some 1)
    × ((linked_world.fs.inode 10).content ≡ body)
    × ((linked_world.fs.inode 1).content ≡ body)
ingest_file_equal_example =
    ingest_file_equal short_hasher (λ n. 1_000) keys_of a_channel root capability
      short_hasher-IsHasher target 1 opened start (text (codes "libb.so"))
      (text (codes "work") ∷ []) 2 target-IsCandidate target-CanPublish free_names.5
      other_file-IsBeside refl whitelisted_files.1 (uncached 2) (λ e. ground arith)
