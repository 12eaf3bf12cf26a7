-- ===== src/Tests/Acquiring.antt =====
-- Acquiring a slot of a digest whose first slot is full, and retrying a job.
use i_tan_reclaim_space.Base.{
  ℕ, zero, suc, ap, ◌≤◌, ◌<◌, ◌≡◌, refl, [], ◌∷◌, none, some, true, false, arith, ℕ_discrete,
}
use i_tan_reclaim_space.Fs.Path.{path_dec}
use i_tan_reclaim_space.Fs.Table.{find}
use i_tan_reclaim_space.Fs.State.{Fs, has_dir, metadata_of}
use i_tan_reclaim_space.Fs.World.{World, calm}
use i_tan_reclaim_space.Fs.Runs.Files.{there}
use i_tan_reclaim_space.Capability.{VolumeCapability, LinkStrategy}
use i_tan_reclaim_space.RetryJob.{RetryJob}
use i_tan_reclaim_space.RetryQueue.Attempts.{
  Retries, first, again, retried, next_attempt_lem, Retries-bound,
}
use i_tan_reclaim_space.Store.Hex.{hex_encode, slot_filename}
use i_tan_reclaim_space.Store.Room.{Acquired, acquire_slot-room}
use i_tan_reclaim_space.Store.Spill.{staging, CanSpill}
use i_tan_reclaim_space.Store.Safety.{store, slot_at}
use i_tan_reclaim_space.Store.Slots.{shard_of, slot_path, acquire_slot}
use i_tan_reclaim_space.Text.{decimal_03}
use i_tan_reclaim_space.Tests.Values.{root, target, digest, digest-IsDigest, volume, world}

-- A volume that allows two names of a file.
abbrev narrow : VolumeCapability
narrow = record { volume_root = []; strategy = LinkStrategy.posix_hardlink; max_links = 2 }

-- The first slot has a workspace file linked to it.
abbrev full : Fs
full = volume digest ((target, 0) ∷ (slot_at root narrow digest 0, 0) ∷ []) (
    shard_of (store root narrow digest) (hex_encode digest)
    ∷ (store root narrow digest).tmp_dir
    ∷ [])

abbrev spilling : World
spilling = world 5 full []

room_left :
    (find (slot_at root narrow digest 0) full.table ≡ some 0)
    × (there (slot_at root narrow digest 1) full ≡ false)
    × (find (staging root narrow digest spilling) full.table ≡ none)
    × (has_dir (staging root narrow digest spilling) full.dirs ≡ false)
    × (has_dir (store root narrow digest).tmp_dir full.dirs ≡ true)
    × (has_dir (shard_of (store root narrow digest) (hex_encode digest)) full.dirs ≡ true)
unfolding find has_dir metadata_of slot_path slot_filename decimal_03 hex_encode path_dec ℕ_discrete
room_left = (refl, refl, refl, refl, refl, refl)

spilling-CanSpill : CanSpill root narrow digest spilling
spilling-CanSpill = record {
  bounded = (omega arith, (omega arith, tt));
  no_staging = room_left.2;
  no_staging_dir = room_left.3;
  tmp_there = room_left.4;
  shard_there = room_left.5;
  some_links = omega arith;
}

one_slot : (j : ℕ) → j < 1 → (i : ℕ) × (find (slot_at root narrow digest j) full.table ≡ some i)
one_slot zero l = (0, room_left.0)
one_slot (suc j) l = absurd (omega arith)

acquire_slot-room_example :
    Acquired root narrow digest spilling 1
      (acquire_slot (store root narrow digest) digest (calm spilling))
acquire_slot-room_example =
    acquire_slot-room root narrow digest spilling 1 refl spilling-CanSpill digest-IsDigest
      (omega arith) one_slot room_left.1

abbrev new_one : RetryJob
new_one = record { target = target; slot_path = []; attempts = 0; retry_after = 100 }

once : Retries new_one 1 (retried 150 new_one)
once =
    again first (world 150 full [])
      (ap (λ r. r.0) (next_attempt_lem new_one (world 150 full []) (omega arith)))

Retries-bound_example :
    (◌≤◌ 1 2)
    × ((retried 150 new_one).attempts ≡ 1)
    × ((retried 150 new_one).target ≡ target)
    × ((retried 150 new_one).slot_path ≡ [])
Retries-bound_example = Retries-bound once refl
