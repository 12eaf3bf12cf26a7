-- ===== src/Tests/Values.antt =====
-- The values that the tests share: a volume with one workspace file, a digest and the parameters.
use i_tan_reclaim_space.Base.{
  ℕ, zero, suc, ◌<◌, ◌≡◌, refl, Bytes, List, [], ◌∷◌, ◌++◌, none, some, ltb, if◌then◌else◌, length,
  take, replicate, All, any, ◌==◌, codes, append-nil, append_assoc, arith, ap,
}
use i_tan_reclaim_space.Fs.Path.{text, FilePath}
use i_tan_reclaim_space.Fs.Table.{Table}
use i_tan_reclaim_space.Fs.State.{Fs}
use i_tan_reclaim_space.Fs.World.{World, unix}
use i_tan_reclaim_space.Capability.{VolumeCapability, LinkStrategy}
use i_tan_reclaim_space.Digest.{Hasher, IsHasher}
use i_tan_reclaim_space.Ingest.{InodeCache, cached}
use i_tan_reclaim_space.Ingest.Laws.{IsKeys}
use i_tan_reclaim_space.RetryJob.{RetryJob}
use i_tan_reclaim_space.RetryQueue.{Channel, IsChannel}
use i_tan_reclaim_space.Store.{CasStore, cas_store}
use i_tan_reclaim_space.Store.Hex.Laws.{IsDigest}

abbrev pub root : FilePath
root = []

abbrev pub capability : VolumeCapability
capability = record { volume_root = []; strategy = LinkStrategy.posix_hardlink; max_links = 64_000 }

abbrev pub a_store : CasStore
a_store = cas_store root capability

abbrev pub target : FilePath
target = text (codes "liba.so") ∷ text (codes "work") ∷ []

abbrev pub digest : Bytes
digest = replicate 32 7

All-replicate : (n : ℕ) → All (λ b. b < 256) (replicate n 7)
All-replicate zero = tt
All-replicate (suc n) = (omega arith, All-replicate n)

pub digest-IsDigest : IsDigest digest
digest-IsDigest = record { size = refl; bytes = All-replicate 32 }

-- A file system in which each inode has the same content.
abbrev pub volume : Bytes → Table → List FilePath → Fs
volume content table dirs = record {
  table = table;
  inode = λ i. record { content = content; mode = 0o644; mtime = 1_000 };
  next_ino = 10;
  dirs = dirs;
}

abbrev pub world : ℕ → Fs → List RetryJob → World
world now fs queue = record {
  os = unix;
  fs = fs;
  now = now;
  uuid = λ n. codes "0";
  next_uuid = 0;
  queue = queue;
  turns = [];
}

-- A hasher that keeps all bytes and shows the first 32.
abbrev pub a_hasher : Hasher
a_hasher = record { State = Bytes; new = []; update = λ s b. s ++ b; finalize = λ s. take 32 s }

pub a_hasher-IsHasher : IsHasher a_hasher
a_hasher-IsHasher = record {
  update_nil = λ s. append-nil s;
  update_append = λ s a b. append_assoc s a b;
}

abbrev pub a_channel : Channel RetryJob
a_channel = record {
  bounded = λ cap. [];
  try_send = λ cap q a. if ltb (length q) cap then some (q ++ (a ∷ [])) else none;
  try_recv = λ q. elim q [ [] ↦ none | a ∷ rest ↦ some (a, rest) ];
  len = length;
  is_empty = λ q. length q == 0;
}

pub a_channel-IsChannel : IsChannel a_channel
a_channel-IsChannel = record {
  first = λ cap. refl;
  send = λ cap q a. refl;
  recv_nil = refl;
  recv_cons = λ a q. refl;
  count = λ q. refl;
  count_none = λ q. refl;
}

abbrev pub keys_of : InodeCache → List ℕ
keys_of [] = []
keys_of ((k, s) ∷ cache) = k ∷ keys_of cache

length-keys_of : (cache : InodeCache) → length (keys_of cache) ≡ length cache
length-keys_of [] = refl
length-keys_of ((k, s) ∷ cache) = ap suc (length-keys_of cache)

any-keys_of : (k : ℕ) (cache : InodeCache) → any (k ==◌) (keys_of cache) ≡ cached k cache
unfolding cached
any-keys_of k [] = refl
any-keys_of k ((j, s) ∷ cache) = ground (arith, any-keys_of k cache)

pub keys_of-IsKeys : IsKeys keys_of
keys_of-IsKeys = record { each_once = length-keys_of; listed = any-keys_of }
