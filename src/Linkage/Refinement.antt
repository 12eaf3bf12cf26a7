-- ===== src/Linkage/Refinement.antt =====
-- The store as a map from digests to slots: publishing is an insertion into it, and a lookup reads it.
use mathlib.Core.Path.{subst}
use i_tan_reclaim_space.Base.{
  ℕ, ◌<◌, ◌≡◌, ◌≢◌, sym, ap, ◌∙◌, Bytes, Bool, true, ◌∷◌, Option, none, some, length, arith,
  if◌then◌else◌, ite, ℕ_discrete,
}
use i_tan_reclaim_space.Base.Results.{ok}
use i_tan_reclaim_space.Fs.Path.{Name, FilePath}
use i_tan_reclaim_space.Fs.Table.{find, find-bind_other}
use i_tan_reclaim_space.Fs.State.{Fs, has_dir, ancestors_in, metadata_of}
use i_tan_reclaim_space.Fs.World.{World, calm}
use i_tan_reclaim_space.Fs.Runs.Dirs.{has_dir_deeper, has_dir_kept}
use i_tan_reclaim_space.Fs.Runs.Files.{there}
use i_tan_reclaim_space.Capability.{VolumeCapability}
use i_tan_reclaim_space.Linkage.{publish_new_master}
use i_tan_reclaim_space.Linkage.Publish.{
  s, shard, first, master, CanPublish, published, publish_new_master-lookup,
}
use i_tan_reclaim_space.Store.{SlotRef}
use i_tan_reclaim_space.Store.Hex.{hex_encode}
use i_tan_reclaim_space.Store.Hex.Laws.{IsDigest, slot_filename_injective}
use i_tan_reclaim_space.Store.Lookup.{lookup_lem}
use i_tan_reclaim_space.Store.Slots.{shard_of, slot_path, slot_ref, lookup}

unfoldable pub bytes_dec : Discrete Bytes
bytes_dec = hlevel ℕ_discrete

-- What stands below a directory stands in one that is there.
pub record IsRooted (fs : Fs) : Type 0 where
  pub directory : (n : Name) (p : FilePath) → there (n ∷ p) fs ≡ true → there p fs ≡ true

by_cases : {P A : Type 0} (b : Dec P) (x y z : A) → (P → x ≡ y) → (¬ P → x ≡ z) → x ≡ ite b y z
by_cases (yes p) x y z f g = f p
by_cases (no n) x y z f g = g n

-- Whether something is there depends on the names and the directories.
there-eq :
    (p : FilePath) (a b : Fs)
    → find p a.table ≡ find p b.table
    → has_dir p a.dirs ≡ has_dir p b.dirs
    → there p a ≡ there p b
unfolding metadata_of
there-eq p a b f d = ground arith

there_grown :
    (p : FilePath) (a b : Fs)
    → find p a.table ≡ find p b.table
    → (has_dir p a.dirs ≡ true → has_dir p b.dirs ≡ true)
    → there p a ≡ true
    → there p b ≡ true
unfolding metadata_of
there_grown p a b f d t = ground arith

-- The answer of a lookup, from what is there: the shard, and the slots with the indices 0 and 1.
answer : Bool → Bool → Bool → SlotRef → SlotRef → Option SlotRef
answer shard x y a b = if shard then (if x then some a else if y then some b else none) else none

answer-eq :
    (h k x y : Bool) (a b : SlotRef)
    → (h ≡ true → k ≡ true)
    → (x ≡ true → h ≡ true)
    → (y ≡ true → h ≡ true)
    → answer k x y a b ≡ answer h x y a b
unfolding answer
answer-eq h k x y a b g p q = ground (arith, g, p, q)

module _ (root : FilePath) (capability : VolumeCapability) (d : Bytes) (source : FilePath) (i : ℕ)
    (w : World) (c : CanPublish root capability d source i w) (e : Bytes) (digest : IsDigest e)
    (ne : e ≢ d) where
  abbrev shard_e : FilePath
  shard_e = shard_of (s root capability d source i w) (hex_encode e)

  abbrev slot_e : ℕ → FilePath
  slot_e k = slot_path shard_e (hex_encode e) k

  after : Fs
  after = (published root capability d source i w).fs

  elsewhere : (k : ℕ) → k < 2 → slot_e k ≢ first root capability d source i w
  unfolding slot_path
  elsewhere k l q =
      ne
        (slot_filename_injective e d k 0 digest c.digest (omega (arith, l)) (omega arith)
          (ground (arith, q))).0

  slot_kept : (k : ℕ) → k < 2 → there (slot_e k) after ≡ there (slot_e k) w.fs
  unfolding slot_path after
  slot_kept k l =
      there-eq (slot_e k) after w.fs
        (find-bind_other (first root capability d source i w) (slot_e k) w.fs.next_ino w.fs.table
          (elsewhere k l))
        (has_dir_deeper (shard root capability d source i w) (slot_e k) w.fs.dirs (omega arith))

  shard_kept : there shard_e w.fs ≡ true → there shard_e after ≡ true
  unfolding slot_path after
  shard_kept h =
      there_grown shard_e w.fs after
        (sym (
          find-bind_other (first root capability d source i w) shard_e w.fs.next_ino w.fs.table
            deeper))
        (has_dir_kept shard_e (ancestors_in (shard root capability d source i w)) w.fs.dirs) h
    where
      deeper : shard_e ≢ first root capability d source i w
      deeper q =
          let l : length shard_e ≡ length (first root capability d source i w) = ap length q in
          omega (arith, l)

  lookup-answer :
      (v : World)
      → lookup (s root capability d source i w) e (calm v) ≡ (
        ok (
            answer
              (there shard_e v.fs)
              (there (slot_e 0) v.fs)
              (there (slot_e 1) v.fs)
              (slot_ref (hex_encode e) 0 (slot_e 0))
              (slot_ref (hex_encode e) 1 (slot_e 1))),
        calm v,
      )
  unfolding answer
  lookup-answer v = lookup_lem (s root capability d source i w) e v digest

  other_kept :
      IsRooted w.fs
      → (lookup (s root capability d source i w) e (published root capability d source i w)).0
        ≡ (lookup (s root capability d source i w) e (calm w)).0
  unfolding slot_path after
  other_kept rooted =
      ap (λ r. r.0) (lookup-answer (published root capability d source i w))
      ∙ rw (slot_kept 0 (omega arith), slot_kept 1 (omega arith))
          (ap ok (
            answer-eq (there shard_e w.fs) (there shard_e after) (there (slot_e 0) w.fs)
              (there (slot_e 1) w.fs) _ _ shard_kept (rooted.directory _ shard_e)
              (rooted.directory _ shard_e)))
      ∙ sym (ap (λ r. r.0) (lookup-answer w))

-- Publishing a digest inserts it into the map that lookups read: from then on a lookup of that digest finds its first
-- slot, and a lookup of any other digest answers as before. The digest can be published, the digest that is looked up
-- has 32 bytes, and whatever stands below a directory stands in one that is there; in runs in which no call fails and
-- no other process interferes.
pub publish_new_master-insert :
    (root : FilePath) (capability : VolumeCapability) (d : Bytes) (source : FilePath) (i : ℕ)
    (w : World)
    → CanPublish root capability d source i w
    → IsRooted w.fs
    → (e : Bytes) → IsDigest e
    → (lookup
        (s root capability d source i w)
        e
        (publish_new_master (s root capability d source i w) source d (calm w)).1).0
      ≡ ite
          (bytes_dec e d)
          (ok (some (master root capability d source i w)))
          (lookup (s root capability d source i w) e (calm w)).0
publish_new_master-insert root capability d source i w c rooted e digest =
    ap (λ r. (lookup (s root capability d source i w) e r.1).0) outcome.0
    ∙ by_cases (bytes_dec e d) _ _ _
        (λ q.
          subst
            (λ x.
              (lookup (s root capability d source i w) x after).0
              ≡ ok (some (master root capability d source i w)))
            (sym q) (ap (λ r. r.0) outcome.1))
        (λ ne. other_kept root capability d source i w c e digest ne rooted)
  where
    after : World
    after = published root capability d source i w

    outcome :
        (publish_new_master (s root capability d source i w) source d (calm w)
          ≡ (ok (master root capability d source i w), after))
        × (lookup (s root capability d source i w) d after
            ≡ (ok (some (master root capability d source i w)), after))
    outcome = let r = publish_new_master-lookup root capability d source i w c in (r.0, r.1)
