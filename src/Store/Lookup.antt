-- ===== src/Store/Lookup.antt =====
-- What a lookup finds, in a run in which no call fails and no other process interferes.
use i_tan_reclaim_space.Base.{
  ℕ, suc, ◌<◌, true, lt→ltb, ◌≡◌, refl, ◌∙◌, ap, Bytes, false, Option, none, some, if◌then◌else◌,
}
use i_tan_reclaim_space.Base.Results.{ok}
use i_tan_reclaim_space.Fs.Path.{FilePath}
use i_tan_reclaim_space.Fs.State.{Fs}
use i_tan_reclaim_space.Fs.World.{World, calm, unix, platform}
use i_tan_reclaim_space.Fs.Runs.Files.{there, exists-calm, there_found}
use i_tan_reclaim_space.Fs.Runs.{branch, branch_true, >>=-ok, map_err-ok, metadata-calm}
use i_tan_reclaim_space.Fs.Table.{find, names}
use i_tan_reclaim_space.Store.{CasStore, SlotRef}
use i_tan_reclaim_space.Store.Hex.{hex_encode, validate_digest_hex}
use i_tan_reclaim_space.Store.Hex.Laws.{IsDigest, validate_digest_hex-hex_encode}
use i_tan_reclaim_space.Store.Slots.{
  shard_of, slot_path, slot_ref, lookup_from, lookup, acquire_slot, acquire_from,
  current_link_count_path, platform_link_count,
}

-- The first of the slots with the indices 0 and 1 that is there.
abbrev pub first_slot : FilePath → Bytes → Fs → Option SlotRef
first_slot shard hex fs =
    if there (slot_path shard hex 0) fs
    then some (slot_ref hex 0 (slot_path shard hex 0))
    else if there (slot_path shard hex 1) fs
    then some (slot_ref hex 1 (slot_path shard hex 1))
    else none

lookup_from-calm :
    (rounds : ℕ) (shard : FilePath) (hex : Bytes) (w : World)
    → lookup_from (suc (suc rounds)) 0 shard hex (calm w) ≡ (ok (first_slot shard hex w.fs), calm w)
unfolding lookup_from
lookup_from-calm rounds shard hex w =
    >>=-ok _ _ (calm w) _ (calm w) (exists-calm (slot_path shard hex 0) w)
    ∙ branch (there (slot_path shard hex 0) w.fs) _ _ (calm w) _ (λ e. rw e refl)
        (λ e.
          >>=-ok _ _ (calm w) _ (calm w) (exists-calm (slot_path shard hex 1) w)
          ∙ branch (there (slot_path shard hex 1) w.fs) _ _ (calm w) _ (λ f. rw (e, f) refl)
              (λ f. rw (e, f) refl))

-- The lookup of a digest of 32 bytes finds the first of the slots with the indices 0 and 1 that is
-- there, if the shard is, and nothing else; it always succeeds and changes nothing. In this run no
-- call fails and no other process interferes.
pub lookup_lem :
    (s : CasStore) (d : Bytes) (w : World)
    → IsDigest d
    → lookup s d (calm w) ≡ (
      ok (
          if there (shard_of s (hex_encode d)) w.fs
          then first_slot (shard_of s (hex_encode d)) (hex_encode d) w.fs
          else none),
      calm w,
    )
unfolding lookup
lookup_lem s d w v =
    branch (validate_digest_hex (hex_encode d)) _ _ (calm w) _
      (λ e.
        >>=-ok _ _ (calm w) _ (calm w) (exists-calm (shard_of s (hex_encode d)) w)
        ∙ branch (there (shard_of s (hex_encode d)) w.fs) _ _ (calm w) _
            (λ f.
              lookup_from-calm 4_294_967_294 (shard_of s (hex_encode d)) (hex_encode d) w
              ∙ rw f refl)
            (λ f. rw f refl))
      (λ e. absurd (contradiction e))
  where
    contradiction : validate_digest_hex (hex_encode d) ≡ false → ⊥
    contradiction e = cc (e, validate_digest_hex-hex_encode d v)

-- A digest without a first slot is given that one.
pub acquire_slot_first :
    (s : CasStore) (d : Bytes) (w : World)
    → IsDigest d
    → there (slot_path (shard_of s (hex_encode d)) (hex_encode d) 0) w.fs ≡ false
    → acquire_slot s d (calm w) ≡ (
      ok (slot_ref (hex_encode d) 0 (slot_path (shard_of s (hex_encode d)) (hex_encode d) 0)),
      calm w,
    )
unfolding acquire_slot
acquire_slot_first s d w v a =
    branch_true _ _ _ (calm w) (validate_digest_hex-hex_encode d v)
    ∙ >>=-ok _ _ (calm w) _ (calm w) (exists-calm (shard_of s (hex_encode d)) w)
    ∙ >>=-ok _ _ (calm w) false (calm w) (
        branch (there (shard_of s (hex_encode d)) w.fs) _ _ (calm w) _
          (λ e.
            exists-calm (slot_path (shard_of s (hex_encode d)) (hex_encode d) 0) w
            ∙ ap (λ b. (ok b, calm w)) a)
          (λ e. refl))

pub current_link_count_path-calm :
    (p : FilePath) (i : ℕ) (w : World)
    → w.os ≡ unix
    → find p w.fs.table ≡ some i
    → current_link_count_path p (calm w) ≡ (ok (names i w.fs.table), calm w)
unfolding current_link_count_path platform platform_link_count
current_link_count_path-calm p i w u f =
    >>=-ok _ _ (calm w) _ (calm w) (map_err-ok _ _ (calm w) _ (calm w) (metadata-calm p i w f))
    ∙ >>=-ok platform _ (calm w) unix (calm w) (ap (λ o. (ok o, calm w)) u)

acquire_from_first :
    (left : ℕ) (s : CasStore) (hex : Bytes) (dir : FilePath) (i : ℕ) (w : World)
    → w.os ≡ unix
    → find (slot_path dir hex 0) w.fs.table ≡ some i
    → names i w.fs.table < s.max_links_per_slot
    → acquire_from (suc left) 0 s dir hex (calm w)
      ≡ (ok (slot_ref hex 0 (slot_path dir hex 0)), calm w)
unfolding acquire_from
acquire_from_first left s hex dir i w u f l =
    >>=-ok _ _ (calm w) true (calm w)
      (exists-calm (slot_path dir hex 0) w ∙ ap (λ b. (ok b, calm w)) (there_found _ i w.fs f))
    ∙ >>=-ok _ _ (calm w) (names i w.fs.table) (calm w)
        (current_link_count_path-calm (slot_path dir hex 0) i w u f)
    ∙ branch_true _ _ _ (calm w) (lt→ltb _ _ l)

-- A digest whose first slot takes one more link is given that one.
pub acquire_slot_room :
    (s : CasStore) (d : Bytes) (i : ℕ) (w : World)
    → IsDigest d
    → w.os ≡ unix
    → there (shard_of s (hex_encode d)) w.fs ≡ true
    → find (slot_path (shard_of s (hex_encode d)) (hex_encode d) 0) w.fs.table ≡ some i
    → names i w.fs.table < s.max_links_per_slot
    → acquire_slot s d (calm w) ≡ (
      ok (slot_ref (hex_encode d) 0 (slot_path (shard_of s (hex_encode d)) (hex_encode d) 0)),
      calm w,
    )
unfolding acquire_slot
acquire_slot_room s d i w v u h f l =
    branch_true _ _ _ (calm w) (validate_digest_hex-hex_encode d v)
    ∙ >>=-ok _ _ (calm w) true (calm w)
        (exists-calm (shard_of s (hex_encode d)) w ∙ ap (λ b. (ok b, calm w)) h)
    ∙ >>=-ok _ _ (calm w) true (calm w) (
        exists-calm (slot_path (shard_of s (hex_encode d)) (hex_encode d) 0) w
        ∙ ap (λ b. (ok b, calm w)) (there_found _ i w.fs f))
    ∙ acquire_from_first 4_294_967_295 s (hex_encode d) (shard_of s (hex_encode d)) i w u f l
