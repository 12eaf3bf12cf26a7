-- ===== src/Store/Slots.antt =====
-- `lookup`, `acquire_slot` and `spill_slot` of store.rs, and the link count that they go by.
use i_tan_reclaim_space.Base.{
  ℕ, zero, suc, ◌+◌, ◌^◌, Bytes, true, false, [], ◌∷◌, ◌++◌, Option, none, some, ltb, take, codes,
}
use i_tan_reclaim_space.Fs.Path.{Name, text, FilePath}
use i_tan_reclaim_space.Fs.State.{Metadata}
use i_tan_reclaim_space.Fs.World.{
  Platform, unix, windows, other, M, pure, throw, ◌>>=◌, ◌>>◌, map_err, attempt, new_uuid, platform,
}
use i_tan_reclaim_space.Fs.Calls.{metadata, exists, copy, rename, remove_file}
use i_tan_reclaim_space.Store.{
  CasStore, SlotRef, StoreError, invalid_digest, io, link_count_query, spill_copy, overflow,
}
use i_tan_reclaim_space.Store.Hex.{hex_encode, validate_digest_hex, slot_filename}

-- `platform_link_count`, which gc.rs repeats.
unfoldable pub platform_link_count : Platform → Metadata → ℕ
platform_link_count unix meta = meta.nlink
platform_link_count windows meta = 1
platform_link_count other meta = 1

unfoldable pub current_link_count_path : FilePath → M StoreError ℕ
unfolding platform_link_count
current_link_count_path path = do
  meta ← map_err (link_count_query path) (metadata path)
  os ← platform
  pure (platform_link_count os meta)

unfoldable pub current_link_count : SlotRef → M StoreError ℕ
unfolding current_link_count_path
current_link_count slot = current_link_count_path slot.path

-- `&digest_hex[..2]`
abbrev pub prefix_of : Bytes → Bytes
prefix_of digest_hex = take 2 digest_hex

abbrev pub shard_of : CasStore → Bytes → FilePath
shard_of s digest_hex = text (prefix_of digest_hex) ∷ s.objects_dir

-- `shard_dir.join(slot_filename(&digest_hex, slot_idx))`
unfoldable pub slot_path : FilePath → Bytes → ℕ → FilePath
unfolding slot_filename
slot_path shard_dir digest_hex slot_idx = text (slot_filename digest_hex slot_idx) ∷ shard_dir

abbrev pub slot_ref : Bytes → ℕ → FilePath → SlotRef
slot_ref digest_hex slot_idx path = record {
  prefix = prefix_of digest_hex;
  digest_hex = digest_hex;
  slot_idx = slot_idx;
  path = path;
}

-- The scan of `lookup` from `slot_idx` on. It stops behind the second index.
unfoldable pub lookup_from : ℕ → ℕ → FilePath → Bytes → M StoreError (Option SlotRef)
unfolding slot_path
lookup_from zero slot_idx shard_dir digest_hex = pure none
lookup_from (suc rounds) slot_idx shard_dir digest_hex = do
  let path = slot_path shard_dir digest_hex slot_idx
  here ← exists path
  elim here [
    | true ↦ pure (some (slot_ref digest_hex slot_idx path))
    | false ↦ elim (ltb 0 slot_idx) [
      | true ↦ pure none
      | false ↦ lookup_from rounds (slot_idx + 1) shard_dir digest_hex
    ]
  ]

unfoldable pub lookup : CasStore → Bytes → M StoreError (Option SlotRef)
unfolding lookup_from
lookup s digest_bytes =
    let digest_hex = hex_encode digest_bytes in
    elim (validate_digest_hex digest_hex) [
      | false ↦ throw invalid_digest
      | true ↦ do
        there ← exists (shard_of s digest_hex)
        elim there [
          | false ↦ pure none
          | true ↦ lookup_from (2 ^ 32) 0 (shard_of s digest_hex) digest_hex
        ]
    ]

abbrev pub spill_name : Bytes → Bytes → Name
spill_name digest_hex uuid =
    text (codes "spill_" ++ (digest_hex ++ (codes "_" ++ (uuid ++ codes ".stage"))))

-- `current.path.parent().expect(..)`; every slot path has a parent.
abbrev pub directory : FilePath → FilePath
directory [] = []
directory (n ∷ p) = p

-- The index behind 2^32 - 1 would wrap; a digest with so many slots is left out.
unfoldable pub spill_slot : CasStore → SlotRef → M StoreError SlotRef
unfolding slot_path
spill_slot s current = do
  let next_idx = current.slot_idx + 1
  let next_path = slot_path (directory current.path) current.digest_hex next_idx
  let next = record current { slot_idx = next_idx; path = next_path }
  spilled ← exists next_path
  elim spilled [
    | true ↦ pure next
    | false ↦ do
      uuid ← new_uuid
      let tmp_path = spill_name current.digest_hex uuid ∷ s.tmp_dir
      map_err (spill_copy current.path tmp_path) (copy current.path tmp_path)
      raced ← exists next_path
      elim raced [
        | true ↦ do _ ← attempt {F = StoreError} (remove_file tmp_path); pure next
        | false ↦ do map_err (io next_path) (rename tmp_path next_path); pure next
      ]
  ]

-- The loop of `acquire_slot` from `slot_idx` on, over the indices that a `u32` has left.
unfoldable pub acquire_from : ℕ → ℕ → CasStore → FilePath → Bytes → M StoreError SlotRef
unfolding slot_path current_link_count_path spill_slot
acquire_from zero slot_idx s shard_dir digest_hex = throw overflow
acquire_from (suc left) slot_idx s shard_dir digest_hex = do
  let path = slot_path shard_dir digest_hex slot_idx
  here ← exists path
  elim here [
    | false ↦ pure (slot_ref digest_hex slot_idx path)
    | true ↦ do
      lc ← current_link_count_path path
      elim (ltb lc s.max_links_per_slot) [
        | true ↦ pure (slot_ref digest_hex slot_idx path)
        | false ↦ do
          follows ← exists (slot_path shard_dir digest_hex (slot_idx + 1))
          elim follows [
            | false ↦ spill_slot s (slot_ref digest_hex slot_idx path)
            | true ↦ acquire_from left (slot_idx + 1) s shard_dir digest_hex
          ]
      ]
  ]

unfoldable pub acquire_slot : CasStore → Bytes → M StoreError SlotRef
unfolding acquire_from
acquire_slot s digest_bytes =
    let digest_hex = hex_encode digest_bytes in
    let shard_dir = shard_of s digest_hex in
    let first = slot_path shard_dir digest_hex 0 in
    elim (validate_digest_hex digest_hex) [
      | false ↦ throw invalid_digest
      | true ↦ do
        shard ← exists shard_dir
        slot ← elim shard [ true ↦ exists first | false ↦ pure false ]
        elim slot [
          | false ↦ pure (slot_ref digest_hex 0 first)
          | true ↦ acquire_from (2 ^ 32) 0 s shard_dir digest_hex
        ]
    ]
