-- ===== src/Tests/Slots.antt =====
-- Names, digests, verdicts and the retry queue.
use i_tan_reclaim_space.Base.{
  ℕ, ◌≤◌, ◌≡◌, refl, Bytes, true, false, [], ◌∷◌, none, some, length, replicate, codes, arith, all,
  ◌↔◌, ℕ_discrete,
}
use i_tan_reclaim_space.Base.Results.{ok}
use i_tan_reclaim_space.Fs.Path.{text, path_dec}
use i_tan_reclaim_space.Fs.Table.{find}
use i_tan_reclaim_space.Fs.State.{metadata_of, has_dir}
use i_tan_reclaim_space.Fs.World.{World, calm, query, syscall, take_turn, ◌>>=◌}
use i_tan_reclaim_space.Fs.Calls.{exists, metadata}
use i_tan_reclaim_space.Capability.{LinkStrategy}
use i_tan_reclaim_space.Digest.{hash_of, boundary_hash, full_cas_digest}
use i_tan_reclaim_space.Digest.Laws.{sampled, boundary_hash-hash_of, full_cas_digest-hash_of}
use i_tan_reclaim_space.Gc.{quarantine_name, strip_quarantine_prefix}
use i_tan_reclaim_space.Gc.Names.{strip_quarantine_prefix-quarantine_name}
use i_tan_reclaim_space.Ingest.{
  cached, cache_inode, evaluate, new_pipeline, max_inode_cache_entries,
}
use i_tan_reclaim_space.Ingest.Laws.{cache_inode-bound, evaluate-lookup, with_boundary}
use i_tan_reclaim_space.RetryJob.{RetryJob}
use i_tan_reclaim_space.RetryQueue.{drain_ready}
use i_tan_reclaim_space.RetryQueue.Drain.{drain_ready_lem}
use i_tan_reclaim_space.Store.Hex.{
  hex_encode, validate_digest_hex, is_ascii_hexdigit, parse_digest_from_hex,
}
use i_tan_reclaim_space.Store.Hex.Laws.{
  slot_filename_injective, parse_digest_from_hex-hex_encode, validate_digest_hex_iff,
}
use i_tan_reclaim_space.Store.Slots.{slot_ref, lookup}
use i_tan_reclaim_space.Verdict.{unique}
use i_tan_reclaim_space.Whitelist.{whitelisted, classify_path}
use i_tan_reclaim_space.Whitelist.Laws.{classify_path-to_ascii_lowercase}
use i_tan_reclaim_space.Tests.Values.{
  a_store, target, digest, digest-IsDigest, volume, world, a_hasher, a_hasher-IsHasher, a_channel,
  a_channel-IsChannel, keys_of, keys_of-IsKeys,
}

abbrev wide : ℕ
wide = 1_000

slot_filename_injective_example : (digest ≡ digest) × (wide ≡ wide)
slot_filename_injective_example =
    slot_filename_injective digest digest wide wide digest-IsDigest digest-IsDigest (omega arith)
      (omega arith) refl

parse_digest_from_hex-hex_encode_example : parse_digest_from_hex (hex_encode digest) ≡ some digest
parse_digest_from_hex-hex_encode_example = parse_digest_from_hex-hex_encode digest digest-IsDigest

abbrev upper_hex : Bytes
upper_hex = replicate 64 b'A'

validate_digest_hex_iff_example :
    (validate_digest_hex upper_hex ≡ true)
    ↔ ((length upper_hex ≡ 64) × (all is_ascii_hexdigit upper_hex ≡ true))
validate_digest_hex_iff_example = validate_digest_hex_iff upper_hex

strip_quarantine_prefix-quarantine_name_example :
    strip_quarantine_prefix (quarantine_name 1_500 (codes "ab_s000")) ≡ codes "ab_s000"
strip_quarantine_prefix-quarantine_name_example =
    strip_quarantine_prefix-quarantine_name 1_500 (codes "ab_s000") (λ e. ground arith)

classify_path-to_ascii_lowercase_example :
    classify_path (text (codes "liba.so") ∷ []) ≡ classify_path (text (codes "LibA.SO") ∷ [])
classify_path-to_ascii_lowercase_example = classify_path-to_ascii_lowercase (codes "LibA.SO") []

abbrev early : RetryJob
early = record { target = target; slot_path = []; attempts = 0; retry_after = 100 }

abbrev late : RetryJob
late = record { target = target; slot_path = []; attempts = 1; retry_after = 900 }

abbrev queueing : World
queueing = world 500 (volume [] [] []) (late ∷ early ∷ [])

drain_ready_lem_example :
    drain_ready a_channel {E = ℕ} queueing
    ≡ (ok (early ∷ []), record queueing { queue = late ∷ [] })
drain_ready_lem_example = drain_ready_lem a_channel a_channel-IsChannel ℕ queueing (omega arith)

abbrev big : Bytes
big = replicate 4_096 7

abbrev scanning : World
scanning = world 500 (volume big ((target, 1) ∷ []) ((text (codes "work") ∷ []) ∷ [] ∷ [])) []

found : find target scanning.fs.table ≡ some 1
unfolding find path_dec ℕ_discrete
found = refl

full_cas_digest-hash_of_example :
    full_cas_digest a_hasher (λ n. 1_000) target LinkStrategy.posix_hardlink (calm scanning)
    ≡ (ok (hash_of a_hasher big), calm scanning)
full_cas_digest-hash_of_example =
    full_cas_digest-hash_of a_hasher (λ n. 1_000) a_hasher-IsHasher target
      LinkStrategy.posix_hardlink 1 scanning found (omega arith)

boundary_hash-hash_of_example :
    boundary_hash a_hasher target (calm scanning)
    ≡ (ok (hash_of a_hasher (sampled big)), calm scanning)
boundary_hash-hash_of_example =
    boundary_hash-hash_of a_hasher target 1 scanning a_hasher-IsHasher found

cache_inode-bound_example :
    (length (cache_inode keys_of 1 (slot_ref [] 0 []) []) ≤ max_inode_cache_entries)
    × (cached 1 (cache_inode keys_of 1 (slot_ref [] 0 []) []) ≡ true)
cache_inode-bound_example =
    cache_inode-bound keys_of keys_of-IsKeys 1 (slot_ref [] 0 []) [] (omega arith)

no_slot : lookup a_store (hash_of a_hasher big) (calm scanning) ≡ (ok none, calm scanning)
unfolding lookup hash_of hex_encode validate_digest_hex exists metadata metadata_of query syscall
    take_turn ◌>>=◌ find path_dec ℕ_discrete has_dir
no_slot = refl

whitelisted_target : classify_path target ≡ whitelisted
unfolding classify_path
whitelisted_target = refl

uncached : cached 1 [] ≡ false
unfolding cached
uncached = refl

abbrev b_hash : Bytes
b_hash = hash_of a_hasher (sampled big)

evaluate-lookup_example :
    evaluate keys_of a_hasher
      (λ n. 1_000)
      target
      (new_pipeline a_store LinkStrategy.posix_hardlink)
      (calm scanning)
    ≡ (
      ok (unique, with_boundary b_hash (new_pipeline a_store LinkStrategy.posix_hardlink)),
      calm scanning,
    )
evaluate-lookup_example =
    evaluate-lookup keys_of a_hasher (λ n. 1_000) a_hasher-IsHasher target 1 scanning found
      (omega arith) (new_pipeline a_store LinkStrategy.posix_hardlink) none refl whitelisted_target
      (omega arith) uncached no_slot
