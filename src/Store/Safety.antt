-- ===== src/Store/Safety.antt =====
-- `acquire_slot` never loses or corrupts content: whatever fails and whatever the surroundings do,
-- if they respect the trusted names, so does each of its steps, and the slot returned is one of
-- the digest's. The digest may be the one that the trusted names hold, or another.
use i_tan_reclaim_space.Base.{ℕ, zero, suc, ◌+◌, ◌^◌, ◌≡◌, refl, ◌≢◌, Bytes, ◌∷◌, ltb, arith}
use i_tan_reclaim_space.Fs.Path.{Name, FilePath}
use i_tan_reclaim_space.Fs.State.{Fs}
use i_tan_reclaim_space.Fs.Ensures.{
  Ensures, Keeps, >>=-Ensures, map_err-Ensures, attempt-Ensures, pure-Ensures, throw-Ensures,
  Bool-Ensures, exists-Keeps, metadata-Keeps, platform-Keeps, pure-Keeps, rename-Keeps,
  remove_file-Keeps, Holds,
}
use i_tan_reclaim_space.Fs.Quietly.{
  Under, Assures, Ensures-Under, pure-Leads, >>=-Leads, >>=-Assures, Bool-Leads, after-Leads,
  map_err-Leads, new_uuid-Assures,
}
use i_tan_reclaim_space.Fs.World.{M, pure}
use i_tan_reclaim_space.Fs.Calls.{rename, remove_file}
use i_tan_reclaim_space.Capability.{VolumeCapability}
use i_tan_reclaim_space.Store.{CasStore, SlotRef, StoreError, cas_store}
use i_tan_reclaim_space.Store.Hex.{hex_encode, validate_digest_hex}
use i_tan_reclaim_space.Store.Slots.{
  current_link_count_path, shard_of, slot_path, slot_ref, spill_name, spill_slot, acquire_from,
  acquire_slot,
}
use i_tan_reclaim_space.Store.Content.Copies.{
  With, old, fresh, Considers, Copied, Staged-IsSound, copy-Copied,
}
use i_tan_reclaim_space.Store.Content.{IsSound, rename_op-IsSound, remove_op-IsSound}

module _ (root : FilePath) (capability : VolumeCapability) (d : Bytes) where
  abbrev pub store : CasStore
  store = cas_store root capability

  abbrev pub hex : Bytes
  hex = hex_encode d

  -- The slot of the digest with an index.
  abbrev pub slot_at : ℕ → FilePath
  slot_at k = slot_path (shard_of store hex) hex k

  abbrev pub IsSlot : SlotRef → Type 0
  IsSlot slot = (k : ℕ) × (slot ≡ slot_ref hex k (slot_at k))

  pub slot_at-NotStaged : (k : ℕ) (n : Name) → slot_at k ≢ n ∷ store.tmp_dir
  unfolding slot_path
  slot_at-NotStaged k n e = ground arith

  module _ (hash : Bytes → Bytes) (held : Bytes) (Trusted Kept : FilePath → Type 0)
      (slots : (j k : ℕ) → Trusted (slot_at j) → Trusted (slot_at k))
      (untrusted : (n : Name) → Trusted (n ∷ store.tmp_dir) → ⊥)
      (loose : (n : Name) → Kept (n ∷ store.tmp_dir) → ⊥) (O : (Fs → Fs) → Type 0)
      (U : Bytes → Type 0) (Ours : Name → Type 0)
      (spilled : (u : Bytes) → U u → Ours (spill_name hex u))
      (considerate : (f : Fs → Fs)
        → O f
        → Considers hash held store.tmp_dir Trusted Kept Ours f) where
    abbrev Sound : Fs → Type 0
    Sound = IsSound hash held store.tmp_dir Trusted Kept

    assured :
        {E A : Type 0} {Q : A → Type 0} (m : M E A) → Ensures Sound Q m → Assures O U Sound Q m
    assured m h = Ensures-Under m (λ f o. (considerate f o).sound) h

    done :
        {E : Type 0} (k : ℕ) → Assures {E = E} O U Sound IsSlot (pure (slot_ref hex k (slot_at k)))
    done k = pure-Leads _ (λ fs v. (v, (k, refl)))

    pub current_link_count_path-Keeps : (p : FilePath) → Keeps Sound (current_link_count_path p)
    unfolding current_link_count_path
    current_link_count_path-Keeps p =
        >>=-Ensures _ _ (map_err-Ensures _ _ (metadata-Keeps p))
          (λ meta _. >>=-Ensures _ _ platform-Keeps (λ os _. pure-Keeps _))

    -- Once the staging file has been written.
    module _ (k : ℕ) (n : Name) (ours : Ours n) where
      abbrev Written : FilePath → Type 0
      Written = With store.tmp_dir Trusted (slot_at k) n

      published : Written (slot_at (k + 1)) → Written (n ∷ store.tmp_dir)
      published (old t) = fresh (slots (k + 1) k t) refl
      published (fresh t e) = absurd (slot_at-NotStaged (k + 1) n e)

      written-Ensures :
          {A : Type 0} {Q : A → Type 0} (m : M StoreError A)
          → Ensures (IsSound hash held store.tmp_dir Written Kept) Q m
          → Under O U
              (IsSound hash held store.tmp_dir Written Kept)
              (λ r fs. Sound fs × Holds Q r)
              m
      written-Ensures m h =
          after-Leads m
            (λ r fs c.
              (Staged-IsSound hash held store.tmp_dir Trusted Kept (slot_at k) n fs c.0, c.1))
            (Ensures-Under m (λ f o. (considerate f o).staged (slot_at k) n ours) h)

      removing :
          Keeps (IsSound hash held store.tmp_dir Written Kept) (remove_file (n ∷ store.tmp_dir))
      removing =
          remove_file-Keeps _ (remove_op-IsSound hash held store.tmp_dir Written Kept _ (loose n))

      renaming :
          Keeps
            (IsSound hash held store.tmp_dir Written Kept)
            (rename (n ∷ store.tmp_dir) (slot_at (k + 1)))
      renaming = rename-Keeps _ _ (
          rename_op-IsSound hash held store.tmp_dir Written Kept _ _ (slot_at-NotStaged (k + 1))
            (loose n) published)

    pub spill_slot-Assures :
        (k : ℕ) → Assures O U Sound IsSlot (spill_slot store (slot_ref hex k (slot_at k)))
    unfolding spill_slot
    spill_slot-Assures k = >>=-Assures _ _ (assured _ (exists-Keeps _)) λ there _.
        Bool-Leads there _ _ (λ _. done (k + 1))
          (λ _. >>=-Assures _ _ new_uuid-Assures λ uuid u.
            >>=-Leads _ _
              (map_err-Leads
                {R = Copied hash held store.tmp_dir Trusted Kept (slot_at k) (spill_name hex uuid)}
                _ _
                (copy-Copied hash held store.tmp_dir Trusted Kept (slot_at k) _
                  (slot_at-NotStaged k) (untrusted _) O U (λ f o. (considerate f o).sound))
                (λ a fs c. c) (λ e fs c. c))
              (λ _. written-Ensures k (spill_name hex uuid) (spilled uuid u) _ (
                >>=-Ensures _ _ (exists-Keeps _) λ raced _.
                  Bool-Ensures raced _ _
                    (>>=-Ensures _ _ (attempt-Ensures _ (removing k _ (spilled uuid u)))
                      λ _ _. pure-Ensures _ (k + 1, refl))
                    (>>=-Ensures _ _ (map_err-Ensures _ _ (renaming k _ (spilled uuid u)))
                      λ _ _. pure-Ensures _ (k + 1, refl))))
              (λ e fs c. (c, tt)))

    pub acquire_from-Assures :
        (left k : ℕ) → Assures O U Sound IsSlot (acquire_from left k store (shard_of store hex) hex)
    unfolding acquire_from
    acquire_from-Assures zero k = assured _ (throw-Ensures _)
    acquire_from-Assures (suc left) k = >>=-Assures _ _ (assured _ (exists-Keeps _)) λ here _.
        Bool-Leads here _ _
          (λ _. >>=-Assures _ _ (assured _ (current_link_count_path-Keeps _)) λ lc _.
            Bool-Leads (ltb lc store.max_links_per_slot) _ _ (λ _. done k)
              (λ _. >>=-Assures _ _ (assured _ (exists-Keeps _)) λ follows _.
                Bool-Leads follows _ _ (λ _. acquire_from-Assures left (k + 1))
                  (λ _. spill_slot-Assures k)))
          (λ _. done k)

    pub acquire_slot-Assures : Assures O U Sound IsSlot (acquire_slot store d)
    unfolding acquire_slot
    acquire_slot-Assures =
        Bool-Leads (validate_digest_hex hex) _ _
          (λ _. >>=-Assures _ _ (assured _ (exists-Keeps _)) λ shard _.
            >>=-Assures _ _ (assured _ (Bool-Ensures shard _ _ (exists-Keeps _) (pure-Keeps _)))
              λ slot _. Bool-Leads slot _ _ (λ _. acquire_from-Assures (2 ^ 32) 0) (λ _. done 0))
          (λ _. assured _ (throw-Ensures _))
