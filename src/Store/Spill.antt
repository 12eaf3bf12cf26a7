-- ===== src/Store/Spill.antt =====
-- What spilling a slot does, in a run in which no call fails and no other process interferes.
use i_tan_reclaim_space.Base.{
  ℕ, suc, ◌+◌, ◌<◌, ◌≡◌, refl, ap, ◌∙◌, ◌⊎◌, Bytes, true, false, [], ◌∷◌, none, some, arith,
}
use i_tan_reclaim_space.Base.Results.{ok}
use i_tan_reclaim_space.Fs.Path.{FilePath}
use i_tan_reclaim_space.Fs.Table.{
  Table, find, bind, names, find-bind_other, find-bind_same, erase-bind,
}
use i_tan_reclaim_space.Fs.State.{has_dir, create}
use i_tan_reclaim_space.Fs.World.{World, calm, new_uuid}
use i_tan_reclaim_space.Fs.Runs.{>>=-ok, map_err-ok}
use i_tan_reclaim_space.Fs.Runs.Files.{
  there, exists-calm, has_parent-cons, there_absent, absent_there, copied, copy_fresh, rename_fresh,
  with_table,
}
use i_tan_reclaim_space.Capability.{VolumeCapability}
use i_tan_reclaim_space.Store.{CasStore}
use i_tan_reclaim_space.Store.Content.{Bounded}
use i_tan_reclaim_space.Store.Safety.{store, hex, slot_at, slot_at-NotStaged}
use i_tan_reclaim_space.Store.Slots.{shard_of, slot_ref, spill_name, spill_slot}

pub names-Bounded : (n : ℕ) (t : Table) → Bounded n t → names n t ≡ 0
unfolding names
names-Bounded n [] b = refl
names-Bounded n ((q, j) ∷ t) b = ground (arith, names-Bounded n t b.1)

module _ (root : FilePath) (capability : VolumeCapability) (d : Bytes) (w : World) where
  abbrev pub s : CasStore
  s = store root capability d

  abbrev pub at : ℕ → FilePath
  at = slot_at root capability d

  -- The staging file of a spill.
  abbrev pub staging : FilePath
  staging = spill_name (hex root capability d) (w.uuid w.next_uuid) ∷ s.tmp_dir

  -- The path can become a name of one more file with the links that the store allows.
  abbrev pub HasRoom : FilePath → World → Type 0
  HasRoom p v =
      (find p v.fs.table ≡ none)
      ⊎ ((i : ℕ) × (find p v.fs.table ≡ some i) × (names i v.fs.table < s.max_links_per_slot))

  -- The volume can take a spill: the staging file and the directories.
  pub record CanSpill : Type 0 where
    pub bounded : Bounded w.fs.next_ino w.fs.table
    pub no_staging : find staging w.fs.table ≡ none
    pub no_staging_dir : has_dir staging w.fs.dirs ≡ false
    pub tmp_there : has_dir s.tmp_dir w.fs.dirs ≡ true
    pub shard_there : has_dir (shard_of s (hex root capability d)) w.fs.dirs ≡ true
    pub some_links : 1 < s.max_links_per_slot

  -- The world after a spill.
  abbrev pub spilled : ℕ → ℕ → World
  spilled i k = record (copied staging i (record w { next_uuid = suc w.next_uuid })) {
    fs = record (copied staging i w).fs { table = bind (at k) w.fs.next_ino w.fs.table };
  }

  pub spill_slot-calm :
      (i k : ℕ)
      → CanSpill
      → find (at k) w.fs.table ≡ some i
      → there (at (k + 1)) w.fs ≡ false
      → spill_slot s (slot_ref (hex root capability d) k (at k)) (calm w)
        ≡ (ok (slot_ref (hex root capability d) (k + 1) (at (k + 1))), spilled i (k + 1))
  unfolding spill_slot create new_uuid
  spill_slot-calm i k c f a =
      >>=-ok _ _ (calm w) false (calm w) (exists-calm next w ∙ ap (λ b. (ok b, calm w)) a)
      ∙ >>=-ok _ _ (calm w) (w.uuid w.next_uuid) (calm named) refl
      ∙ >>=-ok _ _ (calm named) tt staged (
          map_err-ok _ _ (calm named) tt staged (
            copy_fresh (at k) staging i named f c.no_staging c.no_staging_dir
              (has_parent-cons _ s.tmp_dir named.fs ∙ c.tmp_there)))
      ∙ >>=-ok _ _ staged false staged (
          exists-calm next staged
          ∙ ap (λ b. (ok b, staged)) (there_absent next staged.fs still_absent gone.1))
      ∙ >>=-ok _ _ staged tt (spilled i (k + 1)) (
          map_err-ok _ _ staged tt (spilled i (k + 1)) (
            rename_fresh staging next w.fs.next_ino staged
              (find-bind_same staging w.fs.next_ino w.fs.table) still_absent gone.1
              (has_parent-cons _ (shard_of s (hex root capability d)) staged.fs ∙ c.shard_there)
            ∙ ap (λ t. (ok tt, with_table (bind next w.fs.next_ino t) staged))
                (erase-bind staging w.fs.next_ino w.fs.table c.no_staging)))
    where
      next : FilePath
      next = at (k + 1)

      named : World
      named = record w { next_uuid = suc w.next_uuid }

      staged : World
      staged = copied staging i named

      gone : (find next w.fs.table ≡ none) × (has_dir next w.fs.dirs ≡ false)
      gone = absent_there next w.fs a

      still_absent : find next (bind staging w.fs.next_ino w.fs.table) ≡ none
      still_absent =
          find-bind_other staging next w.fs.next_ino w.fs.table
            (slot_at-NotStaged root capability d (k + 1) _)
          ∙ gone.0
