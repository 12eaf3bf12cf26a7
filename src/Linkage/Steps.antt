-- ===== src/Linkage/Steps.antt =====
-- Each step of `AtomicLinkagePipeline::apply` keeps what the names hold that are trusted with a
-- digest, be it the digest of the file that `apply` works on or another, and keeps the names that
-- must never be absent.
use mathlib.Core.Path.{subst}
use i_tan_reclaim_space.Base.{ℕ, ◌≡◌, refl, sym, Bytes, false, ◌∷◌, some}
use i_tan_reclaim_space.Base.Results.{Result, ok, err, unwrap_or}
use i_tan_reclaim_space.Fs.Path.{Name, FilePath}
use i_tan_reclaim_space.Fs.State.{Fs, IoError}
use i_tan_reclaim_space.Fs.World.{M, pure, throw, ◌>>=◌, attempt, map_err}
use i_tan_reclaim_space.Fs.Calls.{create_dir_all, remove_file, hard_link, rename}
use i_tan_reclaim_space.Fs.Ensures.{
  Ensures, Keeps, >>=-Ensures, map_err-Ensures, attempt-Ensures, pure-Keeps, throw-Ensures,
  Bool-Ensures, exists-Keeps, metadata-Keeps, platform-Keeps, Holds, rename-Keeps,
  remove_file-Keeps, hard_link-Ensures, Holds-Ensures, create_dir_all-Keeps, Result-Ensures,
}
use i_tan_reclaim_space.Capability.{VolumeCapability}
use i_tan_reclaim_space.Permissions.Keeps.{
  is_executable-Keeps, enforce_read_only-Keeps, strip_read_only-Keeps,
}
use i_tan_reclaim_space.RetryJob.{RetryJob}
use i_tan_reclaim_space.RetryQueue.{Channel}
use i_tan_reclaim_space.RetryQueue.Keeps.{new_job-Keeps, enqueue-Keeps}
use i_tan_reclaim_space.Store.{SlotRef}
use i_tan_reclaim_space.Store.Content.Copies.{
  With, old, fresh, Considers, Copied, Staged-IsSound, copy-Copied,
}
use i_tan_reclaim_space.Fs.Quietly.{
  Under, Assures, Ensures-Under, >>=-Leads, >>=-Assures, Bool-Leads, after-Leads, map_err-Leads,
  map_err-Assures, new_uuid-Assures,
}
use i_tan_reclaim_space.Store.Content.{
  IsSound, chmod_op-IsSound, mkdir_op-IsSound, remove_op-IsSound, link_op-IsSound, link_op-free,
  rename_op-IsSound,
}
use i_tan_reclaim_space.Store.Hex.{hex_encode, parse_digest_from_hex}
use i_tan_reclaim_space.Store.Safety.{
  store, hex, slot_at, IsSlot, slot_at-NotStaged, acquire_slot-Assures,
}
use i_tan_reclaim_space.Store.Slots.{slot_ref, acquire_slot, directory, spill_name}
use i_tan_reclaim_space.Linkage.{
  LinkError, io, RenameError, exists_already, failed, atomic_rename_noreplace, sibling_tmp_link,
  can_strip_target_readonly, stage_name, seal, publish_new_master, defer_or_fail, swap_in,
  link_to_master, apply, transient,
}
use i_tan_reclaim_space.Verdict.{IngestVerdict, bypass, unique, duplicate}
use i_tan_reclaim_space.Linkage.Fits.{staging, slot, Fits, sibling_tmp_link-NotStaged, Carries}

-- What is done with names that are trusted, whichever they are.
module _ (root : FilePath) (capability : VolumeCapability) (d : Bytes) (hash : Bytes → Bytes)
    (held : Bytes) (T K : FilePath → Type 0)
    (loose : (n : Name) → K (n ∷ (store root capability d).tmp_dir) → ⊥) where
  abbrev staging_dir : FilePath
  staging_dir = (store root capability d).tmp_dir

  abbrev Held : Fs → Type 0
  Held = IsSound hash held staging_dir T K

  seal-Keeps : (p : FilePath) → Keeps Held (seal p)
  unfolding seal
  seal-Keeps p = >>=-Ensures _ _ (attempt-Ensures _ (is_executable-Keeps p)) λ exec _.
      map_err-Ensures _ _
        (enforce_read_only-Keeps p (chmod_op-IsSound hash held staging_dir T K p) _)

  remove_staged-Keeps : (n : Name) → Keeps Held (remove_file (n ∷ staging_dir))
  remove_staged-Keeps n =
      remove_file-Keeps _ (remove_op-IsSound hash held staging_dir T K _ (loose n))

  finish-Keeps :
      (sl : SlotRef) (n : Name) (r : Result RenameError (Unit {0}))
      → Keeps Held (elim r [
        | ok _ ↦ seal sl.path >>= λ _. pure sl
        | err exists_already ↦
            attempt {F = LinkError} (remove_file (n ∷ staging_dir)) >>= λ _. pure sl
        | err (failed e) ↦
            attempt {F = LinkError} (remove_file (n ∷ staging_dir)) >>= λ _. throw (io sl.path e)
      ])
  finish-Keeps sl n (ok _) = >>=-Ensures _ _ (seal-Keeps _) (λ _ _. pure-Keeps _)
  finish-Keeps sl n (err exists_already) =
      >>=-Ensures _ _ (attempt-Ensures _ (remove_staged-Keeps n)) (λ _ _. pure-Keeps _)
  finish-Keeps sl n (err (failed e)) =
      >>=-Ensures _ _ (attempt-Ensures _ (remove_staged-Keeps n)) (λ _ _. throw-Ensures _)

  -- A staging file with what a slot is to hold becomes the slot.
  module _ (n : Name)
      (moved : (k : ℕ) → T (slot_at root capability d k) → T (n ∷ staging_dir)) where
    atomic_rename_noreplace-Keeps :
        (k : ℕ)
        → Keeps Held (atomic_rename_noreplace (n ∷ staging_dir) (slot_at root capability d k))
    unfolding atomic_rename_noreplace
    atomic_rename_noreplace-Keeps k = >>=-Ensures _ _ (exists-Keeps _) λ there _.
        Bool-Ensures there _ _ (throw-Ensures _) (
          map_err-Ensures _ _ (
            rename-Keeps _ _ (
              rename_op-IsSound hash held staging_dir T K _ _
                (slot_at-NotStaged root capability d k) (loose n) (moved k))))

    publish_staged-Keeps :
        (sl : SlotRef)
        → IsSlot root capability d sl
        → Keeps Held (atomic_rename_noreplace (n ∷ staging_dir) sl.path)
    publish_staged-Keeps sl (k, e) =
        subst (λ (x : SlotRef). Keeps Held (atomic_rename_noreplace (n ∷ staging_dir) x.path))
          (sym e) (atomic_rename_noreplace-Keeps k)

module _ (root : FilePath) (capability : VolumeCapability) (d : Bytes) (hash : Bytes → Bytes)
    (held : Bytes) (target : FilePath) (T K : FilePath → Type 0) (fits : Fits root d target T K)
    (O : (Fs → Fs) → Type 0) (U : Bytes → Type 0) (Ours : Name → Type 0)
    (names : (u : Bytes)
      → U u
      → Ours (stage_name (hex_encode d) u) × Ours (spill_name (hex_encode d) u))
    (considerate : (f : Fs → Fs) → O f → Considers hash held (staging root) T K Ours f) where
  abbrev tmp : FilePath
  tmp = (store root capability d).tmp_dir

  abbrev pub Intact : Fs → Type 0
  Intact = IsSound hash held tmp T K

  assured :
      {E A : Type 0} {Q : A → Type 0} (m : M E A) → Ensures Intact Q m → Assures O U Intact Q m
  assured m h = Ensures-Under m (λ f o. (considerate f o).sound) h

  acquired :
      Assures O U Intact (IsSlot root capability d) (acquire_slot (store root capability d) d)
  acquired =
      acquire_slot-Assures root capability d hash held T K
        (λ j k. fits.group _ _ (slot j refl) (slot k refl)) fits.untrusted fits.loose O U Ours
        (λ u o. (names u o).1) considerate

  -- Once the staging file has been written.
  module _ (n : Name) (ours : Ours n) where
    abbrev Written : FilePath → Type 0
    Written = With tmp T target n

    written_slot : (k : ℕ) → Written (slot_at root capability d k) → Written (n ∷ tmp)
    written_slot k (old t) = fresh (fits.source _ (slot k refl) t) refl
    written_slot k (fresh t e) = absurd (slot_at-NotStaged root capability d k n e)

    publish_written :
        (sl : SlotRef)
        → IsSlot root capability d sl
        → Under O U
            (IsSound hash held tmp Written K)
            (λ r fs. Intact fs × Holds (λ _. Unit {0}) r)
            (map_err (io (directory sl.path)) (create_dir_all (directory sl.path)) >>= λ _.
              attempt (atomic_rename_noreplace (n ∷ tmp) sl.path) >>= λ renamed. elim renamed [
                | ok _ ↦ seal sl.path >>= λ _. pure sl
                | err exists_already ↦
                    attempt {F = LinkError} (remove_file (n ∷ tmp)) >>= λ _. pure sl
                | err (failed e) ↦
                    attempt {F = LinkError} (remove_file (n ∷ tmp)) >>= λ _. throw (io sl.path e)
              ])
    publish_written sl i =
        after-Leads _ (λ r fs c. (Staged-IsSound hash held tmp T K target n fs c.0, c.1))
          (Ensures-Under _ (λ f o. (considerate f o).staged target n ours)
            (>>=-Ensures _ _
              (map_err-Ensures _ _
                (create_dir_all-Keeps _ (mkdir_op-IsSound hash held tmp Written K)))
              λ _ _.
                >>=-Ensures _ _
                  (attempt-Ensures _ (
                    publish_staged-Keeps root capability d hash held Written K fits.loose n
                      written_slot sl i))
                  λ r _. finish-Keeps root capability d hash held Written K fits.loose sl n r))

  publish_new_master-Assures :
      Assures O U Intact (λ _. Unit {0}) (publish_new_master (store root capability d) target d)
  unfolding publish_new_master
  publish_new_master-Assures = >>=-Assures _ _ (map_err-Assures _ _ acquired) λ sl i.
      >>=-Assures _ _ (assured _ (exists-Keeps _)) λ published _.
        Bool-Leads published _ _ (λ _. assured _ (pure-Keeps _))
          (λ _. >>=-Assures _ _ new_uuid-Assures λ uuid u.
            >>=-Leads _ _
              (map_err-Leads
                {R = Copied hash held tmp T K target (stage_name (hex root capability d) uuid)} _ _
                (copy-Copied hash held tmp T K target _ fits.outside (fits.untrusted _) O U
                  (λ f o. (considerate f o).sound))
                (λ a fs c. c) (λ e fs c. c))
              (λ _. publish_written (stage_name (hex root capability d) uuid) (names uuid u).0 sl i)
              (λ e fs c. (c, tt)))

  module _ (channel : Channel RetryJob) where
    defer_or_fail-Keeps :
        (t p f : FilePath) (e : IoError) → Keeps Intact (defer_or_fail channel t p f e)
    unfolding defer_or_fail
    defer_or_fail-Keeps t p f e = >>=-Ensures _ _ platform-Keeps λ os _.
        Bool-Ensures (transient os e) _ _
          (>>=-Ensures _ _ (new_job-Keeps t p) λ job _.
            >>=-Ensures _ _ (attempt-Ensures _ (enqueue-Keeps channel job)) λ _ _. pure-Keeps _)
          (throw-Ensures _)

    swap_in-Keeps :
        (k size : ℕ)
        → Keeps Intact (
            swap_in channel target
              (slot_ref (hex root capability d) k (slot_at root capability d k))
              size)
    unfolding swap_in
    swap_in-Keeps k size = >>=-Ensures _ _ (attempt-Ensures _ linking) λ r s.
        Holds-Ensures r _ _ s
          (λ _ free. >>=-Ensures _ _ (attempt-Ensures _ (swapping free)) λ q _.
            Result-Ensures q _ _
              (λ _.
                >>=-Ensures _ _ (seal-Keeps root capability d hash held T K fits.loose _)
                  (λ _ _. pure-Keeps _))
              (λ e.
                >>=-Ensures _ _ (attempt-Ensures _ (remove_link free))
                  λ _ _. defer_or_fail-Keeps _ _ _ e))
          (λ e. defer_or_fail-Keeps _ _ _ e)
      where
        linking :
            Ensures Intact
              (λ _. K (sibling_tmp_link target) → ⊥)
              (hard_link (slot_at root capability d k) (sibling_tmp_link target))
        linking = hard_link-Ensures _ _ λ fs v. (
          link_op-IsSound hash held tmp T K _ _ (slot_at-NotStaged root capability d k)
              (sibling_tmp_link-NotStaged tmp target fits.outside (λ e. cc))
              (λ free g. fits.linked free g k) fs v,
          link_op-free hash held tmp T K _ _ fs v,
        )

        swapping :
            (K (sibling_tmp_link target) → ⊥)
            → Keeps Intact (rename (sibling_tmp_link target) target)
        swapping free =
            rename-Keeps _ _
              (rename_op-IsSound hash held tmp T K _ _ fits.outside free (fits.swapped free))

        remove_link :
            (K (sibling_tmp_link target) → ⊥) → Keeps Intact (remove_file (sibling_tmp_link target))
        remove_link free = remove_file-Keeps _ (remove_op-IsSound hash held tmp T K _ free)

    swap_in_slot-Keeps :
        (sl : SlotRef) (size : ℕ)
        → IsSlot root capability d sl
        → Keeps Intact (swap_in channel target sl size)
    swap_in_slot-Keeps sl size (k, e) =
        subst (λ x. Keeps Intact (swap_in channel target x size)) (sym e) (swap_in-Keeps k size)

    link_to_master-Assures :
        (found : SlotRef)
        → parse_digest_from_hex found.digest_hex ≡ some d
        → Assures O U Intact
            (λ _. Unit {0})
            (link_to_master channel (store root capability d) target found)
    unfolding link_to_master
    link_to_master-Assures found e =
        >>=-Assures _ _ (assured _ (attempt-Ensures _ (metadata-Keeps target))) λ meta _. rw e (
          >>=-Assures _ _ (map_err-Assures _ _ acquired) λ sl i. assured _ (
            >>=-Ensures _ _ (attempt-Ensures _ stripping) λ r _.
              Bool-Ensures (unwrap_or r false) _ _
                (>>=-Ensures _ _
                  (attempt-Ensures _
                    (strip_read_only-Keeps target (chmod_op-IsSound hash held tmp T K target)))
                  λ _ _. swap_in_slot-Keeps sl _ i)
                (swap_in_slot-Keeps sl _ i)))
      where
        stripping : Keeps Intact (can_strip_target_readonly target)
        stripping =
            >>=-Ensures _ _ (map_err-Ensures _ _ (metadata-Keeps target)) (λ meta _. pure-Keeps _)

    pub apply-Assures :
        (verdict : IngestVerdict)
        → Carries d verdict
        → Assures O U Intact
            (λ _. Unit {0})
            (apply channel (store root capability d) target verdict d)
    unfolding apply
    apply-Assures (bypass reason) c = assured _ (pure-Keeps _)
    apply-Assures unique c =
        >>=-Assures _ _ publish_new_master-Assures (λ _ _. assured _ (pure-Keeps _))
    apply-Assures (duplicate found) c = link_to_master-Assures found c
