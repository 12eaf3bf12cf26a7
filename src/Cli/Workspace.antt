-- ===== src/Cli/Workspace.antt =====
-- What a real run of `ingest` keeps of a file, through all its steps.
pub mod Files
use mathlib.Core.Path.{subst}
use i_tan_reclaim_space.Base.{
  ℕ, zero, suc, ◌+◌, ◌≡◌, ◌≢◌, refl, sym, ap, ◌∙◌, Bytes, true, false, List, [], ◌∷◌, ◌++◌, Option,
  none, some, All, codes, arith, Option-cases, inl, inr,
}
use i_tan_reclaim_space.Base.Results.{Result, ok, err}
use i_tan_reclaim_space.Capability.{VolumeCapability}
use i_tan_reclaim_space.Cli.{CliError, parse_hex_digest, with_store}
use i_tan_reclaim_space.Cli.Ingest.{
  Progress, started, link_file, act_on, ingest_file, ingest_entries, ingest_dirs, is_store_dir,
  cmd_ingest, store_root_of,
}
use i_tan_reclaim_space.Cli.Laws.{parse_hex_digest-hex_encode}
use i_tan_reclaim_space.Cli.Opening.{with_store-Ensures, swept-Keeps}
use i_tan_reclaim_space.Digest.{Hasher, DigestError}
use i_tan_reclaim_space.Digest.Reads.{full_cas_digest-Ensures}
use i_tan_reclaim_space.Digest.Rounds.{digest_of, digest_of-finalize}
use i_tan_reclaim_space.Fs.Delivers.{Same}
use i_tan_reclaim_space.Fs.Ensures.{Quiet, Holds, next_entry-Keeps, is_dir-Keeps, read_dir-Keeps}
use i_tan_reclaim_space.Fs.Path.{Name, text, opaque, FilePath}
use i_tan_reclaim_space.Fs.Quietly.{
  Leads, Ensures-Leads, pure-Leads, >>=-Leads, attempt-Leads, fixed-Leads, Bool-Leads, before-Leads,
  after-Leads, given-Leads, Result-Leads, then-Leads,
}
use i_tan_reclaim_space.Fs.State.{Fs, mkdir_op, remove_op}
use i_tan_reclaim_space.Fs.Table.{find}
use i_tan_reclaim_space.Fs.World.{World, pure, ◌>>=◌}
use i_tan_reclaim_space.Ingest.{InodeCache, IngestError, IngestPipeline, new_pipeline}
use i_tan_reclaim_space.Ingest.Verdicts.{HasDigest, Says, evaluate-Ensures}
use i_tan_reclaim_space.Linkage.Names.{store_dir, InStore}
use i_tan_reclaim_space.Linkage.Safety.{Present}
use i_tan_reclaim_space.Linkage.Fits.{Carries, staging}
use i_tan_reclaim_space.Linkage.Tracked.{Tracked, own, Tracks, apply-Leads}
use i_tan_reclaim_space.Recovery.{with_default_threshold, sweep_stale_tmp}
use i_tan_reclaim_space.RetryJob.{RetryJob}
use i_tan_reclaim_space.RetryQueue.{Channel}
use i_tan_reclaim_space.Store.{CasStore, cas_store}
use i_tan_reclaim_space.Store.Content.{mkdir_op-IsSound, remove_op-IsSound}
use i_tan_reclaim_space.Store.Hex.{hex_encode, parse_digest_from_hex}
use i_tan_reclaim_space.Store.Hex.Laws.{IsDigest, parse_digest_from_hex-hex_encode}
use i_tan_reclaim_space.Store.Slots.{directory}
use i_tan_reclaim_space.Text.{str_eq}
use i_tan_reclaim_space.Verdict.{IngestVerdict, bypass, unique, duplicate}
use i_tan_reclaim_space.Cli.Workspace.Files.{Away, Away-entered, ingest_file-Leads}

module _ (h : Hasher) (granted : ℕ → ℕ) (keys : InodeCache → List ℕ) (channel : Channel RetryJob)
    (digests : (s : h.State) → IsDigest (h.finalize s)) (root : FilePath) (p0 : FilePath)
    (d0 : Bytes) (v0 : IsDigest d0) (away0 : InStore root (directory p0) → ⊥) where
  abbrev Tracking : Fs → Type 0
  Tracking = Tracks (digest_of h granted) root d0 p0

  module _ (cap : VolumeCapability) where
    abbrev store : CasStore
    store = cas_store root cap

    -- The directories that are still to be visited are none of the store.
    abbrev Aways : List FilePath → Type 0
    Aways = All (Away root)

    ingest_entries-Leads :
        (dir : FilePath) (names : List Name) (dirs : List FilePath) (p : Progress)
        → Away root dir
        → Aways dirs
        → Leads Tracking
            (λ r fs. Tracking fs × Holds (λ v. Aways v.0) r)
            (ingest_entries h granted keys channel cap store false dir names dirs p)
    unfolding ingest_entries
    ingest_entries-Leads dir [] dirs p a l = pure-Leads _ (λ fs t. (t, l))
    ingest_entries-Leads dir (n ∷ rest) dirs p a l =
        attempt-Leads _ _ (Ensures-Leads _ (next_entry-Keeps n)) λ r.
          Result-Leads r _ _
            (λ name.
              then-Leads _ _ (is_dir-Keeps (name ∷ dir))
                (λ directory _.
                  Bool-Leads directory _ _
                    (λ _.
                      Bool-Leads (is_store_dir name) _ _
                        (λ _. ingest_entries-Leads dir rest dirs p a l)
                        (λ e.
                          ingest_entries-Leads dir rest ((name ∷ dir) ∷ dirs) p a
                            (Away-entered root dir name e a, l)))
                    (λ _.
                      >>=-Leads _ _
                        (ingest_file-Leads h granted keys channel digests root p0 d0 v0 away0 cap
                          name dir p a)
                        (λ next. ingest_entries-Leads dir rest dirs next a l) (λ e fs t. (t, tt))))
                (λ e fs t. (t, tt)))
            (λ e. ingest_entries-Leads dir rest dirs p a l)

    ingest_dirs-Leads :
        (rounds : ℕ) (dirs : List FilePath) (p : Progress)
        → Aways dirs
        → Leads Tracking
            (λ r. Tracking)
            (ingest_dirs h granted keys channel cap store false rounds dirs p)
    unfolding ingest_dirs
    ingest_dirs-Leads zero [] p l = pure-Leads _ (λ fs t. t)
    ingest_dirs-Leads (suc rounds) [] p l = pure-Leads _ (λ fs t. t)
    ingest_dirs-Leads zero (dir ∷ dirs) p l = pure-Leads _ (λ fs t. t)
    ingest_dirs-Leads (suc rounds) (dir ∷ dirs) p l =
        attempt-Leads _ _ (Ensures-Leads _ (read_dir-Keeps dir)) λ r.
          Result-Leads r _ _
            (λ names.
              >>=-Leads _ _ (ingest_entries-Leads dir names dirs p l.0 l.1)
                (λ visited. given-Leads _ (ingest_dirs-Leads rounds visited.0 visited.1))
                (λ e fs t. t.0))
            (λ e. ingest_dirs-Leads rounds dirs p l.1)

  made : (q : FilePath) (fs : Fs) → Tracking fs → Tracking (mkdir_op q fs).1
  made = mkdir_op-IsSound (digest_of h granted) d0 (staging root) (Tracked root d0 p0) (Present p0)

  removed : (n : Name) (fs : Fs) → Tracking fs → Tracking (remove_op (n ∷ staging root) fs).1
  removed n =
      remove_op-IsSound (digest_of h granted) d0 (staging root) (Tracked root d0 p0) (Present p0)
        (n ∷ staging root)
        (λ e. away0 (subst (λ x. InStore root (directory x)) e (text (codes "tmp") ∷ [], refl)))

  -- The traversal, with the store that was opened.
  opened-Leads :
      (cap : VolumeCapability) (s : CasStore) (rounds : ℕ) (dirs : List FilePath) (p : Progress)
      → s ≡ cas_store root cap
      → All (Away root) dirs
      → Leads Tracking
          (λ r. Tracking)
          (ingest_dirs h granted keys channel cap s false rounds dirs p)
  opened-Leads cap s rounds dirs p e l =
      subst
        (λ x.
          Leads Tracking (λ r. Tracking)
            (ingest_dirs h granted keys channel cap x false rounds dirs p))
        (sym e) (ingest_dirs-Leads cap rounds dirs p l)

  -- A real run of `ingest`, however far it gets.
  pub cmd_ingest-Leads :
      (rounds : ℕ) (workspace : FilePath) (store_volume : Option FilePath)
      → store_root_of h granted keys channel workspace store_volume ≡ root
      → Away root workspace
      → Leads Tracking
          (λ r. Tracking)
          (cmd_ingest h granted keys channel rounds workspace store_volume false)
  unfolding cmd_ingest
  cmd_ingest-Leads rounds workspace store_volume e a =
      subst
        (λ r.
          Leads Tracking (λ r. Tracking)
            (with_store r >>= λ opened.
              sweep_stale_tmp (with_default_threshold opened.1) >>= λ report.
              ingest_dirs h granted keys channel opened.0 opened.1 false rounds (workspace ∷ [])
                (started (new_pipeline opened.1 opened.0.strategy))))
        (sym e)
        (then-Leads _ _ (with_store-Ensures root Tracking made)
          (λ opened s.
            then-Leads _ _ (swept-Keeps root Tracking removed opened.0 opened.1 s)
              (λ report _. opened-Leads opened.0 opened.1 rounds (workspace ∷ []) _ s (a, tt))
              (λ e fs t. t))
          (λ e fs t. t))
