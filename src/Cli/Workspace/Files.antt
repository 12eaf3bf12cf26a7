-- ===== src/Cli/Workspace/Files.antt =====
-- What `ingest` keeps of a tracked file while it works on one file.
use mathlib.Core.Path.{subst}
use i_tan_reclaim_space.Base.{ℕ, ◌+◌, ◌≡◌, sym, ap, ◌∙◌, Bytes, false, List, [], ◌∷◌, some, codes}
use i_tan_reclaim_space.Base.Results.{Result, ok, err}
use i_tan_reclaim_space.Capability.{VolumeCapability}
use i_tan_reclaim_space.Cli.{parse_hex_digest}
use i_tan_reclaim_space.Cli.Ingest.{Progress, link_file, act_on, ingest_file, is_store_dir}
use i_tan_reclaim_space.Cli.Laws.{parse_hex_digest-hex_encode}
use i_tan_reclaim_space.Digest.{Hasher, DigestError}
use i_tan_reclaim_space.Digest.Reads.{full_cas_digest-Ensures}
use i_tan_reclaim_space.Digest.Rounds.{digest_of, digest_of-finalize}
use i_tan_reclaim_space.Fs.Delivers.{Same}
use i_tan_reclaim_space.Fs.Ensures.{Holds}
use i_tan_reclaim_space.Fs.Path.{Name, text, FilePath}
use i_tan_reclaim_space.Fs.Quietly.{
  Leads, Ensures-Leads, pure-Leads, attempt-Leads, fixed-Leads, given-Leads,
}
use i_tan_reclaim_space.Fs.State.{Fs}
use i_tan_reclaim_space.Fs.World.{pure}
use i_tan_reclaim_space.Ingest.{InodeCache, IngestError, IngestPipeline}
use i_tan_reclaim_space.Ingest.Verdicts.{HasDigest, Says, evaluate-Ensures}
use i_tan_reclaim_space.Linkage.Names.{InStore}
use i_tan_reclaim_space.Linkage.Fits.{Carries}
use i_tan_reclaim_space.Linkage.Tracked.{Tracks, apply-Leads}
use i_tan_reclaim_space.RetryJob.{RetryJob}
use i_tan_reclaim_space.RetryQueue.{Channel}
use i_tan_reclaim_space.Store.{CasStore, cas_store}
use i_tan_reclaim_space.Store.Hex.{parse_digest_from_hex}
use i_tan_reclaim_space.Store.Hex.Laws.{IsDigest, parse_digest_from_hex-hex_encode}
use i_tan_reclaim_space.Store.Slots.{directory}
use i_tan_reclaim_space.Text.{str_eq}
use i_tan_reclaim_space.Verdict.{IngestVerdict, bypass, unique, duplicate}

-- A directory in which `ingest` may find files: it is not in the store.
abbrev pub Away : FilePath → FilePath → Type 0
Away root dir = InStore root dir → ⊥

-- The directory of the store is not entered.
pub Away-entered :
    (root dir : FilePath) (name : Name)
    → is_store_dir name ≡ false
    → Away root dir
    → Away root (name ∷ dir)
unfolding str_eq
Away-entered root dir name e a ([], f) =
    let g : name ≡ text (codes ".itan_store") = cc in
    let same : str_eq (codes ".itan_store") (codes ".itan_store") ≡ false =
      subst (λ n. is_store_dir n ≡ false) g e in
    cc
Away-entered root dir name e a (n ∷ s, f) = a (s, cc)

module _ (h : Hasher) (granted : ℕ → ℕ) (keys : InodeCache → List ℕ) (channel : Channel RetryJob)
    (digests : (s : h.State) → IsDigest (h.finalize s)) (root : FilePath) (p0 : FilePath)
    (d0 : Bytes) (v0 : IsDigest d0) (away0 : InStore root (directory p0) → ⊥) where
  abbrev Tracking : Fs → Type 0
  Tracking = Tracks (digest_of h granted) root d0 p0

  module _ (cap : VolumeCapability) where
    abbrev store : CasStore
    store = cas_store root cap

    module _ (name : Name) (dir : FilePath) (away : Away root dir) (fs : Fs)
        (tracks : Tracking fs) where
      abbrev path : FilePath
      path = name ∷ dir

      has_digest-IsDigest : (d : Bytes) → HasDigest keys h granted fs path d → IsDigest d
      has_digest-IsDigest d (i, e, f) =
          subst IsDigest (sym f) (digest_of-finalize h granted IsDigest digests _)

      link_file-Leads :
          (verdict : IngestVerdict) (d : Bytes) (p : Progress)
          → HasDigest keys h granted fs path d
          → Carries d verdict
          → Leads
              (Same fs)
              (λ r. Tracking)
              (link_file h granted keys channel cap store false path verdict (some d) p)
      unfolding link_file
      link_file-Leads verdict d p (i, e, f) c =
          attempt-Leads _ _
            (apply-Leads (digest_of h granted) root cap p0 d0 v0 away0 name dir away d
              (has_digest-IsDigest d (i, e, f)) i fs e f channel verdict c tracks)
            λ r. pure-Leads _ (λ after t. t)

      act_on-Leads :
          (verdict : IngestVerdict) (p : Progress)
          → Says keys h granted fs path verdict
          → Leads
              (Same fs)
              (λ r. Tracking)
              (act_on h granted keys channel cap store false path verdict p)
      unfolding act_on
      act_on-Leads (bypass reason) p s = pure-Leads _ (λ after e. subst Tracking (sym e) tracks)
      act_on-Leads (duplicate slot) p (d, has, e) =
          subst
            (λ o.
              Leads (Same fs) (λ r. Tracking)
                (link_file h granted keys channel cap store false path (duplicate slot) o p))
            (sym
              (ap parse_hex_digest e ∙ parse_hex_digest-hex_encode d (has_digest-IsDigest d has)))
            (link_file-Leads (duplicate slot) d p has (
              ap parse_digest_from_hex e
              ∙ parse_digest_from_hex-hex_encode d (has_digest-IsDigest d has)))
      act_on-Leads unique p s =
          attempt-Leads _ _
            (Ensures-Leads _ (full_cas_digest-Ensures fs h granted path cap.strategy)) after_digest
        where
          after_digest :
              (r : Result DigestError Bytes)
              → Leads
                  (λ w. Same fs w × Holds (HasDigest keys h granted fs path) r)
                  (λ r. Tracking)
                  (elim r [
                    | err e ↦ pure p
                    | ok d ↦ link_file h granted keys channel cap store false path unique (some d) p
                  ])
          after_digest (ok d) = given-Leads _ (λ has. link_file-Leads unique d p has tt)
          after_digest (err e) = pure-Leads _ (λ after g. subst Tracking (sym (g.0)) tracks)

      judged-Leads :
          (r : Result (IngestError × IngestPipeline) (IngestVerdict × IngestPipeline))
          (p : Progress)
          → Leads
              (λ w. Same fs w × Holds (λ v. Says keys h granted fs path v.0) r)
              (λ r. Tracking)
              (elim r [
                | err e ↦ pure (record p { total_files = p.total_files + 1; pipeline = e.1 })
                | ok v ↦
                    act_on h granted keys channel cap store false path v.0
                      (record p { total_files = p.total_files + 1; pipeline = v.1 })
              ])
      judged-Leads (ok v) p = given-Leads _ (λ s. act_on-Leads v.0 _ s)
      judged-Leads (err e) p = pure-Leads _ (λ after g. subst Tracking (sym (g.0)) tracks)

    pub ingest_file-Leads :
        (name : Name) (dir : FilePath) (p : Progress)
        → Away root dir
        → Leads Tracking
            (λ r. Tracking)
            (ingest_file h granted keys channel cap store false (name ∷ dir) p)
    unfolding ingest_file
    ingest_file-Leads name dir p away = fixed-Leads _ λ fs tracks.
        attempt-Leads _ _
          (Ensures-Leads _ (evaluate-Ensures keys h granted fs (name ∷ dir) p.pipeline))
          λ r. judged-Leads name dir away fs tracks r p
