-- ===== src/Cli/Sessions.antt =====
-- The commands of one volume, run one after the other.
use mathlib.Core.Path.{subst}
use i_tan_reclaim_space.Base.{
  ℕ, ◌≡◌, refl, sym, Bytes, true, false, List, [], ◌∷◌, Option, none, some, All, Option-cases, inl,
  inr,
}
use i_tan_reclaim_space.Cli.Commands.{Command, probe, recover, gc, status, ingest, run, exit_code}
use i_tan_reclaim_space.Cli.Commands.Safety.{volume_of, IsTame, run-Keeps}
use i_tan_reclaim_space.Cli.Ingest.{store_root_of}
use i_tan_reclaim_space.Cli.Opening.{Harmless}
use i_tan_reclaim_space.Cli.Workspace.{cmd_ingest-Leads}
use i_tan_reclaim_space.Cli.Workspace.Files.{Away}
use i_tan_reclaim_space.Digest.{Hasher}
use i_tan_reclaim_space.Digest.Rounds.{digest_of}
use i_tan_reclaim_space.Fs.Ensures.{Quiet}
use i_tan_reclaim_space.Fs.Path.{FilePath}
use i_tan_reclaim_space.Fs.Quietly.{Leads, Ensures-Leads, pure-Leads, >>=-Leads, after-Leads}
use i_tan_reclaim_space.Fs.State.{Fs}
use i_tan_reclaim_space.Fs.Table.{find}
use i_tan_reclaim_space.Fs.World.{World}
use i_tan_reclaim_space.Ingest.{InodeCache}
use i_tan_reclaim_space.Linkage.Collected.{Tracks-Harmless}
use i_tan_reclaim_space.Linkage.Names.{InStore}
use i_tan_reclaim_space.Linkage.Tracked.{own, Tracks}
use i_tan_reclaim_space.RetryJob.{RetryJob}
use i_tan_reclaim_space.RetryQueue.{Channel}
use i_tan_reclaim_space.Store.Hex.Laws.{IsDigest}
use i_tan_reclaim_space.Store.Slots.{directory}

-- The workspace of a real run of `ingest` is not in the store.
abbrev pub Visits : FilePath → Command → Type 0
Visits root (ingest workspace store_volume workers false) = Away root workspace
Visits root _ = Unit {0}

-- The commands work on the volume.
abbrev pub Suits : FilePath → Command → Type 0
Suits root cmd = (volume_of cmd ≡ root) × Visits root cmd

module _ (h : Hasher) (granted : ℕ → ℕ) (keys : InodeCache → List ℕ) (channel : Channel RetryJob)
    (rounds : ℕ) where
  -- The exit codes of the commands, with the world that they leave.
  unfoldable pub session : List Command → World → List ℕ × World
  unfolding exit_code
  session [] w = ([], w)
  session (cmd ∷ rest) w =
      let r = exit_code h granted keys channel rounds cmd w in
      let s = session rest r.1 in (r.0 ∷ s.0, s.1)

  module _ (digests : (s : h.State) → IsDigest (h.finalize s)) (root : FilePath) (p0 : FilePath)
      (d0 : Bytes) (v0 : IsDigest d0) (away0 : InStore root (directory p0) → ⊥) where
    abbrev Tracking : Fs → Type 0
    Tracking = Tracks (digest_of h granted) root d0 p0

    tame-Leads :
        (cmd : Command)
        → volume_of cmd ≡ root
        → IsTame cmd
        → Leads Tracking (λ r. Tracking) (run h granted keys channel rounds cmd)
    tame-Leads cmd e t =
        after-Leads _ (λ r fs k. k.0)
          (Ensures-Leads _ (
            run-Keeps h granted keys channel rounds Tracking cmd
              (subst (λ r. Harmless r Tracking) (sym e)
                (Tracks-Harmless root p0 d0 v0 away0 (digest_of h granted)))
              t))

    ingest-Leads :
        (workspace : FilePath) (store_volume : Option FilePath) (workers : Option ℕ)
        → store_root_of h granted keys channel workspace store_volume ≡ root
        → Away root workspace
        → Leads Tracking
            (λ r. Tracking)
            (run h granted keys channel rounds (ingest workspace store_volume workers false))
    unfolding run
    ingest-Leads workspace store_volume workers e a =
        >>=-Leads _ _
          (cmd_ingest-Leads h granted keys channel digests root p0 d0 v0 away0 rounds workspace
            store_volume e a)
          (λ progress. pure-Leads _ (λ fs t. t)) (λ e fs t. t)

    run-Leads :
        (cmd : Command)
        → Suits root cmd
        → Leads Tracking (λ r. Tracking) (run h granted keys channel rounds cmd)
    run-Leads (probe r) v = tame-Leads (probe r) v.0 tt
    run-Leads (recover r) v = tame-Leads (recover r) v.0 tt
    run-Leads (gc r) v = tame-Leads (gc r) v.0 tt
    run-Leads (status r) v = tame-Leads (status r) v.0 tt
    run-Leads (ingest workspace store_volume workers true) v =
        tame-Leads (ingest workspace store_volume workers true) v.0 refl
    run-Leads (ingest workspace none workers false) v = ingest-Leads workspace none workers v.0 v.1
    run-Leads (ingest workspace (some volume) workers false) v =
        ingest-Leads workspace (some volume) workers v.0 v.1

    session_keeps :
        (cmds : List Command) (w : World)
        → All (Suits root) cmds
        → Quiet w.turns
        → Tracking w.fs
        → Tracking (session cmds w).1.fs
    unfolding session exit_code
    session_keeps [] w v q t = t
    session_keeps (cmd ∷ rest) w v q t =
        let after = (run-Leads cmd v.0).run w t (q, λ k. tt) in
        session_keeps rest (run h granted keys channel rounds cmd w).1 v.1 after.1.0 after.0

    -- No sequence of commands loses a file outside of the store, whichever files they publish or link on the way,
    -- whatever they quarantine, restore or delete, whatever calls fail, a copy that breaks off in the middle included,
    -- and however far each command gets: the file is still there, and its content has the digest it had, as
    -- `full_cas_digest` computes it; so have the slots of that digest, in the shards and in quarantine. Nothing is said
    -- of what staging files hold. Before, the file and these, as far as they are there, have that digest, a staging
    -- file has one name only and inode numbers are not reused. The hasher returns 32 bytes, the commands work on one
    -- volume, their workspaces are not in its store, and the other processes leave it alone.
    pub session-Tracks :
        (cmds : List Command) (w : World)
        → All (Suits root) cmds
        → Quiet w.turns
        → Tracking w.fs
        → let after = (session cmds w).1.fs in
          Tracking after
          × ((j : ℕ) × (find p0 after.table ≡ some j)
              × (digest_of h granted (after.inode j).content ≡ d0))
    session-Tracks cmds w v q t =
        let t' = session_keeps cmds w v q t in
        (
          t',
          elim (Option-cases (find p0 _)) [
            | inl f ↦ absurd (t'.present p0 refl f)
            | inr (j, f) ↦ (j, f, t'.trusted p0 j (own refl) f)
          ],
        )
