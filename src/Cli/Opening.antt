-- ===== src/Cli/Opening.antt =====
-- What the start of the commands keeps: probing the volume, opening its store and the sweep of the
-- staging directory only make directories and remove staging files.
use mathlib.Core.Path.{subst}
use i_tan_reclaim_space.Base.{◌≡◌, refl, sym, ◌∷◌, codes}
use i_tan_reclaim_space.Fs.Path.{Name, text, FilePath}
use i_tan_reclaim_space.Fs.State.{Fs, mkdir_op, remove_op}
use i_tan_reclaim_space.Fs.Ensures.{
  Keeps, Ensures, >>=-Ensures, map_err-Ensures, pure-Keeps, pure-Ensures, throw-Ensures,
  Bool-Ensures, metadata-Keeps, platform-Keeps, create_dir_all-Keeps,
}
use i_tan_reclaim_space.Capability.{VolumeCapability}
use i_tan_reclaim_space.Capability.Probe.{probe_volume, detect_strategy}
use i_tan_reclaim_space.Cli.{CliError, with_store, cmd_gc, cmd_recover}
use i_tan_reclaim_space.Gc.{with_default_cooldown, sweep_objects, sweep_quarantine}
use i_tan_reclaim_space.Gc.Keeps.{Tended, sweep_objects-Keeps, sweep_quarantine-Keeps}
use i_tan_reclaim_space.Recovery.{with_default_threshold, sweep_stale_tmp}
use i_tan_reclaim_space.Recovery.Safety.{sweep_stale_tmp-Keeps}
use i_tan_reclaim_space.Store.{CasStore, cas_store, open_store, create_root}

module _ (root : FilePath) (P : Fs → Type 0)
    (made : (q : FilePath) (fs : Fs) → P fs → P (mkdir_op q fs).1) where
  pub probe_volume-Keeps : Keeps P (probe_volume root)
  unfolding probe_volume detect_strategy
  probe_volume-Keeps = >>=-Ensures _ _ (map_err-Ensures _ _ (metadata-Keeps root)) λ meta _.
      Bool-Ensures meta.is_dir _ _
        (>>=-Ensures _ _ (map_err-Ensures _ _ (create_dir_all-Keeps _ made)) λ _ _.
          >>=-Ensures _ _ (>>=-Ensures _ _ platform-Keeps λ os _. pure-Keeps _) λ s _. pure-Keeps _)
        (throw-Ensures _)

  create_root-Keeps : (dir : FilePath) → Keeps P (create_root dir)
  unfolding create_root
  create_root-Keeps dir = map_err-Ensures _ _ (create_dir_all-Keeps dir made)

  -- The store that is opened is that of the volume.
  open_store-Ensures :
      (cap : VolumeCapability) → Ensures P (λ s. s ≡ cas_store root cap) (open_store root cap)
  unfolding open_store
  open_store-Ensures cap = >>=-Ensures _ _ (create_root-Keeps _) λ _ _.
      >>=-Ensures _ _ (create_root-Keeps _)
        λ _ _. >>=-Ensures _ _ (create_root-Keeps _) λ _ _. pure-Ensures _ refl

  pub with_store-Ensures : Ensures P (λ o. o.1 ≡ cas_store root o.0) (with_store root)
  unfolding with_store
  with_store-Ensures = >>=-Ensures _ _ (map_err-Ensures _ _ probe_volume-Keeps) λ cap _.
      >>=-Ensures _ _ (map_err-Ensures _ _ (open_store-Ensures cap)) λ s e. pure-Ensures _ e

-- The startup sweep of the opened store.
pub swept-Keeps :
    (root : FilePath) (P : Fs → Type 0)
    (removed : (n : Name) (fs : Fs)
      → P fs
      → P (remove_op (n ∷ text (codes "tmp") ∷ text (codes ".itan_store") ∷ root) fs).1)
    (cap : VolumeCapability) (s : CasStore)
    → s ≡ cas_store root cap
    → Keeps {E = CliError} P (sweep_stale_tmp {E = CliError} (with_default_threshold s))
swept-Keeps root P removed capability s e =
    subst (λ x. Keeps {E = CliError} P (sweep_stale_tmp {E = CliError} (with_default_threshold x)))
      (sym e) (sweep_stale_tmp-Keeps (with_default_threshold (cas_store root capability)) P removed)

-- What the commands other than a real `ingest` do to the volume keeps a predicate.
pub record Harmless (root : FilePath) (P : Fs → Type 0) : Type 0 where
  pub tended :
      Tended
        (text (codes "objects") ∷ text (codes ".itan_store") ∷ root)
        (text (codes "quarantine") ∷ text (codes ".itan_store") ∷ root)
        P
  pub removed :
      (n : Name) (fs : Fs)
      → P fs
      → P (remove_op (n ∷ text (codes "tmp") ∷ text (codes ".itan_store") ∷ root) fs).1

module _ (root : FilePath) (P : Fs → Type 0) (harmless : Harmless root P) where
  opened : Ensures P (λ o. o.1 ≡ cas_store root o.0) (with_store root)
  opened = with_store-Ensures root P harmless.tended.made

  swept_objects :
      (capability : VolumeCapability) (s : CasStore)
      → s ≡ cas_store root capability
      → Keeps P (sweep_objects (with_default_cooldown s))
  swept_objects capability s e =
      subst (λ x. Keeps P (sweep_objects (with_default_cooldown x))) (sym e)
        (sweep_objects-Keeps (with_default_cooldown (cas_store root capability)) P harmless.tended)

  swept_quarantine :
      (capability : VolumeCapability) (s : CasStore)
      → s ≡ cas_store root capability
      → Keeps P (sweep_quarantine (with_default_cooldown s))
  swept_quarantine capability s e =
      subst (λ x. Keeps P (sweep_quarantine (with_default_cooldown x))) (sym e)
        (sweep_quarantine-Keeps (with_default_cooldown (cas_store root capability)) P
          harmless.tended)

  pub cmd_gc-Keeps : Keeps P (cmd_gc root)
  unfolding cmd_gc
  cmd_gc-Keeps = >>=-Ensures _ _ opened λ o e.
      >>=-Ensures _ _ (map_err-Ensures _ _ (swept_objects o.0 o.1 e)) λ _ _.
        >>=-Ensures _ _ (map_err-Ensures _ _ (swept_quarantine o.0 o.1 e)) λ _ _. pure-Keeps _

  pub cmd_recover-Keeps : Keeps P (cmd_recover root)
  unfolding cmd_recover
  cmd_recover-Keeps = >>=-Ensures _ _ opened (λ o e. swept-Keeps root P harmless.removed o.0 o.1 e)
