-- ===== src/Permissions/Modes.antt =====
-- The mode that each operation on permissions leaves, in a run in which no call fails and no other process interferes.
use Prim.Native.Nat.{bit_and}
use i_tan_reclaim_space.Base.{
  ℕ, Bool, true, false, not, ◌==◌, if◌then◌else◌, ap, ◌≡◌, refl, ◌∙◌, some, arith,
}
use i_tan_reclaim_space.Base.Results.{ok}
use i_tan_reclaim_space.Fs.Path.{FilePath}
use i_tan_reclaim_space.Fs.Table.{find}
use i_tan_reclaim_space.Fs.World.{World, calm, unix, platform}
use i_tan_reclaim_space.Fs.Runs.{>>=-ok, map_err-ok, metadata-calm}
use i_tan_reclaim_space.Fs.Runs.Files.{with_mode, set_permissions-calm}
use i_tan_reclaim_space.Permissions.{
  readonly, is_executable, enforce_read_only, enforce_posix_mode, strip_read_only,
  strip_read_only_posix,
}

abbrev pub protected_mode : Bool → ℕ
protected_mode exec = if exec then 0o555 else 0o444

abbrev pub executable : ℕ → Bool
executable mode = not (bit_and mode 0o111 == 0)

module _ (p : FilePath) (i : ℕ) (w : World) (u : w.os ≡ unix) (f : find p w.fs.table ≡ some i) where
  pub is_executable-calm : is_executable p (calm w) ≡ (ok (executable (w.fs.inode i).mode), calm w)
  unfolding is_executable platform
  is_executable-calm =
      >>=-ok _ _ (calm w) unix (calm w) (ap (λ o. (ok o, calm w)) u)
      ∙ >>=-ok _ _ (calm w) _ (calm w) (map_err-ok _ _ (calm w) _ (calm w) (metadata-calm p i w f))

  pub enforce_read_only-calm :
      (exec : Bool)
      → enforce_read_only p exec (calm w) ≡ (ok tt, with_mode i (protected_mode exec) w)
  unfolding enforce_read_only enforce_posix_mode platform
  enforce_read_only-calm exec =
      >>=-ok _ _ (calm w) unix (calm w) (ap (λ o. (ok o, calm w)) u)
      ∙ map_err-ok _ _ (calm w) tt (with_mode i (protected_mode exec) w)
          (set_permissions-calm p _ i w f)

  pub strip_read_only-calm : strip_read_only p (calm w) ≡ (ok tt, with_mode i 0o644 w)
  unfolding strip_read_only strip_read_only_posix platform
  strip_read_only-calm =
      >>=-ok _ _ (calm w) unix (calm w) (ap (λ o. (ok o, calm w)) u)
      ∙ map_err-ok _ _ (calm w) tt (with_mode i 0o644 w) (set_permissions-calm p _ i w f)

-- The mode in a world after a change of it.
pub new_mode : (i m : ℕ) (w : World) → ((with_mode i m w).fs.inode i).mode ≡ m
new_mode i m w = ground arith

pub protected-readonly : (exec : Bool) → readonly (protected_mode exec) ≡ true
protected-readonly true = refl
protected-readonly false = refl

pub protected-executable : (exec : Bool) → executable (protected_mode exec) ≡ exec
protected-executable true = refl
protected-executable false = refl

-- Protecting a file makes it read-only, and executable exactly if that was asked for; stripping the protection makes
-- it writable again. The file is there; on a Unix system, in a run in which no call fails and no other process
-- interferes.
pub enforce_read_only-strip_read_only :
    (p : FilePath) (i : ℕ) (exec : Bool) (w : World)
    → w.os ≡ unix
    → find p w.fs.table ≡ some i
    → (enforce_read_only p exec (calm w) ≡ (ok tt, with_mode i (protected_mode exec) w))
      × (readonly ((with_mode i (protected_mode exec) w).fs.inode i).mode ≡ true)
      × (is_executable p (with_mode i (protected_mode exec) w)
          ≡ (ok exec, with_mode i (protected_mode exec) w))
      × (strip_read_only p (with_mode i (protected_mode exec) w)
          ≡ (ok tt, with_mode i 0o644 (with_mode i (protected_mode exec) w)))
      × (readonly ((with_mode i 0o644 (with_mode i (protected_mode exec) w)).fs.inode i).mode
          ≡ false)
enforce_read_only-strip_read_only p i exec w u f =
    let v = with_mode i (protected_mode exec) w in
    (
      enforce_read_only-calm p i w u f exec,
      ap readonly (new_mode i (protected_mode exec) w) ∙ protected-readonly exec,
      is_executable-calm p i v u f
          ∙ ap (λ m. (ok (executable m), v)) (new_mode i (protected_mode exec) w)
          ∙ ap (λ b. (ok b, v)) (protected-executable exec),
      strip_read_only-calm p i v u f,
      ap readonly (new_mode i 0o644 v),
    )
