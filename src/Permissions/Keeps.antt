-- ===== src/Permissions/Keeps.antt =====
-- The permission calls change nothing but modes.
use i_tan_reclaim_space.Base.{ℕ, Bool}
use i_tan_reclaim_space.Fs.Path.{FilePath}
use i_tan_reclaim_space.Fs.State.{Fs, chmod_op}
use i_tan_reclaim_space.Fs.World.{Platform, unix, windows, other, M}
use i_tan_reclaim_space.Fs.Ensures.{
  Keeps, >>=-Ensures, map_err-Ensures, pure-Keeps, platform-Keeps, metadata-Keeps,
  set_permissions-Keeps,
}
use i_tan_reclaim_space.Permissions.{enforce_read_only, strip_read_only, is_executable}

module _ {P : Fs → Type 0} where
  Platform-Keeps :
      {E A : Type 0} (os : Platform) (x y z : M E A)
      → Keeps P x
      → Keeps P y
      → Keeps P z
      → Keeps P (elim os [ unix ↦ x | windows ↦ y | other ↦ z ])
  Platform-Keeps unix x y z hx hy hz = hx
  Platform-Keeps windows x y z hx hy hz = hy
  Platform-Keeps other x y z hx hy hz = hz

  pub is_executable-Keeps : (p : FilePath) → Keeps P (is_executable p)
  unfolding is_executable
  is_executable-Keeps p = >>=-Ensures _ _ platform-Keeps λ os _.
      Platform-Keeps os _ _ _
        (>>=-Ensures _ _ (map_err-Ensures _ _ (metadata-Keeps p)) (λ meta _. pure-Keeps _))
        (pure-Keeps _) (pure-Keeps _)

  module _ (p : FilePath) (chmod : (m : ℕ) (fs : Fs) → P fs → P (chmod_op p m fs).1) where
    pub enforce_read_only-Keeps : (exec : Bool) → Keeps P (enforce_read_only p exec)
    unfolding enforce_read_only
    enforce_read_only-Keeps exec = >>=-Ensures _ _ platform-Keeps λ os _.
        Platform-Keeps os _ _ _ (map_err-Ensures _ _ (set_permissions-Keeps p _ (chmod _)))
          (>>=-Ensures _ _ (map_err-Ensures _ _ (metadata-Keeps p))
            (λ meta _. map_err-Ensures _ _ (set_permissions-Keeps p _ (chmod _))))
          (pure-Keeps _)

    pub strip_read_only-Keeps : Keeps P (strip_read_only p)
    unfolding strip_read_only
    strip_read_only-Keeps = >>=-Ensures _ _ platform-Keeps λ os _.
        Platform-Keeps os _ _ _ (map_err-Ensures _ _ (set_permissions-Keeps p _ (chmod _)))
          (>>=-Ensures _ _ (map_err-Ensures _ _ (metadata-Keeps p))
            (λ meta _. map_err-Ensures _ _ (set_permissions-Keeps p _ (chmod _))))
          (pure-Keeps _)
