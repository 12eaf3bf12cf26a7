-- ===== src/Capability/Trial/Choice.antt =====
-- Which strategies a build can find.
use i_tan_reclaim_space.Base.{ℕ, ◌≡◌, refl, arith, Bool, true, false}
use i_tan_reclaim_space.Base.Results.{Result, ok, err, unwrap_or}
use i_tan_reclaim_space.Fs.Path.{FilePath}
use i_tan_reclaim_space.Fs.State.{IoError, os_error}
use i_tan_reclaim_space.Fs.World.{World, M, pure, throw, ◌>>=◌, attempt}
use i_tan_reclaim_space.Fs.Calls.{has_zero_byte, c_string, remove_file}
use i_tan_reclaim_space.Fs.Ensures.{Holds}
use i_tan_reclaim_space.Fs.Returns.{
  Returns, Yields, after_Returns, Yields-Returns, pure-Yields, attempt-Yields, >>=-Yields,
  attempted_Yields, new_uuid-Yields, Bool-Returns, Bool-Yields, Result-Yields,
}
use i_tan_reclaim_space.Capability.{LinkStrategy, is_hardlink}
use i_tan_reclaim_space.Capability.Trial.{
  TargetOs, linux, windows, macos, other, Build, System, succeeded, src_path, dst_path,
  write_sentinel, cleaned_up, clone_linux, cow_dry_run_linux, clone_macos, cow_dry_run_macos,
  duplicate_between, close_opened, clone_windows, cow_dry_run_windows, if_cloned,
  detect_strategy_windows_ntfs, linux_statfs_type, detect_strategy_linux_cow, detect_strategy_macos,
  detect_strategy_windows, detect_strategy_linux, strategy_for, detect_strategy_of,
}

-- The volume cannot clone: each call that would fails.
pub record NoClone (sys : System) : Type 0 where
  pub ficlone : (dst src : ℕ) (w : World) → succeeded (sys.ficlone dst src w).0 ≡ false
  pub clonefile : (src dst : FilePath) (w : World) → succeeded (sys.clonefile src dst w).0 ≡ false
  pub duplicate_extents :
      (dst src : ℕ) (w : World) → succeeded (sys.duplicate_extents dst src w).0 ≡ false

abbrev IsFalse : Bool → Type 0
IsFalse b = b ≡ false

cleaned_up-IsFalse :
    {E : Type 0} (src dst : FilePath) (result : Result IoError Bool)
    → Holds IsFalse result
    → Yields {E = E} IsFalse (cleaned_up src dst result)
unfolding cleaned_up
cleaned_up-IsFalse src dst result h =
    attempted_Yields (remove_file src) _
      λ _. attempted_Yields (remove_file dst) _ λ _. pure-Yields _ (unwrapped result h)
  where
    unwrapped : (r : Result IoError Bool) → Holds IsFalse r → unwrap_or r false ≡ false
    unwrapped (ok b) e = e
    unwrapped (err e) q = refl

c_string-Returns :
    {A : Type 0} {Q : A → Type 0} (path : FilePath) (rest : M IoError A)
    → Returns Q rest
    → Returns Q (c_string path rest)
unfolding c_string
c_string-Returns path rest h =
    Bool-Returns (has_zero_byte path) (throw (os_error 22)) rest (record { run = λ w. tt }) h

-- A trial that yields that the clone failed.
tried :
    {E : Type 0} (m : M IoError (Unit {0}))
    → ((w : World) → succeeded (m w).0 ≡ false)
    → Yields {E = E} IsFalse (attempt m >>= λ ret. pure (succeeded ret))
unfolding attempt ◌>>=◌
tried m h = record { run = λ w. (succeeded (m w).0, (m w).1, refl, h w) }

module _ (sys : System) (n : NoClone sys) where
  clone_linux-IsFalse : (src dst : FilePath) → Returns IsFalse (clone_linux sys src dst)
  unfolding clone_linux
  clone_linux-IsFalse src dst = after_Returns _ _ λ _. after_Returns _ _ λ src_f.
      after_Returns _ _ λ dst_f.
        after_Returns _ _
          λ _. Yields-Returns _ (tried (sys.ficlone dst_f src_f) (n.ficlone dst_f src_f))

  clone_macos-IsFalse : (src dst : FilePath) → Returns IsFalse (clone_macos sys src dst)
  unfolding clone_macos
  clone_macos-IsFalse src dst = after_Returns _ _ λ _. c_string-Returns src _ (
      c_string-Returns dst _
        (Yields-Returns _ (tried (sys.clonefile src dst) (n.clonefile src dst))))

  cow_dry_run_linux-IsFalse :
      {E : Type 0} (tmp_dir : FilePath) → Yields {E = E} IsFalse (cow_dry_run_linux sys tmp_dir)
  unfolding cow_dry_run_linux
  cow_dry_run_linux-IsFalse tmp_dir = >>=-Yields _ _ new_uuid-Yields λ u _.
      >>=-Yields _ _ new_uuid-Yields λ v _.
        >>=-Yields _ _
          (attempt-Yields _ (clone_linux-IsFalse (src_path tmp_dir u) (dst_path tmp_dir v)))
          λ r h. cleaned_up-IsFalse _ _ r h

  cow_dry_run_macos-IsFalse :
      {E : Type 0} (tmp_dir : FilePath) → Yields {E = E} IsFalse (cow_dry_run_macos sys tmp_dir)
  unfolding cow_dry_run_macos
  cow_dry_run_macos-IsFalse tmp_dir = >>=-Yields _ _ new_uuid-Yields λ u _.
      >>=-Yields _ _ new_uuid-Yields λ v _.
        >>=-Yields _ _
          (attempt-Yields _ (clone_macos-IsFalse (src_path tmp_dir u) (dst_path tmp_dir v)))
          λ r h. cleaned_up-IsFalse _ _ r h

  duplicate_between-IsFalse :
      {E : Type 0} (src dst : Result IoError ℕ)
      → Yields {E = E} IsFalse (duplicate_between sys src dst)
  unfolding duplicate_between
  duplicate_between-IsFalse (ok a) (ok b) =
      tried (sys.duplicate_extents b a) (n.duplicate_extents b a)
  duplicate_between-IsFalse (ok a) (err e) = pure-Yields _ refl
  duplicate_between-IsFalse (err e) dst = pure-Yields _ refl

  close_opened-Yields :
      {E : Type 0} (handle : Result IoError ℕ)
      → Yields {E = E} (λ _. Unit {0}) (close_opened sys handle)
  unfolding close_opened
  close_opened-Yields (ok h) = attempted_Yields (sys.close_handle h) _ λ _. pure-Yields _ tt
  close_opened-Yields (err e) = pure-Yields _ tt

  clone_windows-IsFalse :
      {E : Type 0} (src dst : FilePath) → Yields {E = E} IsFalse (clone_windows sys src dst)
  unfolding clone_windows
  clone_windows-IsFalse src dst = attempted_Yields (sys.open_existing src) _ λ a.
      attempted_Yields (sys.open_always dst) _ λ b.
        >>=-Yields _ _ (duplicate_between-IsFalse a b) λ success f.
          >>=-Yields _ _ (close_opened-Yields a)
            λ _ _. >>=-Yields _ _ (close_opened-Yields b) λ _ _. pure-Yields success f

  cow_dry_run_windows-IsFalse :
      {E : Type 0} (tmp_dir : FilePath) → Yields {E = E} IsFalse (cow_dry_run_windows sys tmp_dir)
  unfolding cow_dry_run_windows
  cow_dry_run_windows-IsFalse tmp_dir = >>=-Yields _ _ new_uuid-Yields λ u _.
      >>=-Yields _ _ new_uuid-Yields λ v _.
        attempted_Yields (write_sentinel (src_path tmp_dir u) 0xAB) _ λ r.
          Result-Yields r _ _
            (λ _. >>=-Yields _ _ (clone_windows-IsFalse _ _) λ b f. cleaned_up-IsFalse _ _ (ok b) f)
            (λ e. attempted_Yields (remove_file (src_path tmp_dir u)) _ λ _. pure-Yields _ refl)

  abbrev Hardlinked : LinkStrategy → Type 0
  Hardlinked s = is_hardlink s ≡ true

  -- The strategy that a build goes back to.
  fallen_back :
      {E : Type 0} (cow fallback : LinkStrategy) (m : M E Bool)
      → Hardlinked fallback
      → Yields IsFalse m
      → Yields Hardlinked (m >>= λ cloned. pure (if_cloned cow fallback cloned))
  fallen_back cow fallback m h y = >>=-Yields _ _ y λ b f. pure-Yields _ (chosen b f)
    where
      chosen : (b : Bool) → b ≡ false → Hardlinked (if_cloned cow fallback b)
      chosen true e = absurd (ground arith)
      chosen false e = h

  detect_strategy_windows-Hardlinked :
      {E : Type 0} (feature : Bool) (root tmp_dir : FilePath)
      → Yields {E = E} Hardlinked (detect_strategy_windows sys feature root tmp_dir)
  unfolding detect_strategy_windows detect_strategy_windows_ntfs is_hardlink
  detect_strategy_windows-Hardlinked false root tmp_dir = pure-Yields _ refl
  detect_strategy_windows-Hardlinked true root tmp_dir =
      attempted_Yields (sys.volume_flags root) _ λ r.
        Result-Yields r _ _
          (λ flags.
            Bool-Yields _ _ _ (fallen_back _ _ _ refl (cow_dry_run_windows-IsFalse tmp_dir))
              (pure-Yields _ refl))
          (λ e. pure-Yields _ refl)

  detect_strategy_linux-Hardlinked :
      {E : Type 0} (feature : Bool) (root tmp_dir : FilePath)
      → Yields {E = E} Hardlinked (detect_strategy_linux sys feature root tmp_dir)
  unfolding detect_strategy_linux detect_strategy_linux_cow linux_statfs_type is_hardlink
  detect_strategy_linux-Hardlinked false root tmp_dir = pure-Yields _ refl
  detect_strategy_linux-Hardlinked true root tmp_dir =
      attempted_Yields (c_string root (sys.statfs root)) _ λ r.
        Result-Yields r _ _
          (λ t.
            Bool-Yields _ _ _ (fallen_back _ _ _ refl (cow_dry_run_linux-IsFalse tmp_dir))
              (pure-Yields _ refl))
          (λ e. pure-Yields _ refl)

  strategy_for-Hardlinked :
      {E : Type 0} (os : TargetOs) (build : Build) (root tmp_dir : FilePath)
      → Yields {E = E} Hardlinked (strategy_for sys os build root tmp_dir)
  unfolding strategy_for detect_strategy_macos is_hardlink
  strategy_for-Hardlinked linux build root tmp_dir =
      detect_strategy_linux-Hardlinked build.linux_cow root tmp_dir
  strategy_for-Hardlinked windows build root tmp_dir =
      detect_strategy_windows-Hardlinked build.windows_ntfs root tmp_dir
  strategy_for-Hardlinked macos build root tmp_dir =
      fallen_back _ _ _ refl (cow_dry_run_macos-IsFalse tmp_dir)
  strategy_for-Hardlinked other build root tmp_dir = pure-Yields _ refl

  -- On a volume that cannot clone, every build finds a strategy, and it is one of hard links, whatever calls of the
  -- detection fail and whatever other processes do.
  pub detect_strategy_of-is_hardlink :
      {E : Type 0} (build : Build) (root tmp_dir : FilePath) (w : World)
      → (s : LinkStrategy) × (v : World) × (detect_strategy_of sys {E = E} build root tmp_dir w
          ≡ (ok s, v))
        × (is_hardlink s ≡ true)
  unfolding detect_strategy_of
  detect_strategy_of-is_hardlink build root tmp_dir w =
      (strategy_for-Hardlinked build.target_os build root tmp_dir).run w
