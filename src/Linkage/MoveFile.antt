-- ===== src/Linkage/MoveFile.antt =====
-- crates/itan-core/src/linkage.rs: the rename that puts the link in place, in the build with `windows-ntfs`. The call
-- of Win32 and the encoding of names are parameters.
use i_tan_reclaim_space.Base.{
  ℕ, ◌+◌, ◌≡◌, ◌≢◌, refl, ap, false, List, [], ◌∷◌, ◌++◌, ◌==◌, if◌then◌else◌, arith,
}
use i_tan_reclaim_space.Base.Results.{Result, ok, err}
use i_tan_reclaim_space.Fs.Calls.{has_zero_byte, rename}
use i_tan_reclaim_space.Fs.Path.{FilePath}
use i_tan_reclaim_space.Fs.State.{IoError}
use i_tan_reclaim_space.Fs.World.{World, M}

abbrev movefile_replace_existing : ℕ
movefile_replace_existing = 1

abbrev movefile_write_through : ℕ
movefile_write_through = 8

-- `MoveFileExW`, with the value that it returns and the last error of the thread, and `encode_wide`.
pub record MoveApi : Type 0 where
  pub encode_wide : FilePath → List ℕ
  pub move_file_ex : List ℕ → List ℕ → ℕ → World → (ℕ × IoError) × World

module _ (api : MoveApi) where
  abbrev wide : FilePath → List ℕ
  wide path = api.encode_wide path ++ (0 ∷ [])

  abbrev reported : (ℕ × IoError) × World → Result IoError (Unit {0}) × World
  reported r = (if r.0.0 == 0 then err r.0.1 else ok tt, r.1)

  reported_lem :
      (m : (ℕ × IoError) × World) (r : Result IoError (Unit {0}) × World)
      → (r.0 ≡ ok tt → (m.0.0 ≢ 0) × (m.1 ≡ r.1))
      → ((e : IoError) → r.0 ≡ err e → m ≡ ((0, e), r.1))
      → reported m ≡ r
  reported_lem m (ok x, w) moved refused =
      let (n, e) = moved refl in
      let nonzero : (m.0.0 == 0) ≡ false = ground (arith, n) in rw (nonzero, e) refl
  reported_lem m (err x, w) moved refused = ap reported (refused x refl)

  -- The flags have no bit in common, so that their sum is `|`.
  unfoldable pub atomic_replace_windows : FilePath → FilePath → M IoError (Unit {0})
  atomic_replace_windows src dst w = reported (
      api.move_file_ex (wide src) (wide dst) (movefile_replace_existing + movefile_write_through) w)

  -- The documentation of the call, for names that end at their zero: with both flags it moves a file as a rename does,
  -- whatever has the new name, and returns a value other than zero, or zero with the reason.
  pub record IsMoveApi : Type 0 where
    pub moved :
        (src dst : FilePath) (w : World)
        → has_zero_byte src ≡ false
        → has_zero_byte dst ≡ false
        → (rename src dst w).0 ≡ ok tt
        → ((api.move_file_ex (wide src) (wide dst) 9 w).0.0 ≢ 0)
          × ((api.move_file_ex (wide src) (wide dst) 9 w).1 ≡ (rename src dst w).1)
    pub refused :
        (src dst : FilePath) (e : IoError) (w : World)
        → has_zero_byte src ≡ false
        → has_zero_byte dst ≡ false
        → (rename src dst w).0 ≡ err e
        → api.move_file_ex (wide src) (wide dst) 9 w ≡ ((0, e), (rename src dst w).1)

  -- Both builds of Windows put the link in place alike, errors included, if no name has a zero byte.
  atomic_replace_windows-rename :
      IsMoveApi
      → (src dst : FilePath) (w : World) → has_zero_byte src ≡ false
      → has_zero_byte dst ≡ false
      → atomic_replace_windows src dst w ≡ rename src dst w
  unfolding atomic_replace_windows
  atomic_replace_windows-rename law src dst w zs zd =
      reported_lem _ (rename src dst w) (law.moved src dst w zs zd)
        (λ e. law.refused src dst e w zs zd)
