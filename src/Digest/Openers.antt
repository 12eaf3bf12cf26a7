-- ===== src/Digest/Openers.antt =====
-- crates/itan-core/src/digest.rs: the openers that give a hint to the system, of Windows and of the build with
-- `linux-cow`. The calls of the systems are parameters.
use i_tan_reclaim_space.Base.{ℕ, ◌^◌, Bytes, ◌≡◌, refl, sym, ap, ◌∙◌}
use i_tan_reclaim_space.Base.Results.{Result, ok, err}
use i_tan_reclaim_space.Capability.{LinkStrategy}
use i_tan_reclaim_space.Digest.{
  DigestError, open_failed, open_file_for_read, open_file_with_sequential_hint, full_cas_digest,
  Hasher, digest_rounds, open_on,
}
use i_tan_reclaim_space.Fs.Handles.{file_open}
use i_tan_reclaim_space.Fs.Path.{FilePath}
use i_tan_reclaim_space.Fs.State.{IoError}
use i_tan_reclaim_space.Fs.World.{World, M, windows, pure, ◌>>=◌, map_err, platform}

-- `OpenOptions::open` for reading with `custom_flags`, and `libc::posix_fadvise` by its arguments.
pub record HintApi : Type 0 where
  pub open_with_flags : ℕ → FilePath → M IoError ℕ
  pub posix_fadvise : ℕ → ℕ → ℕ → ℕ → World → ℕ × World
  pub fadv_sequential : ℕ

abbrev file_flag_sequential_scan : ℕ
file_flag_sequential_scan = 0x0800_0000

module _ (api : HintApi) where
  unfoldable pub open_file_sequential_windows : FilePath → LinkStrategy → M DigestError ℕ
  open_file_sequential_windows path strategy =
      map_err (open_failed path) (api.open_with_flags file_flag_sequential_scan path)

  -- What the call returns is logged.
  unfoldable advise : ℕ → M DigestError ℕ
  advise file w = let r = api.posix_fadvise file 0 0 api.fadv_sequential w in (ok r.0, r.1)

  unfoldable pub open_file_sequential_linux : FilePath → LinkStrategy → M DigestError ℕ
  unfolding open_file_for_read advise
  open_file_sequential_linux path strategy = do
    file ← open_file_for_read path
    _ ← advise file
    pure file

  -- The documentation of the calls: the flag and the advice have no effect on what is read.
  pub record IsHintApi : Type 0 where
    pub flagged :
        (path : FilePath) (w : World)
        → api.open_with_flags file_flag_sequential_scan path w ≡ file_open path w
    pub advised : (file : ℕ) (w : World) → (api.posix_fadvise file 0 0 api.fadv_sequential w).1 ≡ w

  module _ (law : IsHintApi) where
    open_file_sequential_windows-open_file_for_read :
        (path : FilePath) (strategy : LinkStrategy) (w : World)
        → open_file_sequential_windows path strategy w ≡ open_file_for_read path w
    unfolding open_file_sequential_windows open_file_for_read map_err
    open_file_sequential_windows-open_file_for_read path strategy w = rw (law.flagged path w) refl

    open_file_sequential_linux-open_file_for_read :
        (path : FilePath) (strategy : LinkStrategy) (w : World)
        → open_file_sequential_linux path strategy w ≡ open_file_for_read path w
    unfolding open_file_sequential_linux ◌>>=◌ advise
    open_file_sequential_linux-open_file_for_read path strategy w =
        after (open_file_for_read path w)
      where
        after :
            (r : Result DigestError ℕ × World)
            → ◌>>=◌ (λ _. r) (λ file. advise file >>= λ _. pure file) w ≡ r
        after (ok file, v) = ap (λ x. (ok file, x)) (law.advised file v)
        after (err e, v) = refl

    -- The digest of a file in a build for Windows is that which the model computes there.
    full_cas_digest-open_file_sequential_windows :
        (h : Hasher) (granted : ℕ → ℕ) (path : FilePath) (strategy : LinkStrategy) (w : World)
        → w.os ≡ windows
        → full_cas_digest h granted path strategy w
          ≡ ◌>>=◌
              (open_file_sequential_windows path strategy)
              (λ file. digest_rounds h granted (2 ^ 63) path file 0 h.new)
              w
    unfolding full_cas_digest open_file_with_sequential_hint open_on ◌>>=◌ platform
    full_cas_digest-open_file_sequential_windows h granted path strategy w e =
        let rest : ℕ → M DigestError Bytes =
          λ file. digest_rounds h granted (2 ^ 63) path file 0 h.new in
        ap (λ os. ◌>>=◌ (open_on os path) rest w) e
        ∙ ap (λ r. ◌>>=◌ (λ _. r) rest w)
            (sym (open_file_sequential_windows-open_file_for_read path strategy w))
