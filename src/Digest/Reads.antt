-- ===== src/Digest/Reads.antt =====
-- `full_cas_digest` on a volume that stays the same, whatever calls fail.
use mathlib.Core.Path.{subst}
use i_tan_reclaim_space.Base.{
  ℕ, zero, suc, ◌+◌, ◌^◌, ◌≡◌, refl, sym, ap, Bytes, Bool, true, false, some, ◌==◌, length,
  Option-cases, inl, inr,
}
use i_tan_reclaim_space.Fs.Delivers.{Same}
use i_tan_reclaim_space.Fs.Ensures.{
  Ensures, Ensures-map, Holds, >>=-Ensures, map_err-Ensures, pure-Ensures, query-Ensures,
  platform-Keeps,
}
use i_tan_reclaim_space.Fs.Handles.{file_open, open_of}
use i_tan_reclaim_space.Fs.Path.{FilePath}
use i_tan_reclaim_space.Fs.State.{Fs}
use i_tan_reclaim_space.Fs.Table.{find}
use i_tan_reclaim_space.Fs.World.{Platform, unix, windows, other, M, pure}
use i_tan_reclaim_space.Capability.{LinkStrategy}
use i_tan_reclaim_space.Digest.{
  Hasher, open_file_for_read, open_on, open_file_with_sequential_hint, read_block, digest_rounds,
  full_cas_digest,
}
use i_tan_reclaim_space.Digest.Rounds.{block_at, rounds_of, digest_of}

module _ (fs : Fs) where
  open_file_for_read-Ensures :
      (path : FilePath)
      → Ensures (Same fs) (λ i. find path fs.table ≡ some i) (open_file_for_read path)
  unfolding open_file_for_read file_open
  open_file_for_read-Ensures path = map_err-Ensures _ _ (
      query-Ensures (open_of path)
        λ v e. subst (λ x. Holds (λ i. find path fs.table ≡ some i) (open_of path x)) (sym e) found)
    where
      found : Holds (λ i. find path fs.table ≡ some i) (open_of path fs)
      found = elim (Option-cases (find path fs.table)) [
        | inl e ↦ rw (e, open_of) tt
        | inr (i, e) ↦ rw (e, open_of) refl
      ]

  open_on-Ensures :
      (os : Platform) (path : FilePath)
      → Ensures (Same fs) (λ i. find path fs.table ≡ some i) (open_on os path)
  unfolding open_on
  open_on-Ensures unix path =
      >>=-Ensures _ _ (open_file_for_read-Ensures path) λ _ _. open_file_for_read-Ensures path
  open_on-Ensures windows path = open_file_for_read-Ensures path
  open_on-Ensures other path = open_file_for_read-Ensures path

  module _ (h : Hasher) (granted : ℕ → ℕ) where
    read_block-Ensures :
        (i offset : ℕ)
        → Ensures
            (Same fs)
            (λ b. b ≡ block_at h granted (fs.inode i).content offset)
            (read_block h granted i offset)
    unfolding read_block
    read_block-Ensures i offset =
        query-Ensures _ (λ v e. ap (λ (x : Fs). block_at h granted (x.inode i).content offset) e)

    Bool-digest :
        {E : Type 0} (b : Bool) (x y : Bytes) (m : M E Bytes)
        → Ensures (Same fs) (λ d. d ≡ y) m
        → Ensures
            (Same fs)
            (λ d. d ≡ elim b [ true ↦ x | false ↦ y ])
            (elim b [ true ↦ pure x | false ↦ m ])
    Bool-digest true x y m k = pure-Ensures _ refl
    Bool-digest false x y m k = k

    digest_rounds-Ensures :
        (rounds : ℕ) (path : FilePath) (i offset : ℕ) (hasher : h.State)
        → Ensures
            (Same fs)
            (λ d. d ≡ rounds_of h granted rounds (fs.inode i).content offset hasher)
            (digest_rounds h granted rounds path i offset hasher)
    unfolding digest_rounds rounds_of
    digest_rounds-Ensures zero path i offset hasher = pure-Ensures _ refl
    digest_rounds-Ensures (suc rounds) path i offset hasher =
        >>=-Ensures _ _ (map_err-Ensures _ _ (read_block-Ensures i offset)) λ block e.
          subst
            (λ (b : Bytes).
              Ensures (Same fs)
                (λ d. d ≡ elim (length b == 0) [
                  | true ↦ h.finalize hasher
                  | false ↦
                      rounds_of h granted rounds (fs.inode i).content (offset + length b)
                        (h.update hasher b)
                ])
                (elim (length block == 0) [
                  | true ↦ pure (h.finalize hasher)
                  | false ↦
                      digest_rounds h granted rounds path i (offset + length block)
                        (h.update hasher block)
                ]))
            e
            (Bool-digest (length block == 0) _ _ _
              (digest_rounds-Ensures rounds path i (offset + length block) (h.update hasher block)))

    -- The digest is that of the content, if there is one.
    pub full_cas_digest-Ensures :
        (path : FilePath) (strategy : LinkStrategy)
        → Ensures
            (Same fs)
            (λ d.
              (i : ℕ) × (find path fs.table ≡ some i)
              × (d ≡ digest_of h granted (fs.inode i).content))
            (full_cas_digest h granted path strategy)
    unfolding full_cas_digest open_file_with_sequential_hint digest_of
    full_cas_digest-Ensures path strategy =
        >>=-Ensures _ _ (>>=-Ensures _ _ platform-Keeps λ os _. open_on-Ensures os path)
          λ i e. Ensures-map _ (digest_rounds-Ensures (2 ^ 63) path i 0 h.new) (λ d g. (i, e, g))
