-- ===== src/Fs/Undisturbed.antt =====
-- A file that a call does not touch keeps its inode and its content.
use i_tan_reclaim_space.Base.{
  ℕ, ◌≡◌, ◌∙◌, ◌≢◌, Bytes, Bool, true, false, Option, none, some, arith, Option-cases, inl, inr,
  if◌then◌else◌,
}
use i_tan_reclaim_space.Fs.Path.{FilePath}
use i_tan_reclaim_space.Fs.Table.{Table, find, erase, find-erase, find-bind}
use i_tan_reclaim_space.Fs.State.{
  Fs, has_dir, has_parent, has_file, ancestors_in, replace, rename_op, remove_op, mkdir_op,
}
use i_tan_reclaim_space.Fs.Ensures.{Keeps, rename-Keeps, remove_file-Keeps, create_dir_all-Keeps}
use i_tan_reclaim_space.Fs.Calls.{rename, remove_file, create_dir_all}

-- The path names the inode `i`, which holds `c`.
abbrev pub Undisturbed : FilePath → ℕ → Bytes → Fs → Type 0
Undisturbed p i c fs = (find p fs.table ≡ some i) × ((fs.inode i).content ≡ c)

module _ (p : FilePath) (i : ℕ) (c : Bytes) where
  find-replace :
      (src dst : FilePath) (j : ℕ) (o : Option ℕ) (t : Table)
      → p ≢ src
      → p ≢ dst
      → find p (replace src dst j o t) ≡ find p t
  unfolding replace
  find-replace src dst j none t hs hd =
      ground (arith, find-bind dst p j (erase src t), find-erase src p t)
  find-replace src dst j (some k) t hs hd =
      ground (arith, find-bind dst p j (erase src t), find-erase src p t)

  if-Undisturbed :
      {A : Type 0} (b : Bool) (x y : A × Fs)
      → Undisturbed p i c x.1
      → Undisturbed p i c y.1
      → Undisturbed p i c (if b then x else y).1
  if-Undisturbed true x y vx vy = vx
  if-Undisturbed false x y vx vy = vy

  pub rename_op-Undisturbed :
      (src dst : FilePath)
      → p ≢ src
      → p ≢ dst
      → (fs : Fs) → Undisturbed p i c fs
      → Undisturbed p i c (rename_op src dst fs).1
  unfolding rename_op
  rename_op-Undisturbed src dst hs hd fs u = elim (Option-cases (find src fs.table)) [
    | inl e ↦ rw (e, rename_op) u
    | inr (j, e) ↦
        rw (e, rename_op)
          (if-Undisturbed (has_dir dst fs.dirs) _ _ u (
            if-Undisturbed (has_parent dst fs) _ _
              (find-replace src dst j (find dst fs.table) fs.table hs hd ∙ u.0, u.1) u))
  ]

  pub rename-Undisturbed :
      (src dst : FilePath) → p ≢ src → p ≢ dst → Keeps (Undisturbed p i c) (rename src dst)
  rename-Undisturbed src dst hs hd = rename-Keeps src dst (rename_op-Undisturbed src dst hs hd)

  pub remove_op-Undisturbed :
      (q : FilePath)
      → p ≢ q
      → (fs : Fs) → Undisturbed p i c fs
      → Undisturbed p i c (remove_op q fs).1
  unfolding remove_op
  remove_op-Undisturbed q h fs u = elim (Option-cases (find q fs.table)) [
    | inl e ↦ rw (e, remove_op) u
    | inr (j, e) ↦ rw (e, remove_op) (ground (arith, find-erase q p fs.table), u.1)
  ]

  pub remove_file-Undisturbed : (q : FilePath) → p ≢ q → Keeps (Undisturbed p i c) (remove_file q)
  remove_file-Undisturbed q h = remove_file-Keeps q (remove_op-Undisturbed q h)

  pub mkdir_op-Undisturbed :
      (q : FilePath) (fs : Fs) → Undisturbed p i c fs → Undisturbed p i c (mkdir_op q fs).1
  unfolding mkdir_op
  mkdir_op-Undisturbed q fs u = if-Undisturbed (has_file (ancestors_in q) fs.table) _ _ u u

  pub create_dir_all-Undisturbed : (q : FilePath) → Keeps (Undisturbed p i c) (create_dir_all q)
  create_dir_all-Undisturbed q = create_dir_all-Keeps q mkdir_op-Undisturbed
