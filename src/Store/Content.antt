-- ===== src/Store/Content.antt =====
-- The content-addressed part of a volume: the names that are trusted to hold the content of one
-- digest, the names that are never absent, and what each call of the file system has to respect.
pub mod Copies
use mathlib.Core.Logic.{if_pos, if_neg}
use i_tan_reclaim_space.Base.{
  ℕ, suc, ◌<◌, ◌≡◌, ◌≢◌, Bytes, [], ◌∷◌, Option, none, some, All, arith, ℕ_discrete, Option-cases,
  inl, inr, Bool, true, false, if◌then◌else◌, Bool-cases,
}
use i_tan_reclaim_space.Fs.Path.{Name, FilePath}
use i_tan_reclaim_space.Fs.Table.{Table, find, erase, bind, find-erase, find-bind}
use i_tan_reclaim_space.Fs.Ensures.{Holds, Holds-all}
use i_tan_reclaim_space.Fs.State.{
  Fs, has_dir, has_parent, replace, overwrite, create, link_op, rename_op, remove_op, chmod_op,
  copy_op, mkdir_op, has_file, ancestors_in,
}

-- Every inode in use is older than the next one.
abbrev pub Bounded : ℕ → Table → Type 0
Bounded n = All (λ e. e.1 < n)

pub Bounded-find :
    (n : ℕ) (p : FilePath) (i : ℕ) (t : Table) → Bounded n t → find p t ≡ some i → i < n
unfolding find
Bounded-find n p i [] b e = cc
Bounded-find n p i ((q, j) ∷ t) b e = ground (arith, Bounded-find n p i t b.1)

pub Bounded-erase : (n : ℕ) (p : FilePath) (t : Table) → Bounded n t → Bounded n (erase p t)
unfolding erase
Bounded-erase n p [] b = tt
Bounded-erase n p ((q, j) ∷ t) b = ground (arith, Bounded-erase n p t b.1)

pub Bounded-suc : (n : ℕ) (t : Table) → Bounded n t → Bounded (suc n) t
Bounded-suc n [] b = tt
Bounded-suc n (e ∷ t) b = (omega arith, Bounded-suc n t b.1)

module _ (hash : Bytes → Bytes) (d : Bytes) (tmp : FilePath) (Trusted : FilePath → Type 0)
    (Kept : FilePath → Type 0) where
  pub record IsSound (fs : Fs) : Type 0 where
    pub bounded : Bounded fs.next_ino fs.table
    -- A staging file has one name only.
    pub staged :
        (n : Name) (p : FilePath) (j : ℕ)
        → find (n ∷ tmp) fs.table ≡ some j
        → find p fs.table ≡ some j
        → p ≡ n ∷ tmp
    pub trusted :
        (p : FilePath) (j : ℕ)
        → Trusted p
        → find p fs.table ≡ some j
        → hash (fs.inode j).content ≡ d
    pub present : (p : FilePath) → Kept p → find p fs.table ≢ none

  abbrev pub NotStaged : FilePath → Type 0
  NotStaged p = (n : Name) → p ≢ n ∷ tmp

  pub chmod_op-IsSound : (p : FilePath) (m : ℕ) (fs : Fs) → IsSound fs → IsSound (chmod_op p m fs).1
  unfolding chmod_op
  chmod_op-IsSound p m fs v = elim (Option-cases (find p fs.table)) [
    | inl e ↦ rw (e, chmod_op) v
    | inr (i, e) ↦
        rw (e, chmod_op)
          (record {
            bounded = v.bounded;
            staged = v.staged;
            trusted = λ q j g f. ground (arith, v.trusted q j g f);
            present = v.present;
          })
  ]

  pub mkdir_op-IsSound : (p : FilePath) (fs : Fs) → IsSound fs → IsSound (mkdir_op p fs).1
  unfolding mkdir_op
  mkdir_op-IsSound p fs v = elim (Bool-cases (has_file (ancestors_in p) fs.table)) [
    | inl e ↦ rw (e, mkdir_op) v
    | inr e ↦
        rw (e, mkdir_op)
          (record {
            bounded = v.bounded;
            staged = v.staged;
            trusted = v.trusted;
            present = v.present;
          })
  ]

  pub remove_op-IsSound :
      (p : FilePath) → (Kept p → ⊥) → (fs : Fs) → IsSound fs → IsSound (remove_op p fs).1
  unfolding remove_op
  remove_op-IsSound p ne fs v = elim (Option-cases (find p fs.table)) [
    | inl e ↦ rw (e, remove_op) v
    | inr (i, e) ↦
        rw (e, remove_op)
          (record {
            bounded = Bounded-erase _ p fs.table v.bounded;
            staged = λ n q j f g.
                ground
                  (arith, find-erase p (n ∷ tmp) fs.table, find-erase p q fs.table, v.staged n q j);
            trusted = λ q j g f. ground (arith, find-erase p q fs.table, v.trusted q j g);
            present = λ q k f. ground (arith, find-erase p q fs.table, v.present q k, ne);
          })
  ]

  -- A name that is bound to the inode of another: a trusted one only to that of a trusted one.
  bind-IsSound :
      (src dst : FilePath) (i : ℕ) (t : Table) (fs : Fs)
      → IsSound (record fs { table = t })
      → NotStaged src
      → NotStaged dst
      → (Trusted dst → Trusted src)
      → find src t ≡ some i
      → IsSound (record fs { table = bind dst i t })
  unfolding bind
  bind-IsSound src dst i t fs v hs hd h e = record {
    bounded = (Bounded-find _ src i t v.bounded e, Bounded-erase _ dst t v.bounded);
    staged = λ n q j f g. ground (
      arith,
      find-bind dst (n ∷ tmp) i t,
      find-bind dst q i t,
      v.staged n q j,
      v.staged n src j,
      hs n,
      hd n,
    );
    trusted = λ q j g f.
        ground (
          arith,
          find-bind dst q i t,
          v.trusted q j g,
          λ (k : Trusted src). v.trusted src i k e,
          h,
        );
    present = λ q k f. ground (arith, find-bind dst q i t, v.present q k);
  }

  -- Each branch of a test is sound.
  pub if-IsSound :
      {A : Type 0} (b : Bool) (x y : A × Fs)
      → IsSound x.1
      → IsSound y.1
      → IsSound (if b then x else y).1
  if-IsSound true x y vx vy = vx
  if-IsSound false x y vx vy = vy

  pub link_op-IsSound :
      (src dst : FilePath)
      → NotStaged src
      → NotStaged dst
      → ((Kept dst → ⊥) → Trusted dst → Trusted src)
      → (fs : Fs) → IsSound fs
      → IsSound (link_op src dst fs).1
  unfolding link_op
  link_op-IsSound src dst hs hd h fs v = elim (Option-cases (find src fs.table)) [
    | inl e ↦ rw (e, link_op) v
    | inr (i, e) ↦
        rw (e, link_op)
          (elim (Option-cases (find dst fs.table)) [
            | inr (j, f) ↦ rw f v
            | inl f ↦ rw f (
                if-IsSound (has_dir dst fs.dirs) _ _ v (
                  if-IsSound (has_parent dst fs) _ _
                    (bind-IsSound src dst i fs.table fs v hs hd (h (λ k. v.present dst k f)) e) v))
          ])
  ]

  -- A link is made only where there is no name yet.
  pub link_op-free :
      (src dst : FilePath) (fs : Fs) → IsSound fs → Holds (λ _. Kept dst → ⊥) (link_op src dst fs).0
  unfolding link_op
  link_op-free src dst fs v = elim (Option-cases (find dst fs.table)) [
    | inl f ↦ Holds-all (λ k. v.present dst k f) (link_op src dst fs).0
    | inr (j, f) ↦ elim (Option-cases (find src fs.table)) [
      | inl e ↦ rw (e, link_op) tt
      | inr (i, e) ↦ rw (e, f, link_op) tt
    ]
  ]

  -- A rename moves the inode, so its old name is not one that is kept. A staging file may move.
  rebind-IsSound :
      (src dst : FilePath) (i : ℕ) (fs : Fs)
      → IsSound fs
      → NotStaged dst
      → (Kept src → ⊥)
      → (Trusted dst → Trusted src)
      → find src fs.table ≡ some i
      → IsSound (record fs { table = bind dst i (erase src fs.table) })
  unfolding bind
  rebind-IsSound src dst i fs v hd ne h e = record {
    bounded = (
      Bounded-find _ src i fs.table v.bounded e,
      Bounded-erase _ dst _ (Bounded-erase _ src fs.table v.bounded),
    );
    staged = λ n q j f g. ground (
      arith,
      find-bind dst (n ∷ tmp) i (erase src fs.table),
      find-bind dst q i (erase src fs.table),
      find-erase src (n ∷ tmp) fs.table,
      find-erase src q fs.table,
      v.staged n q j,
      v.staged n src j,
      hd n,
    );
    trusted = λ q j g f. ground (
      arith,
      find-bind dst q i (erase src fs.table),
      find-erase src q fs.table,
      v.trusted q j g,
      λ (k : Trusted src). v.trusted src i k e,
      h,
    );
    present = λ q k f. ground (
      arith,
      find-bind dst q i (erase src fs.table),
      find-erase src q fs.table,
      v.present q k,
      ne,
    );
  }

  replace-IsSound :
      (src dst : FilePath) (i : ℕ) (o : Option ℕ) (fs : Fs)
      → IsSound fs
      → NotStaged dst
      → (Kept src → ⊥)
      → (Trusted dst → Trusted src)
      → find src fs.table ≡ some i
      → IsSound (record fs { table = replace src dst i o fs.table })
  unfolding replace
  replace-IsSound src dst i none fs v hd ne h e = rebind-IsSound src dst i fs v hd ne h e
  replace-IsSound src dst i (some j) fs v hd ne h e = elim (ℕ_discrete i j) [
    | yes p ↦ rw (if_pos _ p) v
    | no p ↦ rw (if_neg _ p) (rebind-IsSound src dst i fs v hd ne h e)
  ]

  pub rename_op-IsSound :
      (src dst : FilePath)
      → NotStaged dst
      → (Kept src → ⊥)
      → (Trusted dst → Trusted src)
      → (fs : Fs) → IsSound fs
      → IsSound (rename_op src dst fs).1
  unfolding rename_op
  rename_op-IsSound src dst hd ne h fs v = elim (Option-cases (find src fs.table)) [
    | inl e ↦ rw (e, rename_op) v
    | inr (i, e) ↦
        rw (e, rename_op)
          (if-IsSound (has_dir dst fs.dirs) _ _ v (
            if-IsSound (has_parent dst fs) _ _
              (replace-IsSound src dst i (find dst fs.table) fs v hd ne h e) v))
  ]
