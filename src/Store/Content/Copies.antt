-- ===== src/Store/Content/Copies.antt =====
-- What a copy into the staging area has to respect of the content-addressed part of a volume.
use mathlib.Core.Path.{subst}
use i_tan_reclaim_space.Base.{
  ℕ, ℕ_discrete, ◌≡◌, ◌≢◌, refl, ap, ◌∙◌, Bytes, Bool, true, false, if◌then◌else◌, ◌∷◌, Option,
  none, some, arith, Option-cases, inl, inr,
}
use i_tan_reclaim_space.Base.Results.{Result, ok, err}
use i_tan_reclaim_space.Fs.Calls.{copy, copied_or_cut, written_first}
use i_tan_reclaim_space.Fs.Ensures.{take_turn-Inv, take_turn-Since, Since}
use i_tan_reclaim_space.Fs.Path.{Name, FilePath, path_dec}
use i_tan_reclaim_space.Fs.Quietly.{Under, Others-Since, All-Respect}
use i_tan_reclaim_space.Fs.State.{
  Fs, IoError, not_found, is_a_directory, has_dir, has_parent, overwrite, create, copy_op, truncate,
  cut_short, partial_copy_op,
}
use i_tan_reclaim_space.Fs.Table.{find, bind, find-bind}
use i_tan_reclaim_space.Fs.World.{World, take_turn}
use i_tan_reclaim_space.Store.Content.{Bounded-find, Bounded-erase, Bounded-suc, IsSound, NotStaged}

-- A name that is trusted besides: that of a copy of a file, if the file is trusted.
pub data With (tmp : FilePath) (Trusted : FilePath → Type 0) (src : FilePath) (n : Name)
    (p : FilePath) : Type 0 where
  old : Trusted p → With tmp Trusted src n p
  fresh : Trusted src → p ≡ n ∷ tmp → With tmp Trusted src n p

module _ (hash : Bytes → Bytes) (d : Bytes) (tmp : FilePath) (Trusted : FilePath → Type 0)
    (Kept : FilePath → Type 0) where
  abbrev Sound : Fs → Type 0
  Sound = IsSound hash d tmp Trusted Kept

  -- Once it has been written, a staging file is trusted too.
  abbrev pub Staged : FilePath → Name → Fs → Type 0
  Staged src n = IsSound hash d tmp (With tmp Trusted src n) Kept

  pub Staged-IsSound : (src : FilePath) (n : Name) (fs : Fs) → Staged src n fs → Sound fs
  Staged-IsSound src n fs v = record {
    bounded = v.bounded;
    staged = v.staged;
    trusted = λ p j t. v.trusted p j (old t);
    present = v.present;
  }

  module _ (src : FilePath) (n : Name) (i : ℕ) (fs : Fs) (v : Sound fs)
      (e : find src fs.table ≡ some i) where
    source_content : Trusted src → hash (fs.inode i).content ≡ d
    source_content t = v.trusted src i t e

    split :
        (q : FilePath)
        → With tmp Trusted src n q
        → (q ≢ n ∷ tmp → (k : ℕ) → find q fs.table ≡ some k → hash (fs.inode k).content ≡ d)
          × (q ≡ n ∷ tmp → (Trusted (n ∷ tmp) → ⊥) → hash (fs.inode i).content ≡ d)
    split q (old t) = (λ ne k f. v.trusted q k t f, λ g l. absurd (l (subst Trusted g t)))
    split q (fresh t g) = (λ ne. absurd (ne g), λ g l. source_content t)

    module _ (loose : Trusted (n ∷ tmp) → ⊥) where
      overwrite-Staged :
          (j now : ℕ)
          → NotStaged hash d tmp Trusted Kept src
          → find (n ∷ tmp) fs.table ≡ some j
          → Staged src n (overwrite i j now fs)
      unfolding overwrite
      overwrite-Staged j now hs f = record {
        bounded = v.bounded;
        staged = v.staged;
        trusted = λ q k gq fq. elim (path_dec q (n ∷ tmp)) [
          | yes g ↦
              let h = (split q gq).1 g loose in
              ground (arith, ap (λ p. find p fs.table) g, v.staged n src j, hs n)
          | no g ↦ let h = (split q gq).0 g k fq in ground (arith, v.staged n q j)
        ];
        present = v.present;
      }

      create-Staged :
          (now : ℕ) → find (n ∷ tmp) fs.table ≡ none → Staged src n (create (n ∷ tmp) i now fs)
      unfolding create bind
      create-Staged now f = record {
        bounded = (omega arith, Bounded-suc _ _ (Bounded-erase _ (n ∷ tmp) fs.table v.bounded));
        staged = λ m q j a b. ground (
          arith,
          find-bind (n ∷ tmp) (m ∷ tmp) fs.next_ino fs.table,
          find-bind (n ∷ tmp) q fs.next_ino fs.table,
          v.staged m q j,
          Bounded-find _ q fs.next_ino fs.table v.bounded,
          Bounded-find _ (m ∷ tmp) fs.next_ino fs.table v.bounded,
        );
        trusted = λ q j gq fq. elim (path_dec q (n ∷ tmp)) [
          | yes g ↦
              let h = (split q gq).1 g loose in
              ground (arith, find-bind (n ∷ tmp) q fs.next_ino fs.table)
          | no g ↦
              let h : find q fs.table ≡ some j → hash (fs.inode j).content ≡ d =
                (split q gq).0 g j in
              ground (
                arith,
                find-bind (n ∷ tmp) q fs.next_ino fs.table,
                h,
                Bounded-find _ q fs.next_ino fs.table v.bounded,
              )
        ];
        present =
            λ q k a. ground (arith, find-bind (n ∷ tmp) q fs.next_ino fs.table, v.present q k);
      }

  -- Steps of other processes that keep this, and what a staging file of ours holds that has been written.
  pub record Considers (Ours : Name → Type 0) (f : Fs → Fs) : Type 0 where
    pub sound : (fs : Fs) → Sound fs → Sound (f fs)
    pub staged :
        (src : FilePath) (n : Name) → Ours n → (fs : Fs) → Staged src n fs → Staged src n (f fs)

  -- What a copy leaves: when it succeeds, the staging file is trusted too.
  abbrev pub Copied : {E : Type 0} → FilePath → Name → Result E (Unit {0}) → Fs → Type 0
  Copied src n (ok _) = Staged src n
  Copied src n (err e) = Sound

  module _ (src : FilePath) (n : Name) (hs : NotStaged hash d tmp Trusted Kept src)
      (loose : Trusted (n ∷ tmp) → ⊥) where
    created :
        (b c : Bool) (fs made : Fs)
        → Sound fs
        → Staged src n made
        → let r : Result IoError (Unit {0}) × Fs =
            if b
            then (err is_a_directory, fs)
            else if c
            then (ok tt, made)
            else (err not_found, fs) in
          Copied src n r.0 r.1
    created true c fs made v m = v
    created false true fs made v m = m
    created false false fs made v m = v

    copy_op-Copied :
        (now : ℕ) (fs : Fs)
        → Sound fs
        → Copied src n (copy_op src (n ∷ tmp) now fs).0 (copy_op src (n ∷ tmp) now fs).1
    unfolding copy_op
    copy_op-Copied now fs v = elim (Option-cases (find src fs.table)) [
      | inl e ↦ rw (e, copy_op) v
      | inr (i, e) ↦
          rw (e, copy_op)
            (elim (Option-cases (find (n ∷ tmp) fs.table)) [
              | inr (j, f) ↦ rw f (overwrite-Staged src n i fs v e loose j now hs f)
              | inl f ↦ rw f (
                  created (has_dir (n ∷ tmp) fs.dirs) (has_parent (n ∷ tmp) fs) fs _ v
                    (create-Staged src n i fs v e loose now f))
            ])
    ]

    -- A staging file that is not trusted may be cut.
    truncate-IsSound : (k : ℕ) (fs : Fs) → Sound fs → Sound (truncate (n ∷ tmp) k fs)
    unfolding truncate
    truncate-IsSound k fs v = elim (Option-cases (find (n ∷ tmp) fs.table)) [
      | inl e ↦ rw (e, truncate) v
      | inr (i, e) ↦
          rw (e, truncate)
            (record {
              bounded = v.bounded;
              staged = v.staged;
              trusted = λ q j t f. elim (ℕ_discrete j i) [
                | yes g ↦ absurd (loose (subst Trusted (v.staged n q i e (f ∙ ap some g)) t))
                | no g ↦ ground (arith, v.trusted q j t f)
              ];
              present = v.present;
            })
    ]

    cut_short-IsSound :
        (k : ℕ) (r : Result IoError (Unit {0}) × Fs)
        → Copied src n r.0 r.1
        → Sound (cut_short (n ∷ tmp) k r)
    cut_short-IsSound k (ok _, fs) c = truncate-IsSound k fs (Staged-IsSound src n fs c)
    cut_short-IsSound k (err e, fs) c = c

    copied_or_cut-Copied :
        (part : Option ℕ) (r : Option IoError × World)
        → Sound r.1.fs
        → Copied src n
            (copied_or_cut src (n ∷ tmp) part r).0
            (copied_or_cut src (n ∷ tmp) part r).1.fs
    unfolding partial_copy_op
    copied_or_cut-Copied part (none, w) v = copy_op-Copied w.now w.fs v
    copied_or_cut-Copied none (some e, w) v = v
    copied_or_cut-Copied (some k) (some e, w) v =
        cut_short-IsSound k (copy_op src (n ∷ tmp) w.now w.fs) (copy_op-Copied w.now w.fs v)

    copied_or_cut-Since :
        (part : Option ℕ) (v : World) (r : Option IoError × World)
        → Since r.1 v
        → Since (copied_or_cut src (n ∷ tmp) part r).1 v
    copied_or_cut-Since part v (none, w) s = s
    copied_or_cut-Since none v (some e, w) s = s
    copied_or_cut-Since (some k) v (some e, w) s = s

    -- A copy into the staging area, wherever it is cut short.
    pub copy-Copied :
        (O : (Fs → Fs) → Type 0) (U : Bytes → Type 0)
        → ((f : Fs → Fs) → O f → (fs : Fs) → Sound fs → Sound (f fs))
        → Under O U Sound (Copied src n) (copy src (n ∷ tmp))
    unfolding copy
    copy-Copied O U k = record {
      run = λ w v q.
          let r = take_turn w.turns w in
          let i = take_turn-Inv Sound w.turns w refl (v, All-Respect O Sound k w.turns q.0) in
          (
            copied_or_cut-Copied (written_first w.turns) r i.0,
            Others-Since O U (copied_or_cut src (n ∷ tmp) (written_first w.turns) r).1 w
                (copied_or_cut-Since (written_first w.turns) w r (take_turn-Since w.turns w refl))
                q,
          );
    }
