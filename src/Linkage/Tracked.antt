-- ===== src/Linkage/Tracked.antt =====
-- Working on one file keeps another one, or itself: the file that is tracked, and the names that the
-- store makes for its digest, hold on to that digest.
use mathlib.Core.Path.{subst}
use i_tan_reclaim_space.Base.{
  ℕ, ◌≡◌, refl, sym, ap, ◌∙◌, ◌≢◌, Bytes, [], ◌∷◌, none, some, codes, Option-cases, inl, inr,
}
use i_tan_reclaim_space.Capability.{VolumeCapability}
use i_tan_reclaim_space.Fs.Delivers.{Same}
use i_tan_reclaim_space.Fs.Path.{Name, text, FilePath}
use i_tan_reclaim_space.Fs.Quietly.{Leads, Still, Any, before-Leads, after-Leads}
use i_tan_reclaim_space.Fs.State.{Fs}
use i_tan_reclaim_space.Fs.Table.{find}
use i_tan_reclaim_space.Linkage.{sibling_tmp_link, apply}
use i_tan_reclaim_space.Linkage.Kin.{Kin, Kin-InStore, Kin-apart, Kin-staging}
use i_tan_reclaim_space.Linkage.Names.{
  InStore, Owned-InStore, Owned-apart, slot_of-staging, sibling_tmp_link-directory,
}
use i_tan_reclaim_space.Linkage.Safety.{Present}
use i_tan_reclaim_space.Linkage.Fits.{staging, Owned, slot, Fits, Carries}
use i_tan_reclaim_space.Linkage.Steps.{apply-Assures}
use i_tan_reclaim_space.RetryJob.{RetryJob}
use i_tan_reclaim_space.RetryQueue.{Channel}
use i_tan_reclaim_space.Store.Content.{IsSound}
use i_tan_reclaim_space.Store.Content.Copies.{With}
use i_tan_reclaim_space.Store.Hex.Laws.{IsDigest}
use i_tan_reclaim_space.Store.{cas_store}
use i_tan_reclaim_space.Store.Slots.{directory}
use i_tan_reclaim_space.Verdict.{IngestVerdict}

-- The names that are to hold the digest of the tracked file: its own, and those of the store, wherever the
-- collector moves a slot.
pub data Tracked (root : FilePath) (d0 : Bytes) (p0 p : FilePath) : Type 0 where
  owned : Owned root d0 p → Tracked root d0 p0 p
  kin : Kin root d0 p → Tracked root d0 p0 p
  own : p ≡ p0 → Tracked root d0 p0 p

-- What is kept of the volume: the tracked file is there, and these names hold its digest.
abbrev pub Tracks : (Bytes → Bytes) → FilePath → Bytes → FilePath → Fs → Type 0
Tracks hash root d0 p0 = IsSound hash d0 (staging root) (Tracked root d0 p0) (Present p0)

module _ (hash : Bytes → Bytes) (root : FilePath) (capability : VolumeCapability) (p0 : FilePath)
    (d0 : Bytes) (v0 : IsDigest d0) (away0 : InStore root (directory p0) → ⊥) (name : Name)
    (dir : FilePath) (away : InStore root dir → ⊥) (d : Bytes) (v : IsDigest d) (i : ℕ) (fs : Fs)
    (there : find (name ∷ dir) fs.table ≡ some i) (has : d ≡ hash (fs.inode i).content) where
  abbrev file : FilePath
  file = name ∷ dir

  abbrev beside : FilePath
  beside = sibling_tmp_link file

  abbrev tmp : FilePath
  tmp = staging root

  -- While the program works on the file: if it has the same digest, then it is trusted too, and so is
  -- the link beside it, unless that name is taken, when it is kept.
  data Trusts (p : FilePath) : Type 0 where
    old : Tracked root d0 p0 p → Trusts p
    new : d ≡ d0 → p ≡ file → Trusts p
    link : d ≡ d0 → p ≡ beside → find beside fs.table ≡ none → Trusts p

  data Keeps (p : FilePath) : Type 0 where
    old : p ≡ p0 → Keeps p
    taken : p ≡ beside → find beside fs.table ≢ none → Keeps p

  tmp-InStore : InStore root tmp
  tmp-InStore = (text (codes "tmp") ∷ [], refl)

  beside-InStore : InStore root (directory beside) → ⊥
  beside-InStore s = away (subst (InStore root) (sibling_tmp_link-directory name dir) s)

  moved-InStore : (p q : FilePath) → p ≡ q → InStore root (directory p) → InStore root (directory q)
  moved-InStore p q e s = subst (λ x. InStore root (directory x)) e s

  same-owned : (p : FilePath) → Owned root d p → Trusts p → d ≡ d0
  same-owned p o (old (owned r)) = Owned-apart root d d0 v v0 p o r
  same-owned p o (old (kin r)) = Kin-apart root d d0 v v0 p o r
  same-owned p o (old (own e)) = absurd (away0 (moved-InStore p p0 e (Owned-InStore root d p o)))
  same-owned p o (new e f) = e
  same-owned p o (link e f g) = e

  all-owned : (p : FilePath) → d ≡ d0 → Owned root d p → Trusts p
  all-owned p e o = old (owned (subst (λ x. Owned root x p) e o))

  linked : (Keeps beside → ⊥) → Trusts beside → (k : ℕ) → d ≡ d0
  linked free (old (owned o)) k = absurd (beside-InStore (Owned-InStore root d0 _ o))
  linked free (old (kin o)) k = absurd (beside-InStore (Kin-InStore root d0 _ o))
  linked free (old (own e)) k = absurd (free (old e))
  linked free (new e f) k = e
  linked free (link e f g) k = e

  same-file : Tracks hash root d0 p0 fs → Trusts file → d ≡ d0
  same-file s (old (owned o)) = absurd (away (Owned-InStore root d0 _ o))
  same-file s (old (kin o)) = absurd (away (Kin-InStore root d0 _ o))
  same-file s (old (own e)) =
      has ∙ s.trusted p0 i (own refl) (ap (λ p. find p fs.table) (sym e) ∙ there)
  same-file s (new e f) = e
  same-file s (link e f g) = e

  free_beside : d ≡ d0 → (Keeps beside → ⊥) → Trusts beside
  free_beside e free = elim (Option-cases (find beside fs.table)) [
    | inl f ↦ link e refl f
    | inr (j, f) ↦ absurd (free (taken refl (λ g. cc)))
  ]

  loose : (n : Name) → Keeps (n ∷ tmp) → ⊥
  loose n (old e) = away0 (moved-InStore (n ∷ tmp) p0 e tmp-InStore)
  loose n (taken e f) = beside-InStore (moved-InStore (n ∷ tmp) beside e tmp-InStore)

  untrusted : (n : Name) → Trusts (n ∷ tmp) → ⊥
  untrusted n (old (owned (slot k e))) = slot_of-staging root d0 k n (sym e)
  untrusted n (old (kin r)) = Kin-staging root d0 n r
  untrusted n (old (own e)) = away0 (moved-InStore (n ∷ tmp) p0 e tmp-InStore)
  untrusted n (new e f) = away (moved-InStore (n ∷ tmp) file f tmp-InStore)
  untrusted n (link e f g) = beside-InStore (moved-InStore (n ∷ tmp) beside f tmp-InStore)

  Trusts-Fits : Tracks hash root d0 p0 fs → Fits root d file Trusts Keeps
  Trusts-Fits s = record {
    group = λ p q o r t. all-owned q (same-owned p o t) r;
    source = λ p o t. new (same-owned p o t) refl;
    linked = λ free t k. all-owned _ (linked free t k) (slot k refl);
    swapped = λ free t. free_beside (same-file s t) free;
    untrusted = untrusted;
    loose = loose;
    outside = λ n e. away (moved-InStore (n ∷ tmp) file (sym e) tmp-InStore);
  }

  trusted_at_first :
      Tracks hash root d0 p0 fs
      → (p : FilePath) (j : ℕ) → Trusts p
      → find p fs.table ≡ some j
      → hash (fs.inode j).content ≡ d0
  trusted_at_first s p j (old t) f = s.trusted p j t f
  trusted_at_first s p j (new e g) f = cc (e, g, f, there, has)
  trusted_at_first s p j (link e g n) f = cc (g, f, n)

  kept_at_first : Tracks hash root d0 p0 fs → (p : FilePath) → Keeps p → find p fs.table ≢ none
  kept_at_first s p (old e) f = s.present p e f
  kept_at_first s p (taken e n) f = n (ap (λ q. find q fs.table) (sym e) ∙ f)

  -- Whatever the verdict on the file is, applying it keeps the tracked file.
  pub apply-Leads :
      (channel : Channel RetryJob) (verdict : IngestVerdict)
      → Carries d verdict
      → Tracks hash root d0 p0 fs
      → Leads
          (Same fs)
          (λ r after. Tracks hash root d0 p0 after)
          (apply channel (cas_store root capability) file verdict d)
  apply-Leads channel verdict c s =
      before-Leads {S = IsSound hash d0 tmp Trusts Keeps} _
        (λ w e. subst (IsSound hash d0 tmp Trusts Keeps) (sym e) (record {
          bounded = s.bounded;
          staged = s.staged;
          trusted = trusted_at_first s;
          present = kept_at_first s;
        }))
        (after-Leads _
          (λ r w t. record {
            bounded = t.0.bounded;
            staged = t.0.staged;
            trusted = λ p j o. t.0.trusted p j (old o);
            present = λ p e. t.0.present p (old e);
          })
          (apply-Assures root capability d hash d0 file Trusts Keeps (Trusts-Fits s) Still Any
            (λ n. Unit {0}) (λ u o. (tt, tt))
            (λ f o. record {
              sound = λ fs v. subst (IsSound hash d0 tmp Trusts Keeps) (sym (o fs)) v;
              staged = λ src n u fs v.
                  subst (IsSound hash d0 tmp (With tmp Trusts src n) Keeps) (sym (o fs)) v;
            })
            channel verdict c))
