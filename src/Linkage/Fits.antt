-- ===== src/Linkage/Fits.antt =====
-- The names that the store makes for a digest, and when names that are trusted or kept fit the work on
-- a file.
use i_tan_reclaim_space.Base.{ℕ, ◌≡◌, ◌≢◌, Bytes, [], ◌∷◌, some, arith, codes}
use i_tan_reclaim_space.Fs.Path.{Name, text, opaque, FilePath}
use i_tan_reclaim_space.Store.Hex.{hex_encode, parse_digest_from_hex}
use i_tan_reclaim_space.Store.Slots.{slot_path, prefix_of}
use i_tan_reclaim_space.Linkage.{sibling_tmp_link}
use i_tan_reclaim_space.Verdict.{IngestVerdict, bypass, unique, duplicate}

-- The staging directory of a store, and the slots of a digest.
abbrev pub staging : FilePath → FilePath
staging root = text (codes "tmp") ∷ text (codes ".itan_store") ∷ root

abbrev pub slot_of : FilePath → Bytes → ℕ → FilePath
slot_of root d k =
    slot_path
      (text (prefix_of (hex_encode d)) ∷ text (codes "objects") ∷ text (codes ".itan_store") ∷ root)
      (hex_encode d) k

-- The names that the store publishes a digest under.
pub data Owned (root : FilePath) (d : Bytes) (p : FilePath) : Type 0 where
  slot : (k : ℕ) → p ≡ slot_of root d k → Owned root d p

-- The trusted names and the kept ones fit the work on a target with a digest: the names of the digest
-- are trusted together, and then so are the target and, unless it is kept, the temporary link.
pub record Fits (root : FilePath) (d : Bytes) (target : FilePath) (T K : FilePath → Type 0)
    : Type 0 where
  pub group : (p q : FilePath) → Owned root d p → Owned root d q → T p → T q
  pub source : (p : FilePath) → Owned root d p → T p → T target
  pub linked :
      (K (sibling_tmp_link target) → ⊥)
      → T (sibling_tmp_link target)
      → (k : ℕ) → T (slot_of root d k)
  pub swapped : (K (sibling_tmp_link target) → ⊥) → T target → T (sibling_tmp_link target)
  pub untrusted : (n : Name) → T (n ∷ staging root) → ⊥
  pub loose : (n : Name) → K (n ∷ staging root) → ⊥
  pub outside : (n : Name) → target ≢ n ∷ staging root

pub sibling_tmp_link-NotStaged :
    (dir target : FilePath)
    → ((n : Name) → target ≢ n ∷ dir)
    → dir ≢ []
    → (n : Name) → sibling_tmp_link target ≢ n ∷ dir
unfolding sibling_tmp_link
sibling_tmp_link-NotStaged dir [] h z n e = ground (arith, z)
sibling_tmp_link-NotStaged dir (text name ∷ p) h z n e = ground (arith, h (text name))
sibling_tmp_link-NotStaged dir (opaque name ∷ p) h z n e = ground (arith, h (opaque name))

-- The slot of a duplicate verdict carries the digest.
abbrev pub Carries : Bytes → IngestVerdict → Type 0
Carries d (bypass reason) = Unit {0}
Carries d unique = Unit {0}
Carries d (duplicate found) = parse_digest_from_hex found.digest_hex ≡ some d
