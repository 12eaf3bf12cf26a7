-- ===== src/Linkage/Kin.antt =====
-- Names that a slot of a digest gets when it is moved: in any shard, where a resurrected slot goes, and in
-- quarantine.
use mathlib.Core.Path.{subst}
use i_tan_reclaim_space.Base.{
  ℕ, ◌+◌, ◌≡◌, refl, sym, ap, ◌∙◌, ◌≢◌, Bytes, [], ◌∷◌, ◌++◌, some, length, arith, codes, ltb,
  false, ◌<◌, length-append,
}
use i_tan_reclaim_space.Fs.Path.{Name, text, opaque, FilePath}
use i_tan_reclaim_space.Gc.{file_name_or, quarantine_name, strip_quarantine_prefix}
use i_tan_reclaim_space.Gc.Keeps.{quarantine_entry_of}
use i_tan_reclaim_space.Gc.Names.{strip_quarantine_prefix-quarantine_name}
use i_tan_reclaim_space.Linkage.Fits.{staging, slot_of, Owned, slot}
use i_tan_reclaim_space.Linkage.Names.{InStore, front, hex_append_injective}
use i_tan_reclaim_space.Store.Hex.{hex_encode, slot_filename}
use i_tan_reclaim_space.Store.Hex.Laws.{IsDigest, length-hex_encode}
use i_tan_reclaim_space.Store.Slots.{slot_path, directory}
use i_tan_reclaim_space.Text.{decimal, decimal_03, find_byte}
use i_tan_reclaim_space.Text.Laws.{decimal-IsDigits, find_byte-digits}

abbrev pub objects_of : FilePath → FilePath
objects_of root = text (codes "objects") ∷ text (codes ".itan_store") ∷ root

abbrev pub quarantine_of : FilePath → FilePath
quarantine_of root = text (codes "quarantine") ∷ text (codes ".itan_store") ∷ root

pub data Kin (root : FilePath) (d : Bytes) (p : FilePath) : Type 0 where
  stray :
      (k : ℕ) (x : Name)
      → p ≡ text (slot_filename (hex_encode d) k) ∷ x ∷ objects_of root
      → Kin root d p
  quarantined :
      (k : ℕ) (n : Name)
      → p ≡ n ∷ quarantine_of root
      → strip_quarantine_prefix (file_name_or [] p) ≡ slot_filename (hex_encode d) k
      → Kin root d p

find_byte-hex_encode :
    (d t : Bytes) → find_byte b'_' (hex_encode d ++ b'_' ∷ t) ≡ some (length (hex_encode d))
unfolding find_byte hex_encode
find_byte-hex_encode [] t = refl
find_byte-hex_encode (b ∷ d) t = ground (arith, find_byte-hex_encode d t)

-- Nothing comes behind the time when the name is empty, so nothing is stripped.
strip_quarantine_prefix-nothing :
    (timestamp : ℕ)
    → strip_quarantine_prefix (quarantine_name timestamp []) ≡ decimal timestamp ++ b'_' ∷ []
unfolding strip_quarantine_prefix quarantine_name
strip_quarantine_prefix-nothing timestamp =
    let all : ltb (length (decimal timestamp) + 1) (length (decimal timestamp ++ b'_' ∷ []))
        ≡ false =
      ground (arith, length-append (decimal timestamp) (b'_' ∷ [])) in
    rw (find_byte-digits (decimal timestamp) [] (decimal-IsDigits timestamp), all) refl

module _ (d : Bytes) (v : IsDigest d) where
  slot_filename-long : (k : ℕ) (s : Bytes) → length s < 66 → s ≢ slot_filename (hex_encode d) k
  unfolding slot_filename
  slot_filename-long k s l e = omega (
    arith,
    ap length e,
    length-append (hex_encode d) (codes "_s" ++ decimal_03 k),
    length-append (codes "_s") (decimal_03 k),
    length-hex_encode d,
    v.size,
  )

  slot_filename-timed :
      (k timestamp : ℕ) → decimal timestamp ++ b'_' ∷ [] ≢ slot_filename (hex_encode d) k
  unfolding slot_filename
  slot_filename-timed k timestamp e =
      let at = ap (find_byte b'_') e in
      let f = find_byte-digits (decimal timestamp) [] (decimal-IsDigits timestamp) in
      let g = find_byte-hex_encode d (b's' ∷ decimal_03 k) in
      let same : length (decimal timestamp) ≡ length (hex_encode d) = cc (at, f, g) in
      slot_filename-long k (decimal timestamp ++ b'_' ∷ [])
        (omega
          (arith, length-append (decimal timestamp) (b'_' ∷ []), same, length-hex_encode d, v.size))
        e

  -- A name in quarantine that stands for a slot is that of a slot.
  pub quarantine_entry_of-slot :
      (m : Name) (dir : FilePath) (timestamp k : ℕ)
      → strip_quarantine_prefix (file_name_or [] (quarantine_entry_of (m ∷ dir) timestamp ∷ []))
        ≡ slot_filename (hex_encode d) k
      → m ≡ text (slot_filename (hex_encode d) k)
  quarantine_entry_of-slot (text []) dir timestamp k e =
      absurd (slot_filename-timed k timestamp (sym (strip_quarantine_prefix-nothing timestamp) ∙ e))
  quarantine_entry_of-slot (text (c ∷ s)) dir timestamp k e =
      ap text (sym (strip_quarantine_prefix-quarantine_name timestamp (c ∷ s) (λ q. cc)) ∙ e)
  quarantine_entry_of-slot (opaque s) dir timestamp k e = absurd (
      slot_filename-long k (codes "unknown") (omega arith)
        (sym (strip_quarantine_prefix-quarantine_name timestamp (codes "unknown") (λ q. cc)) ∙ e))

module _ (root : FilePath) where
  pub Kin-InStore : (d : Bytes) (p : FilePath) → Kin root d p → InStore root (directory p)
  Kin-InStore d p (stray k x e) = (x ∷ text (codes "objects") ∷ [], ap directory e)
  Kin-InStore d p (quarantined k n e s) = (text (codes "quarantine") ∷ [], ap directory e)

  slot_of-quarantine : (d : Bytes) (k : ℕ) (n : Name) → slot_of root d k ≢ n ∷ quarantine_of root
  unfolding slot_path
  slot_of-quarantine d k n e = ground arith

  pub staging-objects : (n m x : Name) → n ∷ staging root ≢ m ∷ x ∷ objects_of root
  staging-objects n m x e = ground arith

  pub staging-quarantine : (n m : Name) → n ∷ staging root ≢ m ∷ quarantine_of root
  staging-quarantine n m e = ground arith

  pub objects-quarantine : (n m x : Name) → n ∷ x ∷ objects_of root ≢ m ∷ quarantine_of root
  objects-quarantine n m x e = ground arith

  pub Owned-quarantine : (d : Bytes) (n : Name) → Owned root d (n ∷ quarantine_of root) → ⊥
  Owned-quarantine d n (slot k e) = slot_of-quarantine d k n (sym e)

  module _ (d e : Bytes) (vd : IsDigest d) (ve : IsDigest e) where
    -- A name of one digest and a name that a slot of another was moved to are apart.
    pub Kin-apart : (p : FilePath) → Owned root d p → Kin root e p → d ≡ e
    unfolding slot_path slot_filename
    Kin-apart p (slot k a) (stray j x b) =
        hex_append_injective root d e vd ve _ _ (ap front (sym a ∙ b))
    Kin-apart p o (quarantined j n b s) = absurd (Owned-quarantine d n (subst (Owned root d) b o))

  -- No staging file is one.
  pub Kin-staging : (d : Bytes) (n : Name) → Kin root d (n ∷ staging root) → ⊥
  Kin-staging d n (stray k x e) = staging-objects n _ x e
  Kin-staging d n (quarantined k m e s) = staging-quarantine n m e
