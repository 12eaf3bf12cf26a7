-- ===== src/Linkage/Names.antt =====
-- The names that the store makes lie in its directory, and those of two digests are apart.
use i_tan_reclaim_space.Base.{
  ℕ, ◌≡◌, refl, sym, ap, ◌∙◌, ◌≢◌, Bytes, List, [], ◌∷◌, ◌++◌, arith, codes,
}
use i_tan_reclaim_space.Fs.Path.{Name, text, opaque, FilePath}
use i_tan_reclaim_space.Linkage.{sibling_tmp_link}
use i_tan_reclaim_space.Linkage.Fits.{staging, slot_of, Owned, slot}
use i_tan_reclaim_space.Store.Hex.{hex_encode, slot_filename}
use i_tan_reclaim_space.Store.Hex.Laws.{
  IsDigest, append-injective, hex_encode_injective, length-hex_encode,
}
use i_tan_reclaim_space.Store.Slots.{slot_path, directory}

abbrev pub store_dir : FilePath → FilePath
store_dir root = text (codes ".itan_store") ∷ root

-- The path is the directory of the store or lies in it.
abbrev pub InStore : FilePath → FilePath → Type 0
InStore root p = (s : List Name) × (p ≡ s ++ store_dir root)

-- The text of the file name.
abbrev pub front : FilePath → Bytes
front [] = []
front (text s ∷ p) = s
front (opaque s ∷ p) = s

pub sibling_tmp_link-directory :
    (n : Name) (dir : FilePath) → directory (sibling_tmp_link (n ∷ dir)) ≡ dir
unfolding sibling_tmp_link
sibling_tmp_link-directory (text s) dir = refl
sibling_tmp_link-directory (opaque s) dir = refl

module _ (root : FilePath) where
  pub Owned-InStore : (d : Bytes) (p : FilePath) → Owned root d p → InStore root (directory p)
  unfolding slot_path
  Owned-InStore d p (slot k e) = (_ ∷ text (codes "objects") ∷ [], ap directory e)

  pub slot_of-staging : (d : Bytes) (k : ℕ) (n : Name) → slot_of root d k ≢ n ∷ staging root
  unfolding slot_path
  slot_of-staging d k n e = ground arith

  module _ (d e : Bytes) (vd : IsDigest d) (ve : IsDigest e) where
    pub hex_append_injective : (s t : Bytes) → hex_encode d ++ s ≡ hex_encode e ++ t → d ≡ e
    hex_append_injective s t q =
        hex_encode_injective d e vd ve
          (append-injective (hex_encode d) (hex_encode e) s t
            (omega (arith, length-hex_encode d, length-hex_encode e, vd.size, ve.size)) q).0

    -- A name that the store makes for two digests is that of one.
    pub Owned-apart : (p : FilePath) → Owned root d p → Owned root e p → d ≡ e
    unfolding slot_path slot_filename
    Owned-apart p (slot k a) (slot j b) = hex_append_injective _ _ (ap front (sym a ∙ b))
