-- ===== src/Fs/Table.antt =====
-- The directory table of a volume: the file names in use, each with the number of its inode.
use i_tan_reclaim_space.Base.{
  ℕ, suc, ◌+◌, ◌≡◌, refl, List, [], ◌∷◌, Option, none, some, ite, ℕ_discrete, arith, ◌≢◌,
}
use i_tan_reclaim_space.Fs.Path.{Name, FilePath, path_dec}

abbrev pub Table : Type 0
Table = List (FilePath × ℕ)

unfoldable pub find : FilePath → Table → Option ℕ
find p [] = none
find p ((q, i) ∷ t) = ite (path_dec p q) (some i) (find p t)

unfoldable pub erase : FilePath → Table → Table
erase p [] = []
erase p ((q, i) ∷ t) = ite (path_dec p q) (erase p t) ((q, i) ∷ erase p t)

unfoldable pub bind : FilePath → ℕ → Table → Table
unfolding erase
bind p i t = (p, i) ∷ erase p t

-- How many names an inode has: its link count.
unfoldable pub names : ℕ → Table → ℕ
names i [] = 0
names i ((q, j) ∷ t) = ite (ℕ_discrete i j) (suc (names i t)) (names i t)

-- The names directly below a directory, in the order of the table.
unfoldable pub children : FilePath → Table → List Name
children d [] = []
children d (([], i) ∷ t) = children d t
children d ((n ∷ q, i) ∷ t) = ite (path_dec q d) (n ∷ children d t) (children d t)

-- No name is bound twice.
abbrev pub IsTable : Table → Type 0
IsTable [] = Unit {0}
IsTable ((q, i) ∷ t) = (find q t ≡ none) × IsTable t

pub find-erase :
    (p q : FilePath) (t : Table) → find q (erase p t) ≡ ite (path_dec q p) none (find q t)
unfolding find erase
find-erase p q [] = ground arith
find-erase p q ((r, i) ∷ t) = ground (arith, find-erase p q t)

pub find-bind :
    (p q : FilePath) (i : ℕ) (t : Table)
    → find q (bind p i t) ≡ ite (path_dec q p) (some i) (find q t)
unfolding find bind
find-bind p q i t = ground (arith, find-erase p q t)

pub erase_of_none : (p : FilePath) (t : Table) → find p t ≡ none → erase p t ≡ t
unfolding find erase
erase_of_none p [] h = refl
erase_of_none p ((q, i) ∷ t) h = ground (arith, erase_of_none p t)

pub erase-IsTable : (p : FilePath) (t : Table) → IsTable t → IsTable (erase p t)
unfolding erase
erase-IsTable p [] h = tt
erase-IsTable p ((q, i) ∷ t) h = ground (arith, erase-IsTable p t, find-erase p q t)

pub bind-IsTable : (p : FilePath) (i : ℕ) (t : Table) → IsTable t → IsTable (bind p i t)
unfolding bind
bind-IsTable p i t h = ground (arith, erase-IsTable p t h, find-erase p p t)

-- Removing a name lowers the link count of its inode by one, and no other.
pub names-erase :
    (p : FilePath) (i j : ℕ) (t : Table)
    → IsTable t
    → find p t ≡ some i
    → names j t ≡ names j (erase p t) + ite (ℕ_discrete j i) 1 0
unfolding find erase names
names-erase p i j [] h e = ground arith
names-erase p i j ((q, k) ∷ t) h e = ground (arith, names-erase p i j t, erase_of_none p t)

-- A new name raises it by one.
pub names-bind :
    (p : FilePath) (i j : ℕ) (t : Table)
    → find p t ≡ none
    → names j (bind p i t) ≡ names j t + ite (ℕ_discrete j i) 1 0
unfolding bind names
names-bind p i j t e = ground (arith, erase_of_none p t e)

pub erase-bind : (p : FilePath) (i : ℕ) (t : Table) → find p t ≡ none → erase p (bind p i t) ≡ t
unfolding bind erase
erase-bind p i t e = ground (arith, erase_of_none p t e)

pub find-bind_ne :
    (p q : FilePath) (i j : ℕ) (t : Table)
    → find q t ≡ some j
    → q ≢ p
    → find q (bind p i t) ≡ some j
find-bind_ne p q i j t f ne = ground (arith, find-bind p q i t)

pub find-bind_same : (p : FilePath) (i : ℕ) (t : Table) → find p (bind p i t) ≡ some i
find-bind_same p i t = ground (arith, find-bind p p i t)

pub find-bind_other : (p q : FilePath) (i : ℕ) (t : Table) → q ≢ p → find q (bind p i t) ≡ find q t
find-bind_other p q i t ne = ground (arith, find-bind p q i t)
