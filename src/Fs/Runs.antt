-- ===== src/Fs/Runs.antt =====
-- How programs run in a world whose calls succeed and whose other processes do not interfere.
pub mod Dirs
pub mod Files
pub mod Handles
use i_tan_reclaim_space.Base.{ℕ, ◌≡◌, refl, ap, Option, none, some, arith, Bool, true, false}
use i_tan_reclaim_space.Base.Results.{Result, ok, err}
use i_tan_reclaim_space.Fs.Path.{FilePath}
use i_tan_reclaim_space.Fs.Table.{find}
use i_tan_reclaim_space.Fs.State.{Fs, IoError, file_metadata, metadata_of}
use i_tan_reclaim_space.Fs.World.{
  World, M, calm, ◌>>=◌, map_err, attempt, query, syscall, take_turn,
}
use i_tan_reclaim_space.Fs.Calls.{metadata}

module _ {E A : Type 0} where
  pub >>=-ok :
      {B : Type 0} (m : M E A) (f : A → M E B) (w : World) (a : A) (v : World)
      → m w ≡ (ok a, v)
      → (m >>= f) w ≡ f a v
  unfolding ◌>>=◌
  >>=-ok m f w a v e = rw (e, ◌>>=◌) refl

  pub >>=-err :
      {B : Type 0} (m : M E A) (f : A → M E B) (w : World) (e : E) (v : World)
      → m w ≡ (err e, v)
      → (m >>= f) w ≡ (err e, v)
  unfolding ◌>>=◌
  >>=-err m f w e v h = rw (h, ◌>>=◌) refl

  pub map_err-ok :
      {F : Type 0} (g : E → F) (m : M E A) (w : World) (a : A) (v : World)
      → m w ≡ (ok a, v)
      → map_err g m w ≡ (ok a, v)
  unfolding map_err
  map_err-ok g m w a v e = rw (e, map_err) refl

  pub attempt-eq :
      {F : Type 0} (m : M E A) (w : World) (r : Result E A) (v : World)
      → m w ≡ (r, v)
      → attempt {F = F} m w ≡ (ok r, v)
  unfolding attempt
  attempt-eq m w r v e = rw e refl

pub query-calm :
    {A : Type 0} (op : Fs → Result IoError A) (w : World) → query op (calm w) ≡ (op w.fs, calm w)
unfolding query syscall take_turn
query-calm op w = refl

pub metadata-calm :
    (p : FilePath) (i : ℕ) (w : World)
    → find p w.fs.table ≡ some i
    → metadata p (calm w) ≡ (ok (file_metadata i w.fs), calm w)
unfolding metadata query syscall take_turn metadata_of
metadata-calm p i w f = ground arith

-- A run of a branch.
pub branch :
    {E A : Type 0} (b : Bool) (m n : M E A) (w : World) (r : Result E A × World)
    → (b ≡ true → m w ≡ r)
    → (b ≡ false → n w ≡ r)
    → (elim b as (λ _. M E A) [ true ↦ m | false ↦ n ]) w ≡ r
branch true m n w r f g = f refl
branch false m n w r f g = g refl

pub branch_true :
    {E A : Type 0} (b : Bool) (m n : M E A) (w : World)
    → b ≡ true
    → (elim b as (λ _. M E A) [ true ↦ m | false ↦ n ]) w ≡ m w
branch_true true m n w e = refl
branch_true false m n w e = absurd (ground arith)

pub branch_false :
    {E A : Type 0} (b : Bool) (m n : M E A) (w : World)
    → b ≡ false
    → (elim b as (λ _. M E A) [ true ↦ m | false ↦ n ]) w ≡ n w
branch_false true m n w e = absurd (ground arith)
branch_false false m n w e = refl

pub branch_some :
    {E A B : Type 0} (o : Option B) (n : M E A) (f : B → M E A) (w : World) (b : B)
    → o ≡ some b
    → (elim o as (λ _. M E A) [ none ↦ n | some x ↦ f x ]) w ≡ f b w
branch_some none n f w b e = absurd (ground arith)
branch_some (some x) n f w b e = ap (λ y. f y w) (ap (λ o. elim o [ none ↦ b | some y ↦ y ]) e)
