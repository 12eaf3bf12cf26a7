-- ===== src/Fs/Delivers.antt =====
-- Actions that always return a value, keep what holds of the volume at each of their steps, and say something of the
-- value.
use mathlib.Core.Path.{subst}
use i_tan_reclaim_space.Base.{◌≡◌, refl, sym, ◌∙◌, arith, Bool, true, false}
use i_tan_reclaim_space.Base.Results.{Result, ok, err}
use i_tan_reclaim_space.Fs.Path.{Name, FilePath}
use i_tan_reclaim_space.Fs.State.{Fs, IoError, metadata_of, read_dir_of}
use i_tan_reclaim_space.Fs.World.{World, M, pure, ◌>>=◌, attempt}
use i_tan_reclaim_space.Fs.Calls.{next_entry, read_dir, metadata, is_dir, names_dir}
use i_tan_reclaim_space.Fs.Ensures.{Inv, Holds, Ensures, query-Ensures}
use i_tan_reclaim_space.Fs.Runs.{>>=-ok}

pub record Delivers {E A : Type 0} (P : Fs → Type 0) (Q : A → Type 0) (m : M E A) : Type 0 where
  pub run : (w : World) → Inv P w → (a : A) × (v : World) × (m w ≡ (ok a, v)) × Inv P v × Q a

module _ {P : Fs → Type 0} where
  pub pure-Delivers : {E A : Type 0} {Q : A → Type 0} (a : A) → Q a → Delivers {E = E} P Q (pure a)
  pure-Delivers a q = record { run = λ w i. (a, w, refl, i, q) }

  pub >>=-Delivers :
      {E A B : Type 0} {Q : A → Type 0} {R : B → Type 0} (m : M E A) (f : A → M E B)
      → Delivers P Q m
      → ((a : A) → Q a → Delivers P R (f a))
      → Delivers P R (m >>= f)
  >>=-Delivers m f h k = record {
    run = λ w i.
        let (a, v, e, j, q) = h.run w i in
        let (b, u, g, l, r) = (k a q).run v j in (b, u, >>=-ok m f w a v e ∙ g, l, r);
  }

  -- An attempt returns what the action returns, if anything.
  pub attempt-Delivers :
      {E F A : Type 0} {Q : A → Type 0} (m : M E A)
      → Ensures P Q m
      → Delivers {E = F} P (Holds Q) (attempt m)
  unfolding attempt
  attempt-Delivers m h = record {
    run = λ w i. ((m w).0, (m w).1, refl, (h.run w i).0, (h.run w i).1);
  }

  pub Bool-Delivers :
      {E A : Type 0} {Q : A → Type 0} (b : Bool) (x y : M E A)
      → (b ≡ true → Delivers P Q x)
      → (b ≡ false → Delivers P Q y)
      → Delivers P Q (elim b [ true ↦ x | false ↦ y ])
  Bool-Delivers true x y hx hy = hx refl
  Bool-Delivers false x y hx hy = hy refl

  pub Result-Delivers :
      {E F A B : Type 0} {R : A → Type 0} {Q : B → Type 0} (r : Result E A) (f : A → M F B)
      (g : E → M F B)
      → Holds R r
      → ((a : A) → R a → Delivers P Q (f a))
      → ((e : E) → Delivers P Q (g e))
      → Delivers P Q (elim r [ ok a ↦ f a | err e ↦ g e ])
  Result-Delivers (ok a) f g h hf hg = hf a h
  Result-Delivers (err e) f g h hf hg = hg e

-- The volume stays the same.
abbrev pub Same : Fs → Fs → Type 0
Same fs v = v ≡ fs

Holds-self : {E A : Type 0} (r : Result E A) → Holds (λ a. ok a ≡ r) r
Holds-self (ok a) = refl
Holds-self (err e) = tt

-- A directory is listed as the volume has it.
pub read_dir-Ensures :
    (d : FilePath) (fs : Fs) → Ensures (Same fs) (λ names. read_dir_of d fs ≡ ok names) (read_dir d)
unfolding read_dir
read_dir-Ensures d fs = query-Ensures (read_dir_of d) λ v e.
    subst (λ x. Holds (λ names. read_dir_of d x ≡ ok names) (read_dir_of d v)) e
      (listed (read_dir_of d v))
  where
    listed : {A : Type 0} (r : Result IoError A) → Holds (λ a. r ≡ ok a) r
    listed (ok a) = refl
    listed (err e) = tt

-- What is a directory for `is_dir` is one.
pub is_dir-Delivers :
    {E : Type 0} (p : FilePath) (fs : Fs)
    → Delivers {E = E} (Same fs) (λ b. b ≡ true → names_dir (metadata_of p fs) ≡ true) (is_dir p)
unfolding is_dir metadata
is_dir-Delivers p fs = record {
  run = λ w i. (
    names_dir (metadata p w).0,
    (metadata p w).1,
    refl,
    (asked.run w i).0,
    seen _ (asked.run w i).1,
  );
}
  where
    asked : Ensures (Same fs) (λ m. ok m ≡ metadata_of p fs) (metadata p)
    asked = query-Ensures (metadata_of p) (λ v e.
        subst (λ x. Holds (λ m. ok m ≡ metadata_of p x) (metadata_of p v)) e
          (Holds-self (metadata_of p v)))

    seen :
        (r : _)
        → Holds (λ m. ok m ≡ metadata_of p fs) r
        → names_dir r ≡ true
        → names_dir (metadata_of p fs) ≡ true
    seen (ok m) h e = rw (sym h) e
    seen (err x) h e = absurd (ground arith)

-- The entry that an iteration returns is the one that was listed.
pub next_entry-Ensures : {P : Fs → Type 0} (n : Name) → Ensures P (λ a. a ≡ n) (next_entry n)
unfolding next_entry
next_entry-Ensures n = query-Ensures _ (λ v e. refl)
