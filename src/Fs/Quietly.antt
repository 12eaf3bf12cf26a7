-- ===== src/Fs/Quietly.antt =====
-- A program logic for what holds of the result and of the volume that is left, from what holds of the
-- volume before, in surroundings whose steps are of a kind `O`; the random names are of a kind `U`.
use mathlib.Core.Path.{subst}
use i_tan_reclaim_space.Base.{ℕ, Bytes, ◌≡◌, refl, sym, Bool, true, false, List, [], ◌∷◌, All}
use i_tan_reclaim_space.Base.Results.{Result, ok, err}
use i_tan_reclaim_space.Fs.Delivers.{Same}
use i_tan_reclaim_space.Fs.Ensures.{Respect, Holds, Inv, Ensures, IsTail-All, Since}
use i_tan_reclaim_space.Fs.State.{Fs}
use i_tan_reclaim_space.Fs.World.{World, Turn, M, pure, ◌>>=◌, attempt, map_err, new_uuid}

-- What the steps of the other processes are, and the names that are drawn.
abbrev pub Others : ((Fs → Fs) → Type 0) → (Bytes → Type 0) → World → Type 0
Others O U w = All (λ t. O t.other) w.turns × ((k : ℕ) → U (w.uuid k))

pub Others-Since :
    (O : (Fs → Fs) → Type 0) (U : Bytes → Type 0) (v w : World)
    → Since v w
    → Others O U w
    → Others O U v
Others-Since O U v w (t, e) (a, u) = (IsTail-All _ _ _ t a, λ k. subst (λ f. U (f k)) (sym e) (u k))

-- Nothing is asked of the names.
abbrev pub Any : Bytes → Type 0
Any u = Unit {0}

pub record Under {E A : Type 0} (O : (Fs → Fs) → Type 0) (U : Bytes → Type 0) (P : Fs → Type 0)
    (Q : Result E A → Fs → Type 0) (m : M E A) : Type 0 where
  pub run : (w : World) → P w.fs → Others O U w → Q (m w).0 (m w).1.fs × Others O U (m w).1

-- What an action keeps, besides what holds of its value.
abbrev pub Assures :
    {E A : Type 0}
    → ((Fs → Fs) → Type 0)
    → (Bytes → Type 0)
    → (Fs → Type 0)
    → (A → Type 0)
    → M E A
    → Type 0
Assures O U P Q m = Under O U P (λ r fs. P fs × Holds Q r) m

-- A step that leaves the volume alone.
abbrev pub Still : (Fs → Fs) → Type 0
Still f = (fs : Fs) → f fs ≡ fs

abbrev pub Leads : {E A : Type 0} → (Fs → Type 0) → (Result E A → Fs → Type 0) → M E A → Type 0
Leads P Q m = Under Still Any P Q m

pub All-Respect :
    (O : (Fs → Fs) → Type 0) (P : Fs → Type 0)
    → ((f : Fs → Fs) → O f → (fs : Fs) → P fs → P (f fs))
    → (ts : List Turn) → All (λ t. O t.other) ts
    → Respect P ts
All-Respect O P k [] a = tt
All-Respect O P k (t ∷ ts) a = (k t.other a.0, All-Respect O P k ts a.1)

module _ {O : (Fs → Fs) → Type 0} {U : Bytes → Type 0} {P : Fs → Type 0} where
  -- What an action keeps while such steps keep it too.
  pub Ensures-Under :
      {E A : Type 0} {Q : A → Type 0} (m : M E A)
      → ((f : Fs → Fs) → O f → (fs : Fs) → P fs → P (f fs))
      → Ensures P Q m
      → Assures O U P Q m
  Ensures-Under m k h = record {
    run = λ w p q.
        let i : Inv P w = (p, All-Respect O P k w.turns q.0) in
        (((h.run w i).0.0, (h.run w i).1), Others-Since O U (m w).1 w (h.since w i) q);
  }

  -- The name that is drawn is one of them.
  pub new_uuid-Assures : {E : Type 0} → Assures {E = E} O U P U new_uuid
  unfolding new_uuid
  new_uuid-Assures = record { run = λ w p q. ((p, q.1 w.next_uuid), q) }

module _ {P : Fs → Type 0} where
  pub Ensures-Leads :
      {E A : Type 0} {Q : A → Type 0} (m : M E A)
      → Ensures P Q m
      → Leads P (λ r fs. P fs × Holds Q r) m
  Ensures-Leads m h = Ensures-Under m (λ f o fs p. subst P (sym (o fs)) p) h

module _ {O : (Fs → Fs) → Type 0} {U : Bytes → Type 0} {P : Fs → Type 0} where
  pub pure-Leads :
      {E A : Type 0} {R : Result E A → Fs → Type 0} (a : A)
      → ((fs : Fs) → P fs → R (ok a) fs)
      → Under O U P R (pure a)
  pure-Leads a k = record { run = λ w p q. (k w.fs p, q) }

  pub >>=-Leads :
      {E A B : Type 0} {Q : Result E A → Fs → Type 0} {R : Result E B → Fs → Type 0} (m : M E A)
      (f : A → M E B)
      → Under O U P Q m
      → ((a : A) → Under O U (Q (ok a)) R (f a))
      → ((e : E) (fs : Fs) → Q (err e) fs → R (err e) fs)
      → Under O U P R (m >>= f)
  unfolding ◌>>=◌
  >>=-Leads {E} {A} {B} {Q} {R} m f h k l = record {
    run = λ w p q. step (m w) (h.run w p q).0 (h.run w p q).1;
  }
    where
      step :
          (r : Result E A × World)
          → Q r.0 r.1.fs
          → Others O U r.1
          → R (◌>>=◌ (λ _. r) f r.1).0 (◌>>=◌ (λ _. r) f r.1).1.fs
            × Others O U (◌>>=◌ (λ _. r) f r.1).1
      step (ok a, w) g q = (k a).run w g q
      step (err e, w) g q = (l e w.fs g, q)

  pub attempt-Leads :
      {E F A B : Type 0} {Q : Result E A → Fs → Type 0} {R : Result F B → Fs → Type 0} (m : M E A)
      (f : Result E A → M F B)
      → Under O U P Q m
      → ((r : Result E A) → Under O U (Q r) R (f r))
      → Under O U P R (attempt m >>= f)
  unfolding attempt ◌>>=◌
  attempt-Leads m f h k = record {
    run = λ w p q. (k (m w).0).run (m w).1 (h.run w p q).0 (h.run w p q).1;
  }

  -- The volume before the action is a fixed one.
  pub fixed-Leads :
      {E A : Type 0} {R : Result E A → Fs → Type 0} (m : M E A)
      → ((fs : Fs) → P fs → Under O U (Same fs) R m)
      → Under O U P R m
  fixed-Leads m h = record { run = λ w p q. (h w.fs p).run w refl q }

  pub Bool-Leads :
      {E A : Type 0} {R : Result E A → Fs → Type 0} (b : Bool) (x y : M E A)
      → (b ≡ true → Under O U P R x)
      → (b ≡ false → Under O U P R y)
      → Under O U P R (elim b [ true ↦ x | false ↦ y ])
  Bool-Leads true x y hx hy = hx refl
  Bool-Leads false x y hx hy = hy refl

  pub before-Leads :
      {E A : Type 0} {S : Fs → Type 0} {R : Result E A → Fs → Type 0} (m : M E A)
      → ((fs : Fs) → P fs → S fs)
      → Under O U S R m
      → Under O U P R m
  before-Leads m k h = record { run = λ w p q. h.run w (k w.fs p) q }

  pub after-Leads :
      {E A : Type 0} {Q R : Result E A → Fs → Type 0} (m : M E A)
      → ((r : Result E A) (fs : Fs) → Q r fs → R r fs)
      → Under O U P Q m
      → Under O U P R m
  after-Leads m k h = record {
    run = λ w p q. (k (m w).0 (m w).1.fs (h.run w p q).0, (h.run w p q).1);
  }

  -- What is known besides, whatever the volume is.
  pub given-Leads :
      {E A : Type 0} {X : Type 0} {R : Result E A → Fs → Type 0} (m : M E A)
      → (X → Under O U P R m)
      → Under O U (λ fs. P fs × X) R m
  given-Leads m h = record { run = λ w p q. (h p.1).run w p.0 q }

  pub Result-Leads :
      {E F A B : Type 0} {R : Result F B → Fs → Type 0} (r : Result E A) (f : A → M F B)
      (g : E → M F B)
      → ((a : A) → Under O U P R (f a))
      → ((e : E) → Under O U P R (g e))
      → Under O U (λ fs. P fs × Holds (λ _. Unit {0}) r) R (elim r [ ok a ↦ f a | err e ↦ g e ])
  Result-Leads (ok a) f g hf hg = record { run = λ w p q. (hf a).run w p.0 q }
  Result-Leads (err e) f g hf hg = record { run = λ w p q. (hg e).run w p.0 q }

  pub map_err-Leads :
      {E F A : Type 0} {Q : Result E A → Fs → Type 0} {R : Result F A → Fs → Type 0} (f : E → F)
      (m : M E A)
      → Under O U P Q m
      → ((a : A) (fs : Fs) → Q (ok a) fs → R (ok a) fs)
      → ((e : E) (fs : Fs) → Q (err e) fs → R (err (f e)) fs)
      → Under O U P R (map_err f m)
  unfolding map_err
  map_err-Leads {E} {F} {A} {Q} {R} f m h k l = record {
    run = λ w p q. step (m w) (h.run w p q).0 (h.run w p q).1;
  }
    where
      step :
          (r : Result E A × World)
          → Q r.0 r.1.fs
          → Others O U r.1
          → R (map_err f (λ _. r) r.1).0 (map_err f (λ _. r) r.1).1.fs
            × Others O U (map_err f (λ _. r) r.1).1
      step (ok a, w) g q = (k a w.fs g, q)
      step (err e, w) g q = (l e w.fs g, q)

  -- A step that keeps what holds, then the rest.
  pub first-Leads :
      {E A B : Type 0} {Q : A → Type 0} {R : Result E B → Fs → Type 0} (m : M E A) (f : A → M E B)
      → Assures O U P Q m
      → ((a : A) → Q a → Under O U P R (f a))
      → ((e : E) (fs : Fs) → P fs → R (err e) fs)
      → Under O U P R (m >>= f)
  first-Leads {E} {A} {B} {Q} {R} m f h k l =
      >>=-Leads {Q = λ r fs. P fs × Holds Q r} m f h (λ a. given-Leads (f a) (k a))
        (λ e fs q. l e fs q.0)

  pub >>=-Assures :
      {E A B : Type 0} {Q : A → Type 0} {R : B → Type 0} (m : M E A) (f : A → M E B)
      → Assures O U P Q m
      → ((a : A) → Q a → Assures O U P R (f a))
      → Assures O U P R (m >>= f)
  >>=-Assures m f h k = first-Leads m f h k (λ e fs p. (p, tt))

  pub map_err-Assures :
      {E F A : Type 0} {Q : A → Type 0} (f : E → F) (m : M E A)
      → Assures O U P Q m
      → Assures O U P Q (map_err f m)
  map_err-Assures f m h = map_err-Leads f m h (λ a fs p. p) (λ e fs p. p)

module _ {P : Fs → Type 0} where
  pub then-Leads :
      {E A B : Type 0} {Q : A → Type 0} {R : Result E B → Fs → Type 0} (m : M E A) (f : A → M E B)
      → Ensures P Q m
      → ((a : A) → Q a → Leads P R (f a))
      → ((e : E) (fs : Fs) → P fs → R (err e) fs)
      → Leads P R (m >>= f)
  then-Leads m f h k l = first-Leads m f (Ensures-Leads m h) k l
