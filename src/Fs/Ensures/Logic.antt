-- ===== src/Fs/Ensures/Logic.antt =====
-- A program logic: what an action keeps true of the volume at each of its steps, while the
-- surroundings keep it too, and what holds of the value that it returns.
use mathlib.Core.Path.{subst}
use i_tan_reclaim_space.Base.{
  ℕ, ◌≡◌, refl, sym, ap, ◌∙◌, Bool, true, false, List, [], ◌∷◌, ◌++◌, append_assoc, Option, none,
  some, All,
}
use i_tan_reclaim_space.Base.Results.{Result, ok, err}
use i_tan_reclaim_space.Fs.State.{Fs, IoError}
use i_tan_reclaim_space.Fs.World.{
  World, Turn, M, pure, throw, ◌>>=◌, map_err, attempt, take_turn, perform, syscall, query,
}

-- The other processes keep `P`.
abbrev pub Respect : (Fs → Type 0) → List Turn → Type 0
Respect P = All (λ t. (fs : Fs) → P fs → P (t.other fs))

-- The other processes leave the volume alone.
abbrev pub Quiet : List Turn → Type 0
Quiet = All (λ t. (fs : Fs) → t.other fs ≡ fs)

-- The turns that are left are the last ones.
abbrev pub IsTail : List Turn → List Turn → Type 0
IsTail ts us = (front : List Turn) × (us ≡ front ++ ts)

pub IsTail-trans : (ts us vs : List Turn) → IsTail ts us → IsTail us vs → IsTail ts vs
IsTail-trans ts us vs (f, d) (g, e) = (g ++ f, e ∙ ap (λ x. g ++ x) d ∙ sym (append_assoc g f ts))

All-tail : (S : Turn → Type 0) (front ts : List Turn) → All S (front ++ ts) → All S ts
All-tail S [] ts a = a
All-tail S (t ∷ front) ts a = All-tail S front ts a.1

-- A world that is left: its turns are the last ones, and the random names are the same.
abbrev pub Since : World → World → Type 0
Since v w = IsTail v.turns w.turns × (v.uuid ≡ w.uuid)

pub Since-trans : (u v w : World) → Since u v → Since v w → Since u w
Since-trans u v w (a, d) (b, e) = (IsTail-trans u.turns v.turns w.turns a b, d ∙ e)

-- What holds of all turns holds of those that are left.
pub IsTail-All : (S : Turn → Type 0) (ts us : List Turn) → IsTail ts us → All S us → All S ts
IsTail-All S ts us (f, e) a = All-tail S f ts (subst (All S) e a)

abbrev pub Inv : (Fs → Type 0) → World → Type 0
Inv P w = P w.fs × Respect P w.turns

abbrev pub Holds : {E A : Type 0} → (A → Type 0) → Result E A → Type 0
Holds Q (ok a) = Q a
Holds Q (err e) = Unit {0}

pub record Ensures {E A : Type 0} (P : Fs → Type 0) (Q : A → Type 0) (m : M E A) : Type 0 where
  pub run : (w : World) → Inv P w → Inv P (m w).1 × Holds Q (m w).0
  pub since : (w : World) → Inv P w → Since (m w).1 w

-- The action keeps `P`; nothing is said of its value.
abbrev pub Keeps : {E A : Type 0} → (Fs → Type 0) → M E A → Type 0
Keeps P m = Ensures P (λ _. Unit {0}) m

pub Holds-Unit : {E A : Type 0} (r : Result E A) → Holds (λ _. Unit {0}) r
Holds-Unit (ok a) = tt
Holds-Unit (err e) = tt

pub Holds-all : {E A : Type 0} {X : Type 0} → X → (r : Result E A) → Holds (λ _. X) r
Holds-all x (ok a) = x
Holds-all x (err e) = tt

-- Whatever they are to keep, they keep it when they do nothing.
pub Quiet-Respect : (P : Fs → Type 0) (ts : List Turn) → Quiet ts → Respect P ts
Quiet-Respect P [] q = tt
Quiet-Respect P (t ∷ ts) q = (λ fs p. subst P (sym (q.0 fs)) p, Quiet-Respect P ts q.1)

pub take_turn-Since : (ts : List Turn) (w : World) → w.turns ≡ ts → Since (take_turn ts w).1 w
unfolding take_turn
take_turn-Since [] w e = (([], refl), refl)
take_turn-Since (t ∷ ts) w e = ((t ∷ [], e), refl)

pub take_turn-Inv :
    (P : Fs → Type 0) (ts : List Turn) (w : World)
    → w.turns ≡ ts
    → Inv P w
    → Inv P (take_turn ts w).1
unfolding take_turn
take_turn-Inv P [] w e i = i
take_turn-Inv P (t ∷ ts) w e (p, k) =
    let k' : Respect P (t ∷ ts) = subst (Respect P) e k in (k'.0 w.fs p, k'.1)

module _ {P : Fs → Type 0} where
  pub Ensures-weaken : {E A : Type 0} {Q : A → Type 0} (m : M E A) → Ensures P Q m → Keeps P m
  Ensures-weaken m h = record { run = λ w i. ((h.run w i).0, Holds-Unit (m w).0); since = h.since }

  -- What is known of the value says less.
  pub Ensures-map :
      {E A : Type 0} {Q R : A → Type 0} (m : M E A)
      → Ensures P Q m
      → ((a : A) → Q a → R a)
      → Ensures P R m
  Ensures-map {E} {A} {Q} {R} m h k = record {
    run = λ w i. ((h.run w i).0, mapped (m w).0 (h.run w i).1);
    since = h.since;
  }
    where
      mapped : (r : Result E A) → Holds Q r → Holds R r
      mapped (ok a) q = k a q
      mapped (err e) q = tt

  pub pure-Ensures : {E A : Type 0} {Q : A → Type 0} (a : A) → Q a → Ensures {E = E} P Q (pure a)
  pure-Ensures a q = record { run = λ w i. (i, q); since = λ w i. (([], refl), refl) }

  pub pure-Keeps : {E A : Type 0} (a : A) → Ensures {E = E} {A = A} P (λ _. Unit {0}) (pure a)
  pure-Keeps a = record { run = λ w i. (i, tt); since = λ w i. (([], refl), refl) }

  pub throw-Ensures : {E A : Type 0} {Q : A → Type 0} (e : E) → Ensures P Q (throw {A = A} e)
  throw-Ensures e = record { run = λ w i. (i, tt); since = λ w i. (([], refl), refl) }

  pub >>=-Ensures :
      {E A B : Type 0} {Q : A → Type 0} {R : B → Type 0} (m : M E A) (f : A → M E B)
      → Ensures P Q m
      → ((a : A) → Q a → Ensures P R (f a))
      → Ensures P R (m >>= f)
  unfolding ◌>>=◌
  >>=-Ensures {E} {A} {B} {Q} {R} m f h k = record {
    run = λ w i. step (m w) (h.run w i);
    since = λ w i. rest w (m w) (h.run w i) (h.since w i);
  }
    where
      rest :
          (us : World) (r : Result E A × World)
          → Inv P r.1 × Holds Q r.0
          → Since r.1 us
          → Since (◌>>=◌ (λ _. r) f r.1).1 us
      rest us (ok a, w) g q = Since-trans (f a w).1 w us ((k a g.1).since w g.0) q
      rest us (err e, w) g q = q

      step :
          (r : Result E A × World)
          → Inv P r.1 × Holds Q r.0
          → Inv P (◌>>=◌ (λ _. r) f r.1).1 × Holds R (◌>>=◌ (λ _. r) f r.1).0
      step (ok a, w) g = (k a g.1).run w g.0
      step (err e, w) g = (g.0, tt)

  pub map_err-Ensures :
      {E F A : Type 0} {Q : A → Type 0} (f : E → F) (m : M E A)
      → Ensures P Q m
      → Ensures P Q (map_err f m)
  unfolding map_err
  map_err-Ensures {E} {F} {A} {Q} f m h = record {
    run = λ w i. step (m w) (h.run w i);
    since = λ w i. rest w (m w) (h.since w i);
  }
    where
      rest :
          (us : World) (r : Result E A × World) → Since r.1 us → Since (map_err f (λ _. r) r.1).1 us
      rest us (ok a, w) q = q
      rest us (err e, w) q = q

      step :
          (r : Result E A × World)
          → Inv P r.1 × Holds Q r.0
          → Inv P (map_err f (λ _. r) r.1).1 × Holds Q (map_err f (λ _. r) r.1).0
      step (ok a, w) g = g
      step (err e, w) g = g

  pub attempt-Ensures :
      {E F A : Type 0} {Q : A → Type 0} (m : M E A)
      → Ensures P Q m
      → Ensures {E = F} P (Holds Q) (attempt m)
  unfolding attempt
  attempt-Ensures m h = record { run = h.run; since = h.since }

  pub syscall-Ensures :
      {A : Type 0} {Q : A → Type 0} (op : ℕ → Fs → Result IoError A × Fs)
      → ((now : ℕ) (fs : Fs) → P fs → P (op now fs).1 × Holds Q (op now fs).0)
      → Ensures P Q (syscall op)
  unfolding syscall
  syscall-Ensures {A} {Q} op h = record {
    run = λ w i. step (take_turn w.turns w) (take_turn-Inv P w.turns w refl i);
    since = λ w i. rest w (take_turn w.turns w) (take_turn-Since w.turns w refl);
  }
    where
      rest : (us : World) (r : Option IoError × World) → Since r.1 us → Since (perform op r).1 us
      rest us (none, w) q = q
      rest us (some e, w) q = q

      step :
          (r : Option IoError × World)
          → Inv P r.1
          → Inv P (perform op r).1 × Holds Q (perform op r).0
      step (none, w) i = let g = h w.now w.fs i.0 in ((g.0, i.1), g.1)
      step (some e, w) i = (i, tt)

  -- A call that only reads.
  pub query-Ensures :
      {A : Type 0} {Q : A → Type 0} (op : Fs → Result IoError A)
      → ((fs : Fs) → P fs → Holds Q (op fs))
      → Ensures P Q (query op)
  unfolding query
  query-Ensures op h = syscall-Ensures (λ now fs. (op fs, fs)) (λ now fs p. (p, h fs p))

  pub query-Keeps : {A : Type 0} (op : Fs → Result IoError A) → Keeps P (query op)
  query-Keeps op = query-Ensures op (λ fs p. Holds-Unit (op fs))

  -- A call that changes the volume.
  pub syscall-Keeps :
      {A : Type 0} (op : ℕ → Fs → Result IoError A × Fs)
      → ((now : ℕ) (fs : Fs) → P fs → P (op now fs).1)
      → Keeps P (syscall op)
  syscall-Keeps op h = syscall-Ensures op (λ now fs p. (h now fs p, Holds-Unit (op now fs).0))

  -- Both branches of a test, and of a match on a result.
  pub Bool-Ensures :
      {E A : Type 0} {Q : A → Type 0} (b : Bool) (x y : M E A)
      → Ensures P Q x
      → Ensures P Q y
      → Ensures P Q (elim b [ true ↦ x | false ↦ y ])
  Bool-Ensures true x y hx hy = hx
  Bool-Ensures false x y hx hy = hy

  pub Result-Ensures :
      {E F A B : Type 0} {Q : B → Type 0} (r : Result E A) (f : A → M F B) (g : E → M F B)
      → ((a : A) → Ensures P Q (f a))
      → ((e : E) → Ensures P Q (g e))
      → Ensures P Q (elim r [ ok a ↦ f a | err e ↦ g e ])
  Result-Ensures (ok a) f g hf hg = hf a
  Result-Ensures (err e) f g hf hg = hg e

  -- Where something is known of the result.
  pub Holds-Ensures :
      {E F A B : Type 0} {R : A → Type 0} {Q : B → Type 0} (r : Result E A) (f : A → M F B)
      (g : E → M F B)
      → Holds R r
      → ((a : A) → R a → Ensures P Q (f a))
      → ((e : E) → Ensures P Q (g e))
      → Ensures P Q (elim r [ ok a ↦ f a | err e ↦ g e ])
  Holds-Ensures (ok a) f g h hf hg = hf a h
  Holds-Ensures (err e) f g h hf hg = hg e
