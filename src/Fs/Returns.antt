-- ===== src/Fs/Returns.antt =====
-- What holds of the value that an action returns, whatever the surroundings do.
use mathlib.Core.Path.{subst}
use i_tan_reclaim_space.Base.{◌≡◌, refl, sym, ap, ◌∙◌, Bytes, Bool, true, false}
use i_tan_reclaim_space.Base.Results.{Result, ok, err}
use i_tan_reclaim_space.Fs.World.{World, M, pure, ◌>>=◌, attempt, new_uuid}
use i_tan_reclaim_space.Fs.Ensures.{Holds, Holds-Unit}
use i_tan_reclaim_space.Fs.Runs.{>>=-ok}

-- If the action returns a value, that has the property.
pub record Returns {E A : Type 0} (Q : A → Type 0) (m : M E A) : Type 0 where
  pub run : (w : World) → Holds Q (m w).0

-- The action returns a value with the property.
pub record Yields {E A : Type 0} (Q : A → Type 0) (m : M E A) : Type 0 where
  pub run : (w : World) → (a : A) × (v : World) × (m w ≡ (ok a, v)) × Q a

pub >>=-Returns :
    {E A B : Type 0} {Q : A → Type 0} {R : B → Type 0} (m : M E A) (f : A → M E B)
    → Returns Q m
    → ((a : A) → Q a → Returns R (f a))
    → Returns R (m >>= f)
unfolding ◌>>=◌
>>=-Returns {E} {A} {B} {Q} {R} m f h k = record { run = λ w. step (m w) (h.run w) }
  where
    step : (r : Result E A × World) → Holds Q r.0 → Holds R (◌>>=◌ (λ _. r) f r.1).0
    step (ok a, v) q = (k a q).run v
    step (err e, v) q = tt

-- A step of which nothing is known.
pub after_Returns :
    {E A B : Type 0} {R : B → Type 0} (m : M E A) (f : A → M E B)
    → ((a : A) → Returns R (f a))
    → Returns R (m >>= f)
after_Returns m f k =
    >>=-Returns {Q = λ _. Unit {0}} m f (record { run = λ w. Holds-Unit (m w).0 }) (λ a _. k a)

-- What yields a value returns none other.
pub Yields-Returns : {E A : Type 0} {Q : A → Type 0} (m : M E A) → Yields Q m → Returns Q m
Yields-Returns {E} {A} {Q} m h = record {
  run = λ w. let (a, v, e, q) = h.run w in subst (Holds Q) (sym (ap (λ r. r.0) e)) q;
}

pub pure-Yields : {E A : Type 0} {Q : A → Type 0} (a : A) → Q a → Yields {E = E} Q (pure a)
pure-Yields a q = record { run = λ w. (a, w, refl, q) }

pub attempt-Yields :
    {E F A : Type 0} {Q : A → Type 0} (m : M E A)
    → Returns Q m
    → Yields {E = F} (Holds Q) (attempt m)
unfolding attempt
attempt-Yields m h = record { run = λ w. ((m w).0, (m w).1, refl, h.run w) }

pub >>=-Yields :
    {E A B : Type 0} {Q : A → Type 0} {R : B → Type 0} (m : M E A) (f : A → M E B)
    → Yields Q m
    → ((a : A) → Q a → Yields R (f a))
    → Yields R (m >>= f)
>>=-Yields m f h k = record {
  run = λ w.
      let (a, v, e, q) = h.run w in
      let (b, u, g, r) = (k a q).run v in (b, u, >>=-ok m f w a v e ∙ g, r);
}

-- An attempt of which nothing is known.
pub attempted_Yields :
    {E F A B : Type 0} {R : B → Type 0} (m : M E A) (f : Result E A → M F B)
    → ((r : Result E A) → Yields R (f r))
    → Yields R (attempt m >>= f)
attempted_Yields m f k =
    >>=-Yields (attempt m) f
      (attempt-Yields {Q = λ _. Unit {0}} m (record { run = λ w. Holds-Unit (m w).0 })) (λ r _. k r)

pub new_uuid-Yields : {E : Type 0} → Yields {E = E} {A = Bytes} (λ _. Unit {0}) new_uuid
unfolding new_uuid
new_uuid-Yields = record { run = λ w. (_, _, refl, tt) }

-- Both branches of a test, and of a match on a result.
pub Bool-Returns :
    {E A : Type 0} {Q : A → Type 0} (b : Bool) (x y : M E A)
    → Returns Q x
    → Returns Q y
    → Returns Q (elim b [ true ↦ x | false ↦ y ])
Bool-Returns true x y hx hy = hx
Bool-Returns false x y hx hy = hy

pub Bool-Yields :
    {E A : Type 0} {Q : A → Type 0} (b : Bool) (x y : M E A)
    → Yields Q x
    → Yields Q y
    → Yields Q (elim b [ true ↦ x | false ↦ y ])
Bool-Yields true x y hx hy = hx
Bool-Yields false x y hx hy = hy

pub Result-Yields :
    {E F A B : Type 0} {Q : B → Type 0} (r : Result E A) (f : A → M F B) (g : E → M F B)
    → ((a : A) → Yields Q (f a))
    → ((e : E) → Yields Q (g e))
    → Yields Q (elim r [ ok a ↦ f a | err e ↦ g e ])
Result-Yields (ok a) f g hf hg = hf a
Result-Yields (err e) f g hf hg = hg e
