-- ===== src/Whitelist/Laws.antt =====
-- What the classification of a path depends on.
use i_tan_reclaim_space.Base.{
  ℕ, ◌≡◌, refl, Bytes, Bool, true, [], ◌∷◌, ◌++◌, Option, none, some, ◌==◌, any, codes, arith,
  Option-cases, inl, inr,
}
use i_tan_reclaim_space.Fs.Path.{Name, text, opaque, FilePath}
use i_tan_reclaim_space.Text.{lower, to_ascii_lowercase, str_eq}
use i_tan_reclaim_space.Whitelist.{
  whitelisted, after_last_dot, extension, is_inside_node_modules, classify_path, named,
}

lower_idem : (c : ℕ) → lower (lower c) ≡ lower c
lower_idem c = ground arith

lower_dot : (c : ℕ) → (lower c == b'.') ≡ (c == b'.')
lower_dot c = ground arith

to_ascii_lowercase_idem :
    (s : Bytes) → to_ascii_lowercase (to_ascii_lowercase s) ≡ to_ascii_lowercase s
to_ascii_lowercase_idem [] = refl
to_ascii_lowercase_idem (c ∷ s) = rw (lower_idem c, to_ascii_lowercase_idem s) refl

abbrev lowered : Option Bytes → Option Bytes
lowered none = none
lowered (some s) = some (to_ascii_lowercase s)

after_last_dot-to_ascii_lowercase :
    (s : Bytes) → after_last_dot (to_ascii_lowercase s) ≡ lowered (after_last_dot s)
unfolding after_last_dot
after_last_dot-to_ascii_lowercase [] = refl
after_last_dot-to_ascii_lowercase (c ∷ s) = elim (Option-cases (after_last_dot s)) [
  | inl e ↦ ground (arith, after_last_dot-to_ascii_lowercase s, lower_dot c)
  | inr (t, e) ↦ ground (arith, after_last_dot-to_ascii_lowercase s)
]

lower_text : Name → Name
lower_text (text s) = text (to_ascii_lowercase s)
lower_text (opaque s) = opaque s

-- Upper and lower case in the name of a file do not matter to its class.
pub classify_path-to_ascii_lowercase :
    (s : Bytes) (p : FilePath)
    → classify_path (text (to_ascii_lowercase s) ∷ p) ≡ classify_path (text s ∷ p)
unfolding classify_path extension is_inside_node_modules
classify_path-to_ascii_lowercase [] p = refl
classify_path-to_ascii_lowercase (c ∷ s) p = elim (Option-cases (after_last_dot s)) [
  | inl e ↦ rw (after_last_dot-to_ascii_lowercase s, e) refl
  | inr (t, e) ↦
      rw
        (
          after_last_dot-to_ascii_lowercase s,
          e,
          to_ascii_lowercase_idem t,
          to_ascii_lowercase_idem s,
          lower_idem c,
        )
        refl
]

any-append :
    (f : Name → Bool) (p : FilePath) (n : Name) (q : FilePath)
    → f n ≡ true
    → any f (p ++ n ∷ q) ≡ true
any-append f [] n q h = rw h refl
any-append f (m ∷ p) n q h = ground (arith, any-append f p n q h)

-- A file anywhere below a directory `node_modules` is whitelisted, whatever its name is.
pub classify_path_node_modules :
    (n : Name) (p q : FilePath)
    → classify_path (n ∷ (p ++ text (codes "node_modules") ∷ q)) ≡ whitelisted
unfolding classify_path is_inside_node_modules str_eq
classify_path_node_modules n p q =
    rw (any-append (named (codes "node_modules")) p (text (codes "node_modules")) q refl) refl
