-- ===== src/Digest/Rounds.antt =====
-- The digest that the loop of `full_cas_digest` computes of a content, given what the reads return.
use i_tan_reclaim_space.Base.{
  ℕ, zero, suc, ◌+◌, ◌-◌, ◌^◌, ◌<◌, ◌≡◌, refl, ap, ◌∙◌, sym, Bytes, Bool, true, false, [], ◌∷◌,
  ◌++◌, ◌==◌, min, length, take, drop, length-take, length-drop, drop_add, arith, inl, inr,
  Bool-cases, ==→eq, ==→ne,
}
use i_tan_reclaim_space.Digest.{Hasher, IsHasher, hash_of, block_size}

-- A read takes a piece off the front; what is left starts behind that piece.
take-drop-length : (k : ℕ) (s : Bytes) → take k s ++ drop (length (take k s)) s ≡ s
take-drop-length zero s = refl
take-drop-length (suc k) [] = refl
take-drop-length (suc k) (x ∷ s) = ap (x ∷◌) (take-drop-length k s)

-- A block that is empty means the end, since at least one byte is asked for.
drop_end : (k : ℕ) (s : Bytes) → length (take (suc k) s) ≡ 0 → s ≡ []
drop_end k [] h = refl
drop_end k (x ∷ s) h = absurd (omega arith)

module _ (h : Hasher) (granted : ℕ → ℕ) where
  -- The block at an offset.
  abbrev pub block_at : Bytes → ℕ → Bytes
  block_at content offset = take (min block_size (suc (granted offset))) (drop offset content)

  -- The loop, on a content that does not change.
  unfoldable pub rounds_of : ℕ → Bytes → ℕ → h.State → Bytes
  rounds_of zero content offset hasher = h.finalize hasher
  rounds_of (suc rounds) content offset hasher =
      let block = block_at content offset in
      elim (length block == 0) [
        | true ↦ h.finalize hasher
        | false ↦ rounds_of rounds content (offset + length block) (h.update hasher block)
      ]

  unfoldable pub digest_of : Bytes → Bytes
  unfolding rounds_of
  digest_of content = rounds_of (2 ^ 63) content 0 h.new

  pub rounds_of-hash :
      IsHasher h
      → (rounds : ℕ) (content : Bytes) (offset : ℕ) (hasher : h.State)
      → length content - offset < rounds
      → rounds_of rounds content offset hasher ≡ h.finalize (h.update hasher (drop offset content))
  unfolding rounds_of
  rounds_of-hash law zero content offset hasher l = absurd (omega arith)
  rounds_of-hash law (suc rounds) content offset hasher l =
      elim (Bool-cases (length (block_at content offset) == 0)) [
        | inl e ↦
            rw (e, rounds_of)
              (ap h.finalize (
                sym (
                  ap (λ s. h.update hasher s)
                    (drop_end (min 65_535 (granted offset)) (drop offset content) (shorter e))
                  ∙ law.update_nil hasher)))
        | inr e ↦
            rw (e, rounds_of)
              (rounds_of-hash law rounds content (offset + length (block_at content offset))
                  (h.update hasher (block_at content offset))
                  (omega (
                    arith,
                    length-drop offset content,
                    length-take k (drop offset content),
                    ==→ne _ _ e,
                  ))
                ∙ ap h.finalize (
                    law.update_append hasher (block_at content offset)
                      (drop (offset + length (block_at content offset)) content)
                    ∙ ap (λ s. h.update hasher s)
                        (rw (← drop_add offset (length (block_at content offset)) content)
                          (take-drop-length k (drop offset content)))))
      ]
    where
      k : ℕ
      k = min block_size (suc (granted offset))

      shorter :
          (length (block_at content offset) == 0) ≡ true
          → length (take (suc (min 65_535 (granted offset))) (drop offset content)) ≡ 0
      shorter e = omega (
        arith,
        length-take k (drop offset content),
        length-take (suc (min 65_535 (granted offset))) (drop offset content),
        ==→eq _ _ e,
      )

  pub digest_of-hash_of :
      IsHasher h
      → (content : Bytes) → length content < 2 ^ 63
      → digest_of content ≡ hash_of h content
  unfolding digest_of hash_of
  digest_of-hash_of law content l = rounds_of-hash law (2 ^ 63) content 0 h.new (omega (arith, l))

  -- A digest is what `finalize` returns.
  pub rounds_of-finalize :
      (P : Bytes → Type 0)
      → ((s : h.State) → P (h.finalize s))
      → (rounds : ℕ) (content : Bytes) (offset : ℕ) (hasher : h.State)
      → P (rounds_of rounds content offset hasher)
  unfolding rounds_of
  rounds_of-finalize P f zero content offset hasher = f hasher
  rounds_of-finalize P f (suc rounds) content offset hasher =
      if-holds P (length (block_at content offset) == 0) _ _ (f hasher)
        (rounds_of-finalize P f rounds content _ _)
    where
      if-holds :
          (P : Bytes → Type 0) (b : Bool) (x y : Bytes)
          → P x
          → P y
          → P (elim b [ true ↦ x | false ↦ y ])
      if-holds P true x y p q = p
      if-holds P false x y p q = q

  pub digest_of-finalize :
      (P : Bytes → Type 0)
      → ((s : h.State) → P (h.finalize s))
      → (content : Bytes) → P (digest_of content)
  unfolding digest_of
  digest_of-finalize P f content = rounds_of-finalize P f (2 ^ 63) content 0 h.new
