-- ===== src/Store/Room.antt =====
-- The slot that `acquire_slot` returns can take one more link, in a run in which no call fails and no other process
-- interferes.
use i_tan_reclaim_space.Store.Spill.{names-Bounded, HasRoom, CanSpill, spilled, spill_slot-calm}
use mathlib.Core.Path.{subst}
use i_tan_reclaim_space.Base.{
  ℕ, zero, suc, ◌+◌, ◌^◌, ◌≤◌, ◌<◌, ◌≡◌, refl, sym, ap, ◌∙◌, inl, inr, Bytes, Bool, true, false,
  some, ltb, ltb→lt, arith, ite, Bool-cases, ℕ_discrete,
}
use i_tan_reclaim_space.Base.Results.{Result, ok}
use i_tan_reclaim_space.Fs.Calls.{exists}
use i_tan_reclaim_space.Fs.Path.{FilePath}
use i_tan_reclaim_space.Fs.Table.{find, names, find-bind_same, names-bind}
use i_tan_reclaim_space.Fs.World.{M, pure, ◌>>=◌, World, calm, unix}
use i_tan_reclaim_space.Fs.Runs.{branch_true, branch_false, >>=-ok}
use i_tan_reclaim_space.Fs.Runs.Files.{there, exists-calm, absent_there, there_found, dir_there}
use i_tan_reclaim_space.Capability.{VolumeCapability}
use i_tan_reclaim_space.Store.{CasStore, SlotRef, StoreError}
use i_tan_reclaim_space.Store.Hex.Laws.{IsDigest, validate_digest_hex-hex_encode}
use i_tan_reclaim_space.Store.Lookup.{current_link_count_path-calm}
use i_tan_reclaim_space.Store.Safety.{store, hex, slot_at}
use i_tan_reclaim_space.Store.Slots.{shard_of, slot_ref, spill_slot, acquire_from, acquire_slot}

module _ (root : FilePath) (capability : VolumeCapability) (d : Bytes) (w : World) where
  abbrev s : CasStore
  s = store root capability d

  abbrev at : ℕ → FilePath
  at = slot_at root capability d

  -- A result of an acquisition: some slot of the digest with an index up to a bound, which has room.
  abbrev pub Acquired : ℕ → Result StoreError SlotRef × World → Type 0
  Acquired n r =
      (m : ℕ) × (v : World) × (r ≡ (ok (slot_ref (hex root capability d) m (at m)), v))
      × (m ≤ n)
      × HasRoom root capability d w (at m) v

  via : (n : ℕ) (r q : Result StoreError SlotRef × World) → r ≡ q → Acquired n q → Acquired n r
  via n r q e (m, v, f, l, h) = (m, v, e ∙ f, l, h)

  module _ (n : ℕ) (u : w.os ≡ unix) (c : CanSpill root capability d w)
      (files : (j : ℕ) → j < n → (i : ℕ) × (find (at j) w.fs.table ≡ some i))
      (end : there (at n) w.fs ≡ false) where
    shard : FilePath
    shard = shard_of s (hex root capability d)

    spilled-HasRoom : (i : ℕ) → HasRoom root capability d w (at n) (spilled root capability d w i n)
    spilled-HasRoom i = inr (
      w.fs.next_ino,
      find-bind_same (at n) w.fs.next_ino w.fs.table,
      omega (
        arith,
        c.some_links,
        names-Bounded w.fs.next_ino w.fs.table c.bounded,
        names-bind (at n) w.fs.next_ino w.fs.next_ino w.fs.table (absent_there (at n) w.fs end).0,
        one,
      ),
    )
      where
        one : ◌≡◌ {A = ℕ} (ite (ℕ_discrete w.fs.next_ino w.fs.next_ino) 1 0) 1
        one = ground arith

    -- The rest of an acquisition behind a slot without room.
    next_in : ℕ → ℕ → M StoreError SlotRef
    unfolding acquire_from
    next_in left k = do
      follows ← exists (at (k + 1))
      elim follows [
        | false ↦ spill_slot s (slot_ref (hex root capability d) k (at k))
        | true ↦
            acquire_from left (k + 1) s (shard_of s (hex root capability d)) (hex root capability d)
      ]

    next_in-Acquired :
        (rest left k i : ℕ)
        → n ≡ k + suc rest
        → find (at k) w.fs.table ≡ some i
        → ((x : ℕ)
            → rest ≡ suc x
            → Acquired n (
                acquire_from left
                  (k + 1)
                  s
                  (shard_of s (hex root capability d))
                  (hex root capability d)
                  (calm w)))
        → Acquired n (next_in left k (calm w))
    unfolding next_in
    next_in-Acquired zero left k i e f later = (
      n,
      spilled root capability d w i n,
      >>=-ok _ _ (calm w) false (calm w)
            (exists-calm (at (k + 1)) w ∙ ap (λ b. (ok b, calm w)) absent)
          ∙ spill_slot-calm root capability d w i k c f absent
          ∙ ap
              (λ x.
                (ok (slot_ref (hex root capability d) x (at x)), spilled root capability d w i x))
              last,
      omega arith,
      spilled-HasRoom i,
    )
      where
        last : ◌≡◌ {A = ℕ} (k + 1) n
        last = omega (arith, e)

        absent : there (at (k + 1)) w.fs ≡ false
        absent = subst (λ x. there (at x) w.fs ≡ false) (sym last) end
    next_in-Acquired (suc rest) left k i e f later =
        let slot = files (k + 1) (omega (arith, e)) in
        via n _ _
          (>>=-ok _ _ (calm w) true (calm w) (
            exists-calm (at (k + 1)) w
            ∙ ap (λ b. (ok b, calm w)) (there_found (at (k + 1)) slot.0 w.fs slot.1)))
          (later rest refl)

    -- The acquisition at a slot that is there.
    at_slot :
        (left k i : ℕ)
        → find (at k) w.fs.table ≡ some i
        → acquire_from
            (suc left)
            k
            s
            (shard_of s (hex root capability d))
            (hex root capability d)
            (calm w)
          ≡ (elim (ltb (names i w.fs.table) s.max_links_per_slot) as (λ _. M StoreError SlotRef) [
            | true ↦ pure (slot_ref (hex root capability d) k (at k))
            | false ↦ next_in left k
          ])
              (calm w)
    unfolding acquire_from next_in
    at_slot left k i f =
        >>=-ok _ _ (calm w) true (calm w)
          (exists-calm (at k) w ∙ ap (λ b. (ok b, calm w)) (there_found (at k) i w.fs f))
        ∙ >>=-ok _ _ (calm w) (names i w.fs.table) (calm w)
            (current_link_count_path-calm (at k) i w u f)

    acquire_from-Acquired :
        (rest left k : ℕ)
        → n ≡ k + rest
        → rest < left
        → Acquired n (
            acquire_from left k s
              (shard_of s (hex root capability d))
              (hex root capability d)
              (calm w))
    unfolding acquire_from
    acquire_from-Acquired rest zero k e l = absurd (omega arith)
    acquire_from-Acquired zero (suc left) k e l = (
      k,
      calm w,
      >>=-ok _ _ (calm w) false (calm w) (exists-calm (at k) w ∙ ap (λ b. (ok b, calm w)) absent),
      omega arith,
      inl (absent_there (at k) w.fs absent).0,
    )
      where
        absent : there (at k) w.fs ≡ false
        absent = subst (λ x. there (at x) w.fs ≡ false) (let e' : n ≡ k = omega arith in e') end
    acquire_from-Acquired (suc rest) (suc left) k e l =
        let slot = files k (omega arith) in
        via n _ _ (at_slot left k slot.0 slot.1)
          (elim (Bool-cases (ltb (names slot.0 w.fs.table) s.max_links_per_slot)) [
            | inl room ↦ (
              k,
              calm w,
              branch_true _ _ _ (calm w) room,
              omega (arith, e),
              inr (slot.0, slot.1, ltb→lt (names slot.0 w.fs.table) s.max_links_per_slot room),
            )
            | inr full ↦ via n _ _ (branch_false _ _ _ (calm w) full) (
                next_in-Acquired rest left k slot.0 e slot.1 (λ x r.
                  acquire_from-Acquired rest left (k + 1) (omega (arith, e)) (omega (arith, l))))
          ])

  -- The acquisition, by whether the first slot is there.
  first_there :
      IsDigest d
      → CanSpill root capability d w
      → (b : Bool) → there (at 0) w.fs ≡ b
      → acquire_slot s d (calm w)
        ≡ (elim b as (λ _. M StoreError SlotRef) [
          | false ↦ pure (slot_ref (hex root capability d) 0 (at 0))
          | true ↦
              acquire_from (2 ^ 32) 0 s (shard_of s (hex root capability d)) (hex root capability d)
        ])
            (calm w)
  unfolding acquire_slot
  first_there digest c b e =
      branch_true _ _ _ (calm w) (validate_digest_hex-hex_encode d digest)
      ∙ >>=-ok _ _ (calm w) true (calm w) (
          exists-calm (shard_of s (hex root capability d)) w
          ∙ ap (λ x. (ok x, calm w))
              (dir_there (shard_of s (hex root capability d)) w.fs c.shard_there))
      ∙ >>=-ok _ _ (calm w) b (calm w) (exists-calm (at 0) w ∙ ap (λ x. (ok x, calm w)) e)

  -- On a Unix system, in a run in which no call fails and no other process interferes, on a volume that can take a
  -- spill, for a digest of 32 bytes whose slots 0 to n - 1 are files, with nothing at the path of slot n and n below
  -- the range of a `u32`, `acquire_slot` succeeds: the slot it returns has an index of at most n, and either nothing
  -- stands at its path or the file there has fewer links than the store allows.
  pub acquire_slot-room :
      (n : ℕ)
      → w.os ≡ unix
      → CanSpill root capability d w
      → IsDigest d
      → n < 2 ^ 32
      → ((j : ℕ) → j < n → (i : ℕ) × (find (at j) w.fs.table ≡ some i))
      → there (at n) w.fs ≡ false
      → Acquired n (acquire_slot s d (calm w))
  unfolding acquire_slot
  acquire_slot-room zero u c digest l files end =
      (0, calm w, first_there digest c false end, omega arith, inl (absent_there (at 0) w.fs end).0)
  acquire_slot-room (suc n) u c digest l files end =
      let slot = files 0 (omega arith) in
      via (suc n) _ _ (first_there digest c true (there_found (at 0) slot.0 w.fs slot.1))
        (acquire_from-Acquired (suc n) u c files end (suc n) (2 ^ 32) 0 (omega arith) l)
