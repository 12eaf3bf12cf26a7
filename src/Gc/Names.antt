-- ===== src/Gc/Names.antt =====
-- The time and the slot name that a quarantine name carries can be read back from it.
use native.Mathlib.Nat.{suc-add}
use i_tan_reclaim_space.Base.{
  ℕ, ◌+◌, ◌-◌, ◌<◌, ◌≡◌, refl, ◌≢◌, Bytes, [], ◌∷◌, ◌++◌, arith, length, drop, length-append,
  lt→ltb,
}
use i_tan_reclaim_space.Text.{decimal, u64_mod}
use i_tan_reclaim_space.Text.Laws.{
  decimal-IsDigits, parse_u64-decimal, find_byte-digits, before-digits,
}
use i_tan_reclaim_space.Gc.{quarantine_name, quarantine_entry_age_ms, strip_quarantine_prefix}

-- The age of an entry counts from the time at which it was quarantined.
pub quarantine_entry_age_ms-quarantine_name :
    (now timestamp : ℕ) (name : Bytes)
    → now < u64_mod
    → timestamp < u64_mod
    → quarantine_entry_age_ms now (quarantine_name timestamp name) ≡ now - timestamp
unfolding quarantine_entry_age_ms quarantine_name
quarantine_entry_age_ms-quarantine_name now timestamp name hn ht =
    rw
      (
        before-digits (decimal timestamp) name (decimal-IsDigits timestamp),
        parse_u64-decimal timestamp ht,
      )
      (omega arith)

drop_behind : (s t : Bytes) (c : ℕ) → drop (length s + 1) (s ++ c ∷ t) ≡ t
drop_behind [] t c = refl
drop_behind (x ∷ s) t c = rw suc-add (drop_behind s t c)

-- The slot name can be read back from the name in quarantine, unless it is empty, whatever it contains.
pub strip_quarantine_prefix-quarantine_name :
    (timestamp : ℕ) (name : Bytes)
    → name ≢ []
    → strip_quarantine_prefix (quarantine_name timestamp name) ≡ name
unfolding strip_quarantine_prefix quarantine_name
strip_quarantine_prefix-quarantine_name timestamp [] h = absurd (h refl)
strip_quarantine_prefix-quarantine_name timestamp (c ∷ name) h =
    rw
      (
        find_byte-digits (decimal timestamp) (c ∷ name) (decimal-IsDigits timestamp),
        lt→ltb (length (decimal timestamp) + 1) (length (decimal timestamp ++ b'_' ∷ c ∷ name))
            (omega (arith, length-append (decimal timestamp) (b'_' ∷ c ∷ name))),
      )
      (drop_behind (decimal timestamp) (c ∷ name) b'_')
