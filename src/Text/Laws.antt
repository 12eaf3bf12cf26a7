-- ===== src/Text/Laws.antt =====
-- Numbers survive printing and parsing, and a separator is found where it was put.
use i_tan_reclaim_space.Base.{
  ℕ, zero, suc, ◌+◌, ◌-◌, ◌*◌, ◌/◌, ◌%◌, ◌<◌, ◌≤◌, ◌≡◌, refl, ◌≢◌, Bytes, true, [], ◌∷◌, ◌++◌, some,
  arith, length, replicate, All,
}
use i_tan_reclaim_space.Text.{
  decimal_fuel, decimal, decimal_03, u64_mod, parse_digits, parse_u64, find_byte, before, str_eq,
}

abbrev IsDigits : Bytes → Type 0
IsDigits = All (λ c. (48 ≤ c) × (c ≤ 57))

IsDigits-append : (s t : Bytes) → IsDigits s → IsDigits t → IsDigits (s ++ t)
IsDigits-append [] t hs ht = ht
IsDigits-append (c ∷ s) t hs ht = (hs.0, IsDigits-append s t hs.1 ht)

decimal_fuel-IsDigits : (f n : ℕ) → IsDigits (decimal_fuel f n)
unfolding decimal_fuel
decimal_fuel-IsDigits zero n = tt
decimal_fuel-IsDigits (suc f) n = ground (
  arith,
  IsDigits-append (decimal_fuel f (n / 10)) ((48 + n % 10) ∷ []) (decimal_fuel-IsDigits f (n / 10)),
)

pub decimal-IsDigits : (n : ℕ) → IsDigits (decimal n)
unfolding decimal
decimal-IsDigits n = decimal_fuel-IsDigits (suc n) n

parse_digits-append :
    (acc v : ℕ) (s t : Bytes)
    → parse_digits acc s ≡ some v
    → parse_digits acc (s ++ t) ≡ parse_digits v t
unfolding parse_digits
parse_digits-append acc v [] t h = ground arith
parse_digits-append acc v (c ∷ s) t h =
    ground (arith, parse_digits-append (acc * 10 + (c - 48)) v s t)

parse_digits-decimal_fuel :
    (f n : ℕ) → n < f → n < u64_mod → parse_digits 0 (decimal_fuel f n) ≡ some n
unfolding decimal_fuel parse_digits
parse_digits-decimal_fuel zero n h b = elim h [ ]
parse_digits-decimal_fuel (suc f) n h b = ground (
  arith,
  parse_digits-decimal_fuel f (n / 10),
  parse_digits-append 0 (n / 10) (decimal_fuel f (n / 10)) ((48 + n % 10) ∷ []),
)

pub parse_digits-decimal : (n : ℕ) → n < u64_mod → parse_digits 0 (decimal n) ≡ some n
unfolding decimal
parse_digits-decimal n b = parse_digits-decimal_fuel (suc n) n (omega arith) b

parse_digits-zeros : (k : ℕ) (s : Bytes) → parse_digits 0 (replicate k b'0' ++ s) ≡ parse_digits 0 s
unfolding parse_digits
parse_digits-zeros zero s = refl
parse_digits-zeros (suc k) s = ground (arith, parse_digits-zeros k s)

pub parse_digits-decimal_03 : (n : ℕ) → n < u64_mod → parse_digits 0 (decimal_03 n) ≡ some n
unfolding decimal_03
parse_digits-decimal_03 n b = rw parse_digits-zeros (parse_digits-decimal n b)

-- The padding keeps different numbers apart.
pub decimal_03_injective :
    (m n : ℕ) → m < u64_mod → n < u64_mod → decimal_03 m ≡ decimal_03 n → m ≡ n
decimal_03_injective m n hm hn e = cc (parse_digits-decimal_03 m hm, parse_digits-decimal_03 n hn)

parse_u64_of_digits :
    (s : Bytes) (v : ℕ) → IsDigits s → s ≢ [] → parse_digits 0 s ≡ some v → parse_u64 s ≡ some v
unfolding parse_u64
parse_u64_of_digits [] v d e h = absurd (e refl)
parse_u64_of_digits (c ∷ s) v d e h = ground arith

append-ne-nil : (s : Bytes) (c : ℕ) → s ++ c ∷ [] ≢ []
append-ne-nil [] c e = cc
append-ne-nil (d ∷ s) c e = cc

decimal_fuel-ne-nil : (f n : ℕ) → decimal_fuel (suc f) n ≢ []
unfolding decimal_fuel
decimal_fuel-ne-nil f n = ground (arith, append-ne-nil (decimal_fuel f (n / 10)) (48 + n % 10))

-- `n.to_string().parse::<u64>()` gives back `n`.
pub parse_u64-decimal : (n : ℕ) → n < u64_mod → parse_u64 (decimal n) ≡ some n
unfolding decimal
parse_u64-decimal n b =
    parse_u64_of_digits (decimal n) n (decimal-IsDigits n) (decimal_fuel-ne-nil n n)
      (parse_digits-decimal n b)

-- A separator behind digits is the first one.
pub find_byte-digits : (s t : Bytes) → IsDigits s → find_byte b'_' (s ++ b'_' ∷ t) ≡ some (length s)
unfolding find_byte
find_byte-digits [] t d = refl
find_byte-digits (c ∷ s) t d = ground (arith, find_byte-digits s t d.1)

pub before-digits : (s t : Bytes) → IsDigits s → before b'_' (s ++ b'_' ∷ t) ≡ s
unfolding before
before-digits [] t d = refl
before-digits (c ∷ s) t d = ground (arith, before-digits s t d.1)

pub str_eq_iff_left : (s t : Bytes) → str_eq s t ≡ true → s ≡ t
unfolding str_eq
str_eq_iff_left [] [] h = refl
str_eq_iff_left [] (d ∷ t) h = cc
str_eq_iff_left (c ∷ s) [] h = cc
str_eq_iff_left (c ∷ s) (d ∷ t) h = ground (arith, str_eq_iff_left s t)

pub str_eq_refl : (s : Bytes) → str_eq s s ≡ true
unfolding str_eq
str_eq_refl [] = refl
str_eq_refl (c ∷ s) = ground (arith, str_eq_refl s)
