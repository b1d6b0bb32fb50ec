-- ===== src/GoText/Decimal.antt =====
-- `strconv.Atoi` and `strconv.Itoa` (which `fmt` uses for `%d`). An `int` has 64 bits.
use ttest.Prelude.{
  ℕ, zero, suc, ◌+◌, ◌-◌, ◌*◌, ◌/◌, ◌%◌, ◌^◌, ◌≤◌, ◌<◌, ◌≡◌, ◌≢◌, refl, Bool, ◌&&◌, [], ◌∷◌, Option,
  none, some, arith, leb, ltb, ◌==◌, if◌then◌else◌, length, All, Bytes,
}
use ttest.Prelude.Int.{ℤ, pos, sub_ℕ}

abbrev pub max_int : ℕ
max_int = 2 ^ 63 - 1

abbrev is_digit : ℕ → Bool
is_digit c = leb b'0' c && leb c b'9'

read_digits : Bytes → ℕ → Option ℕ
read_digits [] n = some n
read_digits (c ∷ s) n =
    let rest = read_digits s (n * 10 + (c - b'0')) in if is_digit c then rest else none

read_number : Bytes → Option ℕ
read_number [] = none
read_number (c ∷ s) = read_digits (c ∷ s) 0

abbrev positive : Option ℕ → Option ℤ
positive none = none
positive (some n) = if leb n max_int then some (pos n) else none

abbrev negative : Option ℕ → Option ℤ
negative none = none
negative (some n) = if leb n (max_int + 1) then some (sub_ℕ 0 n) else none

-- A sign is allowed; `none` is a syntax or a range error.
unfoldable pub atoi : Bytes → Option ℤ
unfolding read_digits read_number
atoi [] = none
atoi (c ∷ s) =
    if c == b'-'
    then negative (read_number s)
    else if c == b'+'
    then positive (read_number s)
    else positive (read_number (c ∷ s))

-- Each round takes a digit off, so `n + 1` rounds are enough.
itoa_loop : ℕ → ℕ → Bytes → Bytes
itoa_loop zero n out = out
itoa_loop (suc fuel) n out =
    let rest = itoa_loop fuel (n / 10) ((b'0' + n % 10) ∷ out) in
    if ltb n 10 then (b'0' + n % 10) ∷ out else rest

-- Of a number that is not negative.
unfoldable pub itoa : ℕ → Bytes
unfolding itoa_loop
itoa n = itoa_loop (suc n) n []

abbrev pub IsDigit : ℕ → Type 0
IsDigit c = (b'0' ≤ c) × (c ≤ b'9')

itoa_loop-digits : (fuel n : ℕ) (out : Bytes) → All IsDigit out → All IsDigit (itoa_loop fuel n out)
unfolding itoa_loop
itoa_loop-digits zero n out h = h
itoa_loop-digits (suc fuel) n out h =
    ground (arith, itoa_loop-digits fuel (n / 10) ((b'0' + n % 10) ∷ out))

pub itoa-digits : (n : ℕ) → All IsDigit (itoa n)
unfolding itoa
itoa-digits n = itoa_loop-digits (suc n) n [] tt

length-itoa_loop :
    (fuel n : ℕ) (out : Bytes) → length (itoa_loop fuel n out) ≤ n / 10 + 1 + length out
unfolding itoa_loop
length-itoa_loop zero n out = omega arith
length-itoa_loop (suc fuel) n out =
    ground (arith, length-itoa_loop fuel (n / 10) ((b'0' + n % 10) ∷ out))

pub length-itoa : (n : ℕ) → length (itoa n) ≤ n / 10 + 1
unfolding itoa
length-itoa n = omega (arith, length-itoa_loop (suc n) n [])

itoa_loop-ne-nil : (fuel n : ℕ) (out : Bytes) → out ≢ [] → itoa_loop fuel n out ≢ []
unfolding itoa_loop
itoa_loop-ne-nil zero n out h = h
itoa_loop-ne-nil (suc fuel) n out h =
    ground (arith, itoa_loop-ne-nil fuel (n / 10) ((b'0' + n % 10) ∷ out))

itoa-ne-nil : (n : ℕ) → itoa n ≢ []
unfolding itoa itoa_loop
itoa-ne-nil n = ground (arith, itoa_loop-ne-nil n (n / 10) ((b'0' + n % 10) ∷ []))

read_digits-itoa_loop :
    (fuel n : ℕ) (out : Bytes) → n < fuel → read_digits (itoa_loop fuel n out) 0 ≡ read_digits out n
unfolding read_digits itoa_loop
read_digits-itoa_loop zero n out h = absurd (omega arith)
read_digits-itoa_loop (suc fuel) n out h =
    ground (arith, read_digits-itoa_loop fuel (n / 10) ((b'0' + n % 10) ∷ out))

-- A digit is no sign.
atoi-digits :
    (s : Bytes) (n : ℕ)
    → All IsDigit s
    → s ≢ []
    → read_digits s 0 ≡ some n
    → n ≤ max_int
    → atoi s ≡ some (pos n)
unfolding atoi
atoi-digits [] n d h e l = absurd (h refl)
atoi-digits (c ∷ s) n d h e l = ground arith

-- Every `int` that is not negative is read back from its decimal print.
pub atoi-itoa : (n : ℕ) → n ≤ max_int → atoi (itoa n) ≡ some (pos n)
unfolding itoa read_digits
atoi-itoa n h =
    atoi-digits (itoa n) n (itoa-digits n) (itoa-ne-nil n)
      (read_digits-itoa_loop (suc n) n [] (omega arith)) h
