-- ===== src/Ports/Range.antt =====
-- Entries with a port range.
use ttest.Prelude.{
  ℕ, suc, ◌-◌, ◌≤◌, ◌<◌, ◌≡◌, ◌≢◌, ◌⊎◌, refl, false, [], ◌∷◌, ◌++◌, map, arith, All, All-append,
  Bytes,
}
use ttest.GoText.Split.{
  split, trim_space, Lacks, IsDense, split-Lacks, split-append, contains-append, trim_space-IsDense,
  is_space,
}
use ttest.GoText.Decimal.{itoa, atoi-itoa, itoa-digits, IsDigit}
use ttest.Ports.Parse.{
  ok, parse_mapping, one_sided, two_sided, range_of, both_ends, port_range, colon_port,
}

pub digits-Lacks : (b : ℕ) (s : Bytes) → b < b'0' ⊎ b'9' < b → All IsDigit s → Lacks b s
digits-Lacks b [] h d = tt
digits-Lacks b (c ∷ s) h d = (ground arith, digits-Lacks b s h d.1)

pub digits-IsDense : (s : Bytes) → All IsDigit s → IsDense s
digits-IsDense [] d = tt
digits-IsDense (c ∷ s) d = (ground arith, digits-IsDense s d.1)

pub digits-Lacks_dash : (n : ℕ) → Lacks b'-' (itoa n)
digits-Lacks_dash n = digits-Lacks b'-' (itoa n) (omega arith) (itoa-digits n)

Lacks-append : (b : ℕ) (xs ys : Bytes) → Lacks b xs → Lacks b ys → Lacks b (xs ++ ys)
Lacks-append b = All-append (λ c. c ≢ b)

pub trim_space-itoa : (n : ℕ) → trim_space (itoa n) ≡ itoa n
trim_space-itoa n = trim_space-IsDense (itoa n) (digits-IsDense (itoa n) (itoa-digits n))

both_ends-itoa :
    (lo hi : ℕ) → 1 ≤ lo → lo ≤ hi → hi ≤ 65535 → both_ends (itoa lo) (itoa hi) ≡ ok (lo, hi)
both_ends-itoa lo hi a b c =
    rw
      (
        trim_space-itoa lo,
        trim_space-itoa hi,
        atoi-itoa lo (omega arith),
        atoi-itoa hi (omega arith),
      )
      (ground arith)

-- A port range as the user writes it.
abbrev pub range_text : ℕ → ℕ → Bytes
range_text lo hi = itoa lo ++ (b'-' ∷ itoa hi)

range_of-range_text :
    (lo hi : ℕ)
    → 1 ≤ lo
    → lo ≤ hi
    → hi ≤ 65535
    → range_of (range_text lo hi) (split (range_text lo hi) b'-') ≡ ok (lo, hi)
range_of-range_text lo hi a b c =
    rw
      (
        split-append (itoa lo) (itoa hi) b'-' (digits-Lacks_dash lo),
        split-Lacks (itoa hi) b'-' (digits-Lacks_dash hi),
      )
      (both_ends-itoa lo hi a b c)

range_text-IsDense : (lo hi : ℕ) → IsDense (range_text lo hi)
range_text-IsDense lo hi =
    All-append (λ c. is_space c ≡ false) (itoa lo) _ (digits-IsDense _ (itoa-digits lo))
      (refl, digits-IsDense _ (itoa-digits hi))

range_text-Lacks : (lo hi : ℕ) → Lacks b'=' (range_text lo hi)
range_text-Lacks lo hi =
    Lacks-append b'=' (itoa lo) _ (digits-Lacks b'=' _ (omega arith) (itoa-digits lo))
      (omega arith, digits-Lacks b'=' _ (omega arith) (itoa-digits hi))

-- An entry `lo-hi` with 1 ≤ lo ≤ hi ≤ 65535 starts one listener for each port from lo to hi, in
-- order, and each forwards to the same port number.
pub parse_mapping-range :
    (lo hi : ℕ)
    → 1 ≤ lo
    → lo ≤ hi
    → hi ≤ 65535
    → parse_mapping (range_text lo hi)
      ≡ ok (
          map
            (λ port. record { local_addr = colon_port port; remote_addr = itoa port })
            (port_range lo (suc hi - lo)))
unfolding parse_mapping one_sided
parse_mapping-range lo hi a b c = rw (
  split-Lacks (range_text lo hi) b'=' (range_text-Lacks lo hi),
  trim_space-IsDense (range_text lo hi) (range_text-IsDense lo hi),
  contains-append (itoa lo) (itoa hi) b'-',
  range_of-range_text lo hi a b c,
)

-- An entry `lo-hi=remote` with 1 ≤ lo ≤ hi ≤ 65535, and neither white space nor `=` in `remote`,
-- starts a listener for each port from lo to hi, in order, and all of them forward to `remote`.
parse_mapping-range_to :
    (lo hi : ℕ) (remote : Bytes)
    → 1 ≤ lo
    → lo ≤ hi
    → hi ≤ 65535
    → Lacks b'=' remote
    → IsDense remote
    → parse_mapping (range_text lo hi ++ (b'=' ∷ remote))
      ≡ ok (
          map
            (λ port. record { local_addr = colon_port port; remote_addr = remote })
            (port_range lo (suc hi - lo)))
unfolding parse_mapping two_sided
parse_mapping-range_to lo hi remote a b c l d = rw (
  split-append (range_text lo hi) remote b'=' (range_text-Lacks lo hi),
  split-Lacks remote b'=' l,
  trim_space-IsDense (range_text lo hi) (range_text-IsDense lo hi),
  trim_space-IsDense remote d,
  contains-append (itoa lo) (itoa hi) b'-',
  range_of-range_text lo hi a b c,
)
