-- ===== src/Ports/Single.antt =====
-- Entries with a single port, and what every entry without `=` gives.
use ttest.Prelude.{
  ℕ, zero, suc, ◌+◌, ◌-◌, ◌≤◌, ◌≡◌, inl, inr, refl, subst, ◌&&◌, ◌||◌, List, [], ◌∷◌, ◌++◌, Option,
  none, some, arith, leb, ◌==◌, if◌then◌else◌, All, Bytes, Bool-cases,
}
use ttest.Prelude.Int.{ℤ, pos, negsuc}
use ttest.GoText.Split.{
  split, contains, trim_space, Lacks, IsDense, split-Lacks, split-append, contains-Lacks,
  trim_space-IsDense,
}
use ttest.GoText.Decimal.{atoi, itoa, atoi-itoa, itoa-digits, max_int}
use ttest.Ports.Parse.{
  Listen, Parsed, ok, fatal, Fatal, invalid_port, parse_mapping, one_sided, two_sided, range_of,
  port_range, colon_port, valid_port, checked, checked_ends, listens, listens_between, listen_on,
}
use ttest.Ports.Range.{digits-Lacks, trim_space-itoa, digits-Lacks_dash}

itoa-Lacks_eq : (p : ℕ) → Lacks b'=' (itoa p)
itoa-Lacks_eq p = digits-Lacks b'=' (itoa p) (omega arith) (itoa-digits p)

-- An entry that is one decimal number p, at most the largest int, starts one listener on `:p` that
-- forwards to the text p if 1 ≤ p ≤ 65535, and ends the process with `invalid port format` if not.
pub parse_mapping-port :
    (p : ℕ)
    → p ≤ max_int
    → parse_mapping (itoa p) ≡ (
        if leb 1 p && leb p 65535
        then ok (record { local_addr = colon_port p; remote_addr = itoa p } ∷ [])
        else fatal (invalid_port (itoa p)))
unfolding parse_mapping one_sided
parse_mapping-port p h =
    rw
      (
        split-Lacks (itoa p) b'=' (itoa-Lacks_eq p),
        trim_space-itoa p,
        contains-Lacks (itoa p) b'-' (digits-Lacks_dash p),
        atoi-itoa p h,
      )
      (ground arith)

-- An entry `p=remote` with 1 ≤ p ≤ 65535, and neither white space nor `=` in `remote`, starts one
-- listener that forwards to `remote`. Its local address is `:p`, except for p = 1 and p = 65535,
-- where it is the bare number.
pub parse_mapping-port_to :
    (p : ℕ) (remote : Bytes)
    → 1 ≤ p
    → p ≤ 65535
    → Lacks b'=' remote
    → IsDense remote
    → parse_mapping (itoa p ++ (b'=' ∷ remote))
      ≡ ok (
          record {
            local_addr = if p == 1 || p == 65535 then itoa p else colon_port p;
            remote_addr = remote;
          }
          ∷ [])
unfolding parse_mapping two_sided
parse_mapping-port_to p remote a b l d =
    rw
      (
        split-append (itoa p) remote b'=' (itoa-Lacks_eq p),
        split-Lacks remote b'=' l,
        trim_space-itoa p,
        trim_space-IsDense remote d,
        contains-Lacks (itoa p) b'-' (digits-Lacks_dash p),
        atoi-itoa p (omega arith),
      )
      (ground arith)

-- A listener on `:p` for a TCP or UDP port p.
abbrev pub OnPort : Listen → Type 0
OnPort l = (p : ℕ) × (1 ≤ p) × (p ≤ 65535) × (l.local_addr ≡ colon_port p)

listens-OnPort :
    (remote : ℕ → Bytes) (first rounds : ℕ)
    → 1 ≤ first
    → first + rounds ≤ 65536
    → All OnPort (listens remote (port_range first rounds))
listens-OnPort remote first zero a b = tt
listens-OnPort remote first (suc rounds) a b = (
  (first, a, omega arith, refl),
  listens-OnPort remote (suc first) rounds (omega arith) (omega arith),
)

valid_port_bounds : (o : Option ℤ) (p : ℕ) → valid_port o ≡ some p → (1 ≤ p) × (p ≤ 65535)
valid_port_bounds none p h = cc
valid_port_bounds (some (negsuc n)) p h = cc
valid_port_bounds (some (pos n)) p h = ground arith

abbrev InRange : Option ℕ → Type 0
InRange o = (p : ℕ) → o ≡ some p → (1 ≤ p) × (p ≤ 65535)

checked_ends_bounds :
    (o o' : Option ℕ) (e e' : Fatal) (lo hi : ℕ)
    → InRange o
    → InRange o'
    → checked_ends o o' e e' ≡ ok (lo, hi)
    → (1 ≤ lo) × (lo ≤ hi) × (hi ≤ 65535)
checked_ends_bounds none o' e e' lo hi f g h = cc
checked_ends_bounds (some a) none e e' lo hi f g h = cc
checked_ends_bounds (some a) (some b) e e' lo hi f g h = ground (arith, f a refl, g b refl)

abbrev GoodEnds : Parsed (ℕ × ℕ) → Type 0
GoodEnds r = (lo hi : ℕ) → r ≡ ok (lo, hi) → (1 ≤ lo) × (lo ≤ hi) × (hi ≤ 65535)

range_of_bounds : (text : Bytes) (parts : List Bytes) → GoodEnds (range_of text parts)
range_of_bounds text [] lo hi h = cc
range_of_bounds text (x ∷ []) lo hi h = cc
range_of_bounds text (x ∷ y ∷ []) lo hi h =
    checked_ends_bounds _ _ _ _ lo hi (valid_port_bounds (atoi (trim_space x)))
      (valid_port_bounds (atoi (trim_space y))) h
range_of_bounds text (x ∷ y ∷ z ∷ r) lo hi h = cc

ok-injective : {A : Type 0} {a b : A} → ok a ≡ ok b → a ≡ b
ok-injective e = cc

listens_between-OnPort :
    (r : Parsed (ℕ × ℕ)) (remote : ℕ → Bytes) (ls : List Listen)
    → GoodEnds r
    → listens_between remote r ≡ ok ls
    → All OnPort ls
listens_between-OnPort (fatal e) remote ls f h = cc
listens_between-OnPort (ok (lo, hi)) remote ls f h =
    let good = f lo hi refl in
    subst (All OnPort) (ok-injective h)
      (listens-OnPort remote lo (suc hi - lo) (omega arith) (omega arith))

listen_on-OnPort :
    (o : Option ℕ) (text : Bytes) (e : Fatal) (ls : List Listen)
    → InRange o
    → listen_on text (checked o e) ≡ ok ls
    → All OnPort ls
listen_on-OnPort none text e ls f h = cc
listen_on-OnPort (some p) text e ls f h =
    subst (All OnPort) (ok-injective h) ((p, (f p refl).0, (f p refl).1, refl), tt)

one_sided-OnPort : (text : Bytes) (ls : List Listen) → one_sided text ≡ ok ls → All OnPort ls
unfolding one_sided
one_sided-OnPort text ls h = elim (Bool-cases (contains text b'-')) [
  | inl dash ↦
      listens_between-OnPort (range_of text (split text b'-')) itoa ls (range_of_bounds text _)
        (rw dash at h)
  | inr plain ↦
      listen_on-OnPort (valid_port (atoi text)) text _ ls (valid_port_bounds (atoi text))
        (rw plain at h)
]

-- Whatever an entry without `=` holds, if it is accepted then it starts listeners on the ports 1 to
-- 65535 only.
parse_mapping-OnPort :
    (mapping : Bytes) (ls : List Listen)
    → Lacks b'=' mapping
    → parse_mapping mapping ≡ ok ls
    → All OnPort ls
unfolding parse_mapping
parse_mapping-OnPort mapping ls l h =
    one_sided-OnPort (trim_space mapping) ls (rw (split-Lacks mapping b'=' l) at h)
