-- ===== src/GoText/Split.antt =====
-- `strings.Split` with a separator of one byte, `strings.Contains` of one byte, and
-- `strings.TrimSpace`.
use ttest.Prelude.{
  ℕ, ◌≡◌, ◌≢◌, refl, Bool, true, false, ◌&&◌, ◌||◌, List, [], ◌∷◌, ◌++◌, arith, leb, ◌==◌,
  if◌then◌else◌, All, Bytes,
}

abbrev pub prepend : ℕ → List Bytes → List Bytes
prepend c [] = (c ∷ []) ∷ []
prepend c (p ∷ ps) = (c ∷ p) ∷ ps

unfoldable pub split : Bytes → ℕ → List Bytes
split [] sep = [] ∷ []
split (c ∷ s) sep = let rest = split s sep in if c == sep then [] ∷ rest else prepend c rest

unfoldable pub contains : Bytes → ℕ → Bool
contains [] b = false
contains (c ∷ s) b = c == b || contains s b

-- '\t', '\n', '\v', '\f', '\r' and ' '
abbrev pub is_space : ℕ → Bool
is_space c = (leb 9 c && leb c 13) || c == 32

trim_left : Bytes → Bytes
trim_left [] = []
trim_left (c ∷ s) = let rest = trim_left s in if is_space c then rest else c ∷ s

abbrev drop_space : ℕ → Bytes → Bytes
drop_space c [] = if is_space c then [] else c ∷ []
drop_space c (d ∷ r) = c ∷ d ∷ r

trim_right : Bytes → Bytes
trim_right [] = []
trim_right (c ∷ s) = drop_space c (trim_right s)

-- White space outside ASCII, which strings.TrimSpace removes too, is kept.
unfoldable pub trim_space : Bytes → Bytes
unfolding trim_left trim_right
trim_space s = trim_right (trim_left s)

abbrev pub Lacks : ℕ → Bytes → Type 0
Lacks b = All (λ c. c ≢ b)

abbrev pub IsDense : Bytes → Type 0
IsDense = All (λ c. is_space c ≡ false)

pub split-Lacks : (s : Bytes) (sep : ℕ) → Lacks sep s → split s sep ≡ s ∷ []
unfolding split
split-Lacks [] sep h = refl
split-Lacks (c ∷ s) sep h = ground (arith, split-Lacks s sep h.1)

pub split-append :
    (a b : Bytes) (sep : ℕ) → Lacks sep a → split (a ++ (sep ∷ b)) sep ≡ a ∷ split b sep
unfolding split
split-append [] b sep h = ground arith
split-append (c ∷ a) b sep h = ground (arith, split-append a b sep h.1)

pub contains-Lacks : (s : Bytes) (b : ℕ) → Lacks b s → contains s b ≡ false
unfolding contains
contains-Lacks [] b h = refl
contains-Lacks (c ∷ s) b h = ground (arith, contains-Lacks s b h.1)

pub contains-append : (a s : Bytes) (b : ℕ) → contains (a ++ (b ∷ s)) b ≡ true
unfolding contains
contains-append [] s b = ground arith
contains-append (c ∷ a) s b = ground (arith, contains-append a s b)

trim_left-IsDense : (s : Bytes) → IsDense s → trim_left s ≡ s
unfolding trim_left
trim_left-IsDense [] h = refl
trim_left-IsDense (c ∷ s) h = ground (arith, h.0)

trim_right-IsDense : (s : Bytes) → IsDense s → trim_right s ≡ s
unfolding trim_right
trim_right-IsDense [] h = refl
trim_right-IsDense (c ∷ []) h = ground (arith, h.0)
trim_right-IsDense (c ∷ d ∷ s) h = ground (arith, trim_right-IsDense (d ∷ s) h.1)

pub trim_space-IsDense : (s : Bytes) → IsDense s → trim_space s ≡ s
unfolding trim_space
trim_space-IsDense s h = rw (trim_left-IsDense s h, trim_right-IsDense s h)
