-- ===== src/Tunnel/Address.antt =====
-- The addresses that a server sends, as the client resolves them.
use ttest.Prelude.{ℕ, ◌≤◌, ◌≡◌, ◌∷◌, ◌++◌, some, Bytes, codes, arith}
use ttest.Prelude.Int.{pos}
use ttest.GoText.Split.{Lacks, split-Lacks, split-append}
use ttest.GoText.Decimal.{atoi, itoa, atoi-itoa, max_int, itoa-digits}
use ttest.Ports.Range.{digits-Lacks}
use ttest.Tunnel.Dialers.{resolve_remote_addr, with_addr}

itoa-Lacks_colon : (p : ℕ) → Lacks b':' (itoa p)
itoa-Lacks_colon p = digits-Lacks b':' (itoa p) (omega arith) (itoa-digits p)

-- A bare port, which is what the server sends for an entry without `=`, is a port of the client's own
-- machine.
pub resolve-itoa :
    (p : ℕ)
    → p ≤ max_int
    → resolve_remote_addr (itoa p) ≡ some (pos p, codes "127.0.0.1:" ++ itoa p)
unfolding resolve_remote_addr
resolve-itoa p h = rw (split-Lacks (itoa p) b':' (itoa-Lacks_colon p), atoi-itoa p h)

-- An address with a host that has no colon is dialled as it is.
pub resolve-host :
    (host : Bytes) (p : ℕ)
    → Lacks b':' host
    → p ≤ max_int
    → resolve_remote_addr (host ++ (b':' ∷ itoa p)) ≡ some (pos p, host ++ (b':' ∷ itoa p))
unfolding resolve_remote_addr
resolve-host host p l h = rw (
  split-append host (itoa p) b':' l,
  split-Lacks (itoa p) b':' (itoa-Lacks_colon p),
  atoi-itoa p h,
)

-- In an address with two colons or more, such as one of IPv6, the text between the first two is taken
-- for the port, and where it is no number the address is refused.
pub resolve-colons :
    (a b rest : Bytes)
    → Lacks b':' a
    → Lacks b':' b
    → resolve_remote_addr (a ++ (b':' ∷ (b ++ (b':' ∷ rest))))
      ≡ with_addr (λ _. a ++ (b':' ∷ (b ++ (b':' ∷ rest)))) (atoi b)
unfolding resolve_remote_addr
resolve-colons a b rest l m =
    rw (split-append a (b ++ (b':' ∷ rest)) b':' l, split-append b rest b':' m)
