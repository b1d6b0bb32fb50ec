-- ===== src/Tunnel/Dialers.antt =====
-- `ResolveRemoteAddr`, `TcpDialer` and `WebSocketDialer` of internal/client/transport/shared.go. What
-- an attempt to dial gives is a parameter; times are milliseconds.
use ttest.Prelude.{
  ℕ, zero, suc, ◌*◌, List, [], ◌∷◌, ◌++◌, Option, none, some, ltb, ◌==◌, if◌then◌else◌, Bytes,
  codes,
}
use ttest.Prelude.Int.{ℤ, pos, negsuc}
use ttest.GoText.Split.{split}
use ttest.GoText.Decimal.{atoi, itoa}

-- `%d` of an int
abbrev pub itoa_ℤ : ℤ → Bytes
itoa_ℤ (pos n) = itoa n
itoa_ℤ (negsuc n) = b'-' ∷ itoa (suc n)

abbrev pub local_addr : ℤ → Bytes
local_addr port = codes "127.0.0.1:" ++ itoa_ℤ port

abbrev pub with_addr : (ℤ → Bytes) → Option ℤ → Option (ℤ × Bytes)
with_addr addr none = none
with_addr addr (some port) = some (port, addr port)

-- `parts[0]` if there is no colon, else `parts[1]`
abbrev pub resolve_parts : Bytes → List Bytes → Option (ℤ × Bytes)
resolve_parts remote [] = none
resolve_parts remote (p ∷ []) = with_addr local_addr (atoi p)
resolve_parts remote (p ∷ q ∷ _) = with_addr (λ _. remote) (atoi q)

unfoldable pub resolve_remote_addr : Bytes → Option (ℤ × Bytes)
resolve_remote_addr remote = resolve_parts remote (split remote b':')

-- The connection, if an attempt gave one, and the pauses between the attempts.
pub record Dialed (A : Type 0) : Type 0 where
  pub conn : Option A
  pub sleeps : List ℕ

abbrev pub first_backoff : ℕ
first_backoff = 500

abbrev pub max_backoff : ℕ
max_backoff = 10 * 1000

abbrev pub next_backoff : ℕ → ℕ
next_backoff b = if ltb max_backoff (b * 2) then max_backoff else b * 2

abbrev pub slept : {A : Type 0} → ℕ → Dialed A → Dialed A
slept b d = record d { sleeps = b ∷ d.sleeps }

module _ {A : Type 0} (attempt : ℕ → Option A) where
  abbrev pub after_attempt : ℕ → ℕ → Dialed A → Option A → Dialed A
  after_attempt rounds b rest (some c) = record { conn = some c; sleeps = [] }
  after_attempt rounds b rest none =
      if rounds == 0 then record { conn = none; sleeps = [] } else slept b rest

  -- `rounds` attempts are left after this one.
  unfoldable pub dial_loop : ℕ → ℕ → ℕ → Dialed A
  dial_loop zero i b = after_attempt 0 b (record { conn = none; sleeps = [] }) (attempt i)
  dial_loop (suc rounds) i b =
      after_attempt (suc rounds) b (dial_loop rounds (suc i) (next_backoff b)) (attempt i)

  abbrev pub rounds_after_first : ℕ → ℕ
  rounds_after_first zero = 0
  rounds_after_first (suc n) = n

  -- A `retry` below 1 counts as 1.
  unfoldable pub tcp_dialer : ℕ → Dialed A
  tcp_dialer retry = dial_loop (rounds_after_first retry) 0 first_backoff

  unfoldable pub web_socket_dialer : ℕ → Dialed A
  web_socket_dialer retry = dial_loop (rounds_after_first retry) 0 first_backoff
