-- ===== src/Tunnel/Backoff.antt =====
-- The loops of TcpDialer and WebSocketDialer: which attempt they return, and how long they wait.
use ttest.Prelude.{
  ◌==◌, false, ℕ, zero, suc, ◌+◌, ◌-◌, ◌*◌, ◌^◌, ◌≤◌, ◌<◌, ◌≡◌, refl, List, [], ◌∷◌, Option, none,
  some, min, subst, arith, ◌⊎◌,
}
use ttest.Tunnel.Dialers.{dial_loop, tcp_dialer, web_socket_dialer, next_backoff, first_backoff}

-- Half a second, doubled after each attempt, up to ten seconds.
abbrev pub pause : ℕ → ℕ
pause i = min (500 * 2 ^ i) 10000

abbrev pub pauses_from : ℕ → ℕ → List ℕ
pauses_from i zero = []
pauses_from i (suc n) = pause i ∷ pauses_from (suc i) n

next_backoff-min : (x : ℕ) → next_backoff (min x 10000) ≡ min (x * 2) 10000
next_backoff-min x = ground arith

next_backoff-pause : (i : ℕ) → next_backoff (pause i) ≡ pause (suc i)
next_backoff-pause i = rw (next_backoff-min (500 * 2 ^ i), two_times i)
  where
    two_times : (i : ℕ) → 500 * 2 ^ i * 2 ≡ 500 * 2 ^ suc i
    two_times i = omega arith

suc_ne_zero : (r : ℕ) → (suc r == 0) ≡ false
suc_ne_zero r = ground arith

module _ {A : Type 0} (attempt : ℕ → Option A) where
  at_first : (i : ℕ) (c : A) → attempt (i + 0) ≡ some c → attempt i ≡ some c
  at_first i c e = subst (λ k. attempt k ≡ some c) (omega arith) e

  -- The first attempt from the one with number `i` that gives a connection is the one returned.
  dial_loop-found :
      (rounds i n : ℕ) (c : A)
      → n ≤ rounds
      → ((j : ℕ) → i ≤ j → j < i + n → attempt j ≡ none)
      → attempt (i + n) ≡ some c
      → dial_loop attempt rounds i (pause i) ≡ record { conn = some c; sleeps = pauses_from i n }
  unfolding dial_loop
  dial_loop-found zero i zero c h f e = rw (at_first i c e)
  dial_loop-found (suc r) i zero c h f e = rw (at_first i c e)
  dial_loop-found zero i (suc n) c h f e = absurd (omega arith)
  dial_loop-found (suc r) i (suc n) c h f e = rw (
    f i (omega arith) (omega arith),
    suc_ne_zero r,
    next_backoff-pause i,
    dial_loop-found r (suc i) n c (omega arith) (λ j l m. f j (omega arith) (omega arith))
        (subst (λ k. attempt k ≡ some c) (omega arith) e),
  )

  dial_loop-fails :
      (rounds i : ℕ)
      → ((j : ℕ) → i ≤ j → j ≤ i + rounds → attempt j ≡ none)
      → dial_loop attempt rounds i (pause i) ≡ record { conn = none; sleeps = pauses_from i rounds }
  unfolding dial_loop
  dial_loop-fails zero i f = rw (f i (omega arith) (omega arith))
  dial_loop-fails (suc r) i f = rw (
    f i (omega arith) (omega arith),
    suc_ne_zero r,
    next_backoff-pause i,
    dial_loop-fails r (suc i) (λ j l m. f j (omega arith) (omega arith)),
  )

  dial_first :
      (rounds k : ℕ) (c : A)
      → k ≤ rounds
      → ((j : ℕ) → j < k → attempt j ≡ none)
      → attempt k ≡ some c
      → dial_loop attempt rounds 0 first_backoff
        ≡ record { conn = some c; sleeps = pauses_from 0 k }
  dial_first rounds k c b f e =
      dial_loop-found rounds 0 k c b (λ j l m. f j (omega arith))
        (subst (λ n. attempt n ≡ some c) (omega arith) e)

  -- TcpDialer and WebSocketDialer return the connection of the first attempt that gives one, if that is
  -- among the first `retry` (a `retry` of 0 counts as 1). Before the attempt with the number k > 0 they
  -- have waited k times, first half a second and each time twice as long, up to ten seconds.
  pub tcp_dialer-found :
      (retry k : ℕ) (c : A)
      → k < retry ⊎ (k ≡ 0)
      → ((j : ℕ) → j < k → attempt j ≡ none)
      → attempt k ≡ some c
      → (tcp_dialer attempt retry ≡ record { conn = some c; sleeps = pauses_from 0 k })
        × (web_socket_dialer attempt retry ≡ tcp_dialer attempt retry)
  unfolding tcp_dialer web_socket_dialer
  tcp_dialer-found zero k c b f e = (dial_first 0 k c (omega arith) f e, refl)
  tcp_dialer-found (suc r) k c b f e = (dial_first r k c (omega arith) f e, refl)

  -- If none of the first `retry` attempts gives a connection (a `retry` of 0 counts as 1), the dialers
  -- give none, after one pause fewer than there were attempts.
  tcp_dialer-fails :
      (retry : ℕ)
      → ((j : ℕ) → j < retry ⊎ (j ≡ 0) → attempt j ≡ none)
      → (tcp_dialer attempt retry ≡ record { conn = none; sleeps = pauses_from 0 (retry - 1) })
        × (web_socket_dialer attempt retry ≡ tcp_dialer attempt retry)
  unfolding tcp_dialer web_socket_dialer
  tcp_dialer-fails zero f = (dial_loop-fails 0 0 (λ j l m. f j (omega arith)), refl)
  tcp_dialer-fails (suc r) f = (
    subst
        (λ n.
          dial_loop attempt r 0 first_backoff ≡ record { conn = none; sleeps = pauses_from 0 n })
        (omega arith) (dial_loop-fails r 0 (λ j l m. f j (omega arith))),
    refl,
  )
