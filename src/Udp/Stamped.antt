-- ===== src/Udp/Stamped.antt =====
-- From the client's socket to the server's, with the time of each packet.
use ttest.Prelude.{
  ℕ, suc, ◌+◌, ◌*◌, ◌/◌, ◌≤◌, ◌<◌, Bool, false, ◌&&◌, ◌||◌, ltb, ◌==◌, List, [], ◌∷◌, ◌++◌, length,
  Bytes,
}
use ttest.Wire.Conn.{Conn}
use ttest.Udp.Frames.{Arrival, arrived, stamped_packet}

-- A datagram with the time at which it is read.
abbrev pub Stamped : Type 0
Stamped = ℕ × Bytes

abbrev pub arrival : Stamped → Arrival
arrival x = arrived x.0 x.1

abbrev pub stamped_frames : List Stamped → Bytes
stamped_frames [] = []
stamped_frames (x ∷ xs) = stamped_packet x.0 x.1 ++ stamped_frames xs

abbrev pub bodies : List Stamped → List Bytes
bodies [] = []
bodies (x ∷ xs) = x.1 ∷ bodies xs

abbrev pub FitsClient : Stamped → Type 0
FitsClient x = length x.1 ≤ 16378

-- The time between two milliseconds is more than three round trips, and they are of the same ten minutes.
abbrev pub is_older : ℕ → ℕ → ℕ → Bool
is_older rtt now t = now / 600000 == t / 600000 && ltb (t + 3 * rtt) now

-- Some packet is older than three round trips when the server reads it, within its ten minutes.
abbrev pub any_late : ℕ → (ℕ → ℕ) → List Stamped → Bool
any_late rtt now [] = false
any_late rtt now (x ∷ xs) = is_older rtt (now 0) x.0 || any_late rtt (λ i. now (suc i)) xs

-- Each packet is read after it is sent, and less than ten minutes after.
abbrev pub InTime : (ℕ → ℕ) → List Stamped → Type 0
InTime now [] = Unit
InTime now (x ∷ xs) = (x.0 ≤ now 0) × (now 0 < x.0 + 600000) × InTime (λ i. now (suc i)) xs
