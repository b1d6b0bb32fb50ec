-- ===== src/Accept/Expected.antt =====
-- Which tunnel connections the server keeps: those from the host of its control channel.
use ttest.Prelude.{
  ℕ, ◌≡◌, refl, Bool, true, false, ◌&&◌, List, [], ◌∷◌, some, if◌then◌else◌, Bytes, arith,
  Bool-cases, inl, inr, text_eq,
}
use ttest.Accept.Tunnels.{Arrival, Tunnels, accept_tunnel, offer_tunnel}

abbrev pub accept_all : ℕ → List Arrival → Tunnels → Tunnels
accept_all channel_size [] t = t
accept_all channel_size (a ∷ arrivals) t =
    accept_all channel_size arrivals (accept_tunnel channel_size a t)

abbrev pub is_from : Bytes → Arrival → Bool
is_from ip a = a.is_tcp && text_eq ip a.ip

abbrev pub from_host : Bytes → List Arrival → List Arrival
from_host ip [] = []
from_host ip (a ∷ arrivals) =
    let rest = from_host ip arrivals in if is_from ip a then a ∷ rest else rest

-- The same but for the connections that were closed.
record SameTunnels (ip : Bytes) (t u : Tunnels) : Type 0 where
  pub first_ip : t.control_ip ≡ some ip
  pub second_ip : u.control_ip ≡ some ip
  pub same_channel : t.tunnel_channel ≡ u.tunnel_channel

offer_tunnel-SameTunnels :
    (channel_size : ℕ) (ip : Bytes) (a : Arrival) (t u : Tunnels)
    → SameTunnels ip t u
    → SameTunnels ip (offer_tunnel channel_size a t) (offer_tunnel channel_size a u)
offer_tunnel-SameTunnels channel_size ip a t u s = record {
  first_ip = ground (arith, s.first_ip);
  second_ip = ground (arith, s.second_ip);
  same_channel = ground (arith, s.same_channel);
}

accepted-SameTunnels :
    (channel_size : ℕ) (ip : Bytes) (a : Arrival) (t u : Tunnels)
    → is_from ip a ≡ true
    → SameTunnels ip t u
    → SameTunnels ip (accept_tunnel channel_size a t) (accept_tunnel channel_size a u)
unfolding accept_tunnel
accepted-SameTunnels channel_size ip a t u f s =
    let o = offer_tunnel-SameTunnels channel_size ip a t u s in
    record {
      first_ip = ground (arith, s.first_ip, o.first_ip);
      second_ip = ground (arith, s.second_ip, o.second_ip);
      same_channel = ground (arith, s.first_ip, s.second_ip, o.same_channel);
    }

dropped-SameTunnels :
    (channel_size : ℕ) (ip : Bytes) (a : Arrival) (t u : Tunnels)
    → is_from ip a ≡ false
    → SameTunnels ip t u
    → SameTunnels ip (accept_tunnel channel_size a t) u
unfolding accept_tunnel
dropped-SameTunnels channel_size ip a t u f s = record {
  first_ip = ground (arith, s.first_ip);
  second_ip = s.second_ip;
  same_channel = ground (arith, s.same_channel, s.first_ip);
}

run-SameTunnels :
    (channel_size : ℕ) (ip : Bytes) (arrivals : List Arrival) (t u : Tunnels)
    → SameTunnels ip t u
    → SameTunnels ip
        (accept_all channel_size arrivals t)
        (accept_all channel_size (from_host ip arrivals) u)
run-SameTunnels channel_size ip [] t u s = s
run-SameTunnels channel_size ip (a ∷ arrivals) t u s = elim (Bool-cases (is_from ip a)) [
  | inl y ↦ rw y (
      run-SameTunnels channel_size ip arrivals _ _ (accepted-SameTunnels channel_size ip a t u y s))
  | inr n ↦
      rw n (
        run-SameTunnels channel_size ip arrivals _ u
          (dropped-SameTunnels channel_size ip a t u n s))
]

-- While the TCP server has a control channel, the tunnel connections that it keeps are those that it would
-- keep if only TCP connections from the host of the control channel arrived: whatever others send in
-- between takes no room and changes nothing.
pub accept_all-from_host :
    (channel_size : ℕ) (ip : Bytes) (arrivals : List Arrival) (t : Tunnels)
    → t.control_ip ≡ some ip
    → (accept_all channel_size arrivals t).tunnel_channel
      ≡ (accept_all channel_size (from_host ip arrivals) t).tunnel_channel
accept_all-from_host channel_size ip arrivals t e =
    let s =
      run-SameTunnels channel_size ip arrivals t t
        (record { first_ip = e; second_ip = e; same_channel = refl }) in
    s.same_channel
