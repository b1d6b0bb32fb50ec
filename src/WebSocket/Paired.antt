-- ===== src/WebSocket/Paired.antt =====
-- What a tunnel connection of the websocket server has been sent when it is paired, and what the client
-- makes of it.
use ttest.Prelude.{
  ℕ, zero, suc, ◌+◌, ◌≡◌, refl, ap, subst, ◌∙◌, Bool, true, false, List, [], ◌∷◌, ◌++◌, map, Option,
  none, some, ltb, length, Bytes, text_eq, All, All-append, if_either, if_true, if_false,
}
use mathlib.Core.Option.{some-injective}
use ttest.Wire.Signals.{sg_ping}
use ttest.Mux.Sessions.{LocalConn}
use ttest.Pool.Maintainer.{dialed, claimed}
use ttest.Tunnel.Dialers.{resolve_remote_addr}
use ttest.Tunnel.Client.{ws_message, ws_reads, ws_resolved}
use ttest.WebSocket.Pairing.{
  WsTunnel, WsPairing, WsEvent, local_accepted, tunnel_accepted, local_picked, held_checked,
  tunnel_picked, heartbeat, request_taken, split_at, ping_at, pick_ws_local, check_held, pair_up,
  ws_step, ws_run, ws_start,
}

abbrev pub pings : ℕ → List Bytes
pings zero = []
pings (suc n) = (sg_ping ∷ []) ∷ pings n

pings_snoc : (n : ℕ) → pings n ++ ((sg_ping ∷ []) ∷ []) ≡ pings (suc n)
pings_snoc zero = refl
pings_snoc (suc n) = ap (λ l. (sg_ping ∷ []) ∷ l) (pings_snoc n)

-- A tunnel connection that waits has had pings only.
abbrev OnlyPings : WsTunnel → Type 0
OnlyPings t = (n : ℕ) × (t.messages ≡ pings n)

-- After its pings one that is served has had the address of its local connection.
abbrev pub GotAddress : LocalConn × WsTunnel → Type 0
GotAddress (c, t) = (n : ℕ) × (t.messages ≡ pings n ++ (c.remote_addr ∷ []))

pub record IsPaired (s : WsPairing) : Type 0 where
  pub only_pings : All OnlyPings s.tunnel_channel
  pub got_address : All GotAddress s.served

ping_at-OnlyPings :
    (n : ℕ) (ok : Bool) (ts : List WsTunnel) → All OnlyPings ts → All OnlyPings (ping_at n ok ts)
ping_at-OnlyPings n ok [] a = tt
ping_at-OnlyPings (suc n) ok (t ∷ ts) a = (a.0, ping_at-OnlyPings n ok ts a.1)
ping_at-OnlyPings zero false (t ∷ ts) a = a
ping_at-OnlyPings zero true (t ∷ ts) ((k, e), a) = (
  if_either OnlyPings t.pinged _ _
      (λ y. (suc k, ap (λ l. l ++ ((sg_ping ∷ []) ∷ [])) e ∙ pings_snoc k)) (λ z. (k, e)),
  a,
)

module _ (channel_size handlers : ℕ) where
  pair_up-IsPaired :
      (ok : Bool) (o : Option (LocalConn × List LocalConn)) (ts : List WsTunnel) (s : WsPairing)
      → s.tunnel_channel ≡ ts
      → IsPaired s
      → IsPaired (pair_up channel_size handlers ok o ts s)
  pair_up-IsPaired ok none ts s e p = p
  pair_up-IsPaired ok (some x) [] s e p = p
  pair_up-IsPaired false (some x) (t ∷ ts) s e p =
      let q : All OnlyPings (t ∷ ts) = subst (All OnlyPings) e p.only_pings in
      record { only_pings = q.1; got_address = p.got_address }
  pair_up-IsPaired true (some (c, rest)) (t ∷ ts) s e p =
      let q : All OnlyPings (t ∷ ts) = subst (All OnlyPings) e p.only_pings in
      record {
        only_pings = q.1;
        got_address = ((q.0.0, ap (λ l. l ++ (c.remote_addr ∷ [])) q.0.1), p.got_address);
      }

  pick_ws_local-IsPaired :
      (cs : List LocalConn) (s : WsPairing)
      → IsPaired s
      → IsPaired (pick_ws_local channel_size handlers cs s)
  pick_ws_local-IsPaired [] s p = p
  pick_ws_local-IsPaired (c ∷ cs) s p =
      if_either IsPaired (ltb (length s.holding) handlers) _ _
        (λ y. record { only_pings = p.only_pings; got_address = p.got_address }) (λ z. p)

  check_held-IsPaired :
      (now : ℕ) (o : Option (LocalConn × List LocalConn)) (s : WsPairing)
      → IsPaired s
      → IsPaired (check_held channel_size handlers now o s)
  check_held-IsPaired now none s p = p
  check_held-IsPaired now (some (c, rest)) s p =
      if_either IsPaired (ltb (c.time_created + 3000) now) _ _
        (λ y. record { only_pings = p.only_pings; got_address = p.got_address }) (λ z. p)

  step-IsPaired :
      (e : WsEvent) (s : WsPairing) → IsPaired s → IsPaired (ws_step channel_size handlers e s)
  unfolding ws_step
  step-IsPaired (local_accepted addr now) s p =
      if_either IsPaired (ltb (length s.local_channel) channel_size) _ _
        (λ y. record { only_pings = p.only_pings; got_address = p.got_address })
        (λ z. record { only_pings = p.only_pings; got_address = p.got_address })
  step-IsPaired (tunnel_accepted id) s p =
      if_either IsPaired (ltb (length s.tunnel_channel) channel_size) _ _
        (λ y. record {
          only_pings = All-append OnlyPings s.tunnel_channel _ p.only_pings ((0, refl), tt);
          got_address = p.got_address;
        })
        (λ z. record { only_pings = p.only_pings; got_address = p.got_address })
  step-IsPaired local_picked s p = pick_ws_local-IsPaired s.local_channel s p
  step-IsPaired (held_checked n now) s p = check_held-IsPaired now (split_at n s.holding) s p
  step-IsPaired (tunnel_picked n ok) s p =
      pair_up-IsPaired ok (split_at n s.holding) s.tunnel_channel s refl p
  step-IsPaired (heartbeat n ok) s p = record {
    only_pings = ping_at-OnlyPings n ok s.tunnel_channel p.only_pings;
    got_address = p.got_address;
  }
  step-IsPaired request_taken s p = record {
    only_pings = p.only_pings;
    got_address = p.got_address;
  }

  run-IsPaired :
      (es : List WsEvent) (s : WsPairing)
      → IsPaired s
      → IsPaired (ws_run channel_size handlers es s)
  unfolding ws_run
  run-IsPaired [] s p = p
  run-IsPaired (e ∷ es) s p = run-IsPaired es _ (step-IsPaired e s p)

  start-IsPaired : IsPaired ws_start
  unfolding ws_start
  start-IsPaired = record { only_pings = tt; got_address = tt }

-- The element of `served` at a place.
abbrev pub served_at : List (LocalConn × WsTunnel) → ℕ → Option (LocalConn × WsTunnel)
served_at [] i = none
served_at (x ∷ xs) zero = some x
served_at (x ∷ xs) (suc i) = served_at xs i

served_at-All :
    (xs : List (LocalConn × WsTunnel)) (i : ℕ) (x : LocalConn × WsTunnel)
    → served_at xs i ≡ some x
    → All GotAddress xs
    → GotAddress x
served_at-All [] i x h a = cc
served_at-All (y ∷ xs) zero x h a = subst GotAddress (some-injective _ _ h) a.0
served_at-All (y ∷ xs) (suc i) x h a = served_at-All xs i x h a.1

ping-text_eq : text_eq (sg_ping ∷ []) (sg_ping ∷ []) ≡ true
unfolding text_eq
ping-text_eq = refl

module _ {L T : Type 0} (local : Bytes → ℕ → Option L) (tunnel : T) where
  -- The client skips the pings.
  ws_reads-pings :
      (n : ℕ) (addr : Bytes)
      → text_eq addr (sg_ping ∷ []) ≡ false
      → ws_reads local tunnel (map ws_message (pings n ++ (addr ∷ [])))
        ≡ some (record {
          end = ws_resolved local tunnel (resolve_remote_addr addr);
          counted = dialed ∷ claimed ∷ [];
        })
  unfolding ws_reads
  ws_reads-pings zero addr h = if_false _ _ h
  ws_reads-pings (suc n) addr h = if_true _ _ ping-text_eq ∙ ws_reads-pings n addr h

  -- A websocket tunnel connection that the server has given to a local connection, after any run from the
  -- start, with any pings before: the client that reads what the server has sent it skips the pings and
  -- resolves the address of that local connection's listener, and the pool counts the tunnel connection in
  -- and out. The address is not the text of a ping.
  pub ws_run-ws_reads :
      (channel_size handlers : ℕ) (es : List WsEvent) (i : ℕ) (c : LocalConn) (t : WsTunnel)
      → served_at (ws_run channel_size handlers es ws_start).served i ≡ some (c, t)
      → text_eq c.remote_addr (sg_ping ∷ []) ≡ false
      → ws_reads local tunnel (map ws_message t.messages)
        ≡ some (record {
          end = ws_resolved local tunnel (resolve_remote_addr c.remote_addr);
          counted = dialed ∷ claimed ∷ [];
        })
  ws_run-ws_reads channel_size handlers es i c t h no_ping =
      let p =
        run-IsPaired channel_size handlers es ws_start (start-IsPaired channel_size handlers) in
      let (n, e) =
        served_at-All (ws_run channel_size handlers es ws_start).served i (c, t) h p.got_address in
      ap (λ ms. ws_reads local tunnel (map ws_message ms)) e
      ∙ ws_reads-pings n c.remote_addr no_ping
