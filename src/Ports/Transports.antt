-- ===== src/Ports/Transports.antt =====
-- What each server transport starts for an entry of `ports`.
use ttest.Prelude.{
  ◌≡◌, refl, Bool, true, List, [], ◌∷◌, ◌++◌, none, some, if◌then◌else◌, Bytes, append_assoc,
  append-nil,
}
use ttest.Ports.Parse.{
  Listen, Parsed, ok, fatal, Fatal, Started, parse_port_mappings, parse_mapping, start_all,
  after_mapping,
}

-- A goroutine: `localListener` or `udpListener` with its addresses.
pub data Task : Type 0 where
  tcp_listener udp_listener : Listen → Task

-- tcp.go: `startListeners`
abbrev pub start_listeners : Bool → Listen → List Task
start_listeners accept_udp l = tcp_listener l ∷ (if accept_udp then udp_listener l ∷ [] else [])

unfoldable pub tcp_port_mappings : Bool → List Bytes → Started Task
tcp_port_mappings accept_udp = parse_port_mappings (start_listeners accept_udp)

abbrev pub local_listener : Listen → List Task
local_listener l = tcp_listener l ∷ []

unfoldable pub tcpmux_port_mappings : List Bytes → Started Task
tcpmux_port_mappings = parse_port_mappings local_listener

unfoldable pub ws_port_mappings : List Bytes → Started Task
ws_port_mappings = parse_port_mappings local_listener

unfoldable pub wsmux_port_mappings : List Bytes → Started Task
wsmux_port_mappings = parse_port_mappings local_listener

-- udp.go: its `localListener` listens on UDP
unfoldable pub udp_port_mappings : List Bytes → Started Task
udp_port_mappings = parse_port_mappings (λ l. udp_listener l ∷ [])

module _ {T : Type 0} (start : Listen → List T) where
  after_mapping-append :
      (r : Parsed (List Listen)) (xs ys xys : Started T)
      → (xs.died ≡ none → xys ≡ record { tasks = xs.tasks ++ ys.tasks; died = ys.died })
      → (after_mapping start r xs).died ≡ none
      → after_mapping start r xys
        ≡ record { tasks = (after_mapping start r xs).tasks ++ ys.tasks; died = ys.died }
  after_mapping-append (ok ls) xs ys xys ih e = rw (ih e, append_assoc)
  after_mapping-append (fatal f) xs ys xys ih e = cc

  -- If all of the first entries are accepted, their goroutines are started in order, and then the
  -- later entries start what they would start alone.
  parse_port_mappings-append :
      (xs ys : List Bytes)
      → (parse_port_mappings start xs).died ≡ none
      → parse_port_mappings start (xs ++ ys) ≡ record {
        tasks = (parse_port_mappings start xs).tasks ++ (parse_port_mappings start ys).tasks;
        died = (parse_port_mappings start ys).died;
      }
  unfolding parse_port_mappings
  parse_port_mappings-append [] ys h = refl
  parse_port_mappings-append (m ∷ xs) ys h =
      after_mapping-append (parse_mapping m) (parse_port_mappings start xs)
        (parse_port_mappings start ys) (parse_port_mappings start (xs ++ ys))
        (parse_port_mappings-append xs ys) h

  -- The first entry that is refused ends the process: the goroutines of the entries before it have
  -- been started, its message is the last, and no later entry has any effect.
  parse_port_mappings-fatal :
      (xs ys : List Bytes) (m : Bytes) {e : Fatal}
      → (parse_port_mappings start xs).died ≡ none
      → parse_mapping m ≡ fatal e
      → parse_port_mappings start (xs ++ (m ∷ ys))
        ≡ record { tasks = (parse_port_mappings start xs).tasks; died = some e }
  parse_port_mappings-fatal xs ys m {e} h f =
      rw (parse_port_mappings-append xs (m ∷ ys) h)
        (unfold parse_port_mappings in rw (f, append-nil))

-- Every TCP listener, followed by a UDP listener of the same addresses.
abbrev pub with_udp : List Task → List Task
with_udp [] = []
with_udp (tcp_listener l ∷ ts) = tcp_listener l ∷ udp_listener l ∷ with_udp ts
with_udp (udp_listener l ∷ ts) = udp_listener l ∷ with_udp ts

with_udp-append :
    (ls : List Listen) (ts : List Task)
    → with_udp (start_all local_listener ls ++ ts)
      ≡ start_all (start_listeners true) ls ++ with_udp ts
with_udp-append [] ts = refl
with_udp-append (l ∷ ls) ts = rw (with_udp-append ls ts)

after_mapping-with_udp :
    (r : Parsed (List Listen)) (a b : Started Task)
    → b ≡ record { tasks = with_udp a.tasks; died = a.died }
    → after_mapping (start_listeners true) r b ≡ record {
      tasks = with_udp (after_mapping local_listener r a).tasks;
      died = (after_mapping local_listener r a).died;
    }
after_mapping-with_udp (ok ls) a b e = rw (e, with_udp-append ls a.tasks)
after_mapping-with_udp (fatal f) a b e = refl

-- With `accept_udp` the TCP server starts what the TCPMux server starts for the same entries, and
-- behind each TCP listener a UDP listener of the same addresses; the process ends at the same entry.
tcp_port_mappings-udp :
    (ports : List Bytes)
    → tcp_port_mappings true ports ≡ record {
      tasks = with_udp (tcpmux_port_mappings ports).tasks;
      died = (tcpmux_port_mappings ports).died;
    }
unfolding tcp_port_mappings tcpmux_port_mappings parse_port_mappings
tcp_port_mappings-udp [] = refl
tcp_port_mappings-udp (m ∷ ms) =
    after_mapping-with_udp (parse_mapping m) _ _ (tcp_port_mappings-udp ms)
