-- ===== src/Ports/Tests.antt =====
-- Small entries.
use ttest.Prelude.{
  ◌≡◌, refl, List, [], ◌∷◌, ◌++◌, map, none, Bytes, codes, arith, ◌-◌, if◌then◌else◌, ◌||◌, ◌==◌,
}
use ttest.GoText.Split.{Lacks, IsDense, split, contains, trim_space}
use ttest.GoText.Decimal.{atoi, itoa}
use ttest.Ports.Parse.{
  Listen, ok, fatal, invalid_range_format, parse_mapping, parse_port_mappings, port_range,
  colon_port, one_sided,
}
use ttest.Ports.Range.{range_text, parse_mapping-range}
use ttest.Ports.Single.{parse_mapping-port_to}
use ttest.Ports.Transports.{local_listener}

parse_mapping-range_example :
    parse_mapping (range_text 443 445)
    ≡ ok (
        map
          (λ port. record { local_addr = colon_port port; remote_addr = itoa port })
          (port_range 443 (446 - 443)))
parse_mapping-range_example = parse_mapping-range 443 445 (omega arith) (omega arith) (omega arith)

abbrev remote : Bytes
remote = codes "1.1.1.1:5201"

remote-Lacks : Lacks b'=' remote × IsDense remote
remote-Lacks = (ground arith, ground arith)

parse_mapping-port_to_example :
    parse_mapping (itoa 443 ++ (b'=' ∷ remote))
    ≡ ok (
        record {
          local_addr = if 443 == 1 || 443 == 65535 then itoa 443 else colon_port 443;
          remote_addr = remote;
        }
        ∷ [])
parse_mapping-port_to_example =
    parse_mapping-port_to 443 remote (omega arith) (omega arith) remote-Lacks.0 remote-Lacks.1

abbrev on_80 : List Listen
on_80 = record { local_addr = codes ":80"; remote_addr = codes "80" } ∷ []

port_80 : parse_mapping (codes " 80 ") ≡ ok on_80
unfolding parse_mapping one_sided split contains trim_space atoi itoa
port_80 = refl

abbrev first_ports : List Bytes
first_ports = codes " 80 " ∷ []

abbrev bad_port : Bytes
bad_port = codes "1-2-3"

first_ports-accepted : (parse_port_mappings local_listener first_ports).died ≡ none
unfolding parse_port_mappings
first_ports-accepted = rw port_80

bad_port-fatal : parse_mapping bad_port ≡ fatal (invalid_range_format bad_port)
unfolding parse_mapping one_sided split contains trim_space
bad_port-fatal = refl
