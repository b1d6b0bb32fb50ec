-- ===== src/Sniffer/Tests.antt =====
-- A counter and a file with one port each.
use ttest.Prelude.{ℕ, ◌≡◌, List, [], ◌∷◌, ◌+◌, ◌%◌, ◌^◌, arith}
use ttest.Sniffer.Store.{Usage, stored}
use ttest.Sniffer.Accounting.{
  TrafficEvent, seen, save, account, traffic, seen_at, IsHealthyLog, account-traffic,
}

abbrev usage : Usage
usage = record {
  data_store = record { port = 80; usage = 5 } ∷ [];
  total_traffic = 0;
  log_file = stored (record { port = 443; usage = 7 } ∷ record { port = 80; usage = 2 } ∷ []);
}

usage-IsHealthyLog : IsHealthyLog usage.log_file
usage-IsHealthyLog = ((omega arith, tt), (tt, tt))

abbrev events : List TrafficEvent
events = seen 80 100 ∷ save ∷ seen 443 1 ∷ seen 80 3 ∷ save ∷ []

account-traffic_example :
    traffic 80 (account events usage) % 2 ^ 64 ≡ (seen_at 80 events + traffic 80 usage) % 2 ^ 64
account-traffic_example = account-traffic 80 events usage usage-IsHealthyLog

abbrev size : ℕ
size = 5000
