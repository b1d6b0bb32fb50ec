-- ===== src/Sniffer/Store.antt =====
-- The counters of `Usage`, their file, and the operations on both. Ports are not negative. The
-- order in which Go walks a map is not specified; here it is the order of insertion.
use ttest.Prelude.{ℕ, ◌+◌, ◌%◌, ◌^◌, List, [], ◌∷◌, ◌==◌, if◌then◌else◌}

pub record PortUsage : Type 0 where
  pub port : ℕ
  pub usage : ℕ  -- uint64

abbrev pub add_u64 : ℕ → ℕ → ℕ
add_u64 a b = (a + b) % 2 ^ 64

-- What `os.Open` and the JSON decoder make of the log file. A file that holds `null` is an empty
-- list.
pub data LogFile : Type 0 where
  missing unreadable malformed : LogFile
  stored : List PortUsage → LogFile

pub record Usage : Type 0 where
  pub data_store : List PortUsage
  pub total_traffic : ℕ
  pub log_file : LogFile

-- Load, add, and store under the port; a new port gets an entry.
unfoldable pub add_usage : PortUsage → List PortUsage → List PortUsage
add_usage u [] = u ∷ []
add_usage u (e ∷ m) =
    if e.port == u.port then record e { usage = add_u64 e.usage u.usage } ∷ m else e ∷ add_usage u m

unfoldable pub add_or_update_port : ℕ → ℕ → Usage → Usage
add_or_update_port p n s = record s {
  data_store = add_usage (record { port = p; usage = n }) s.data_store;
}

-- `usageMap[usage.Port] = usage`
unfoldable pub assign : PortUsage → List PortUsage → List PortUsage
assign u [] = u ∷ []
assign u (e ∷ m) = if e.port == u.port then u ∷ m else e ∷ assign u m

unfoldable pub assign_all : List PortUsage → List PortUsage → List PortUsage
assign_all [] m = m
assign_all (u ∷ us) m = assign_all us (assign u m)

unfoldable pub add_all : List PortUsage → List PortUsage → List PortUsage
add_all [] m = m
add_all (u ∷ us) m = add_all us (add_usage u m)

unfoldable pub total : List PortUsage → ℕ
total [] = 0
total (e ∷ m) = add_u64 e.usage (total m)

-- The current counters, which are removed from the store.
unfoldable pub collect_usage_data : Usage → List PortUsage × Usage
collect_usage_data s = (s.data_store, record s { data_store = [] })

-- What `os.WriteFile` does: an error may leave the file empty or written in part.
pub data LogWrite : Type 0 where
  whole : LogWrite
  failed : LogFile → LogWrite

abbrev pub write_log : LogWrite → List PortUsage → Usage → Usage
write_log whole merged s = record s { log_file = stored merged }
write_log (failed file) merged s = record s { log_file = file }

abbrev pub merge_into : LogWrite → List PortUsage → List PortUsage × Usage → Usage
merge_into writes existing (current, s) =
    let merged = add_all current (assign_all existing []) in
    write_log writes merged (record s { total_traffic = total merged })

-- A file that cannot be opened or decoded ends the function early; a missing one counts as empty.
abbrev pub save_with : LogWrite → LogFile → Usage → Usage
save_with writes missing s = merge_into writes [] (collect_usage_data s)
save_with writes unreadable s = s
save_with writes malformed s = s
save_with writes (stored existing) s = merge_into writes existing (collect_usage_data s)

unfoldable pub save_usage_data : LogWrite → Usage → Usage
save_usage_data writes s = save_with writes s.log_file s
