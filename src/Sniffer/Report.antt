-- ===== src/Sniffer/Report.antt =====
-- What the web page shows: the file's entries in the order of their ports, with readable sizes.
use ttest.Prelude.{
  ℕ, ◌*◌, ◌^◌, ◌≤◌, ◌<◌, ◌≡◌, ◌⊎◌, Bool, true, false, List, [], ◌∷◌, ◌++◌, arith, leb, ◌==◌,
  if◌then◌else◌, Bytes, codes,
}
use ttest.GoText.Decimal.{itoa}
use ttest.Sniffer.Store.{PortUsage, LogFile, missing, unreadable, malformed, stored, Usage}

-- `sort.Slice` by port. The file has each port once, so every way of sorting gives the same list.
abbrev pub insert_port : PortUsage → List PortUsage → List PortUsage
insert_port u [] = u ∷ []
insert_port u (e ∷ m) = if leb u.port e.port then u ∷ e ∷ m else e ∷ insert_port u m

abbrev pub sort_ports : List PortUsage → List PortUsage
sort_ports [] = []
sort_ports (u ∷ us) = insert_port u (sort_ports us)

-- A missing file is created, holding `null`; `creates` says whether that succeeds.
abbrev pub created : Bool → Usage → Usage
created true s = record s { log_file = stored [] }
created false s = s

abbrev pub read_log : Bool → LogFile → Usage → List PortUsage × Usage
read_log creates missing s = ([], created creates s)
read_log creates unreadable s = ([], s)
read_log creates malformed s = ([], s)
read_log creates (stored us) s = (sort_ports us, s)

unfoldable pub get_usage_from_file : Bool → Usage → List PortUsage × Usage
get_usage_from_file creates s = read_log creates s.log_file s

abbrev pub kb : ℕ
kb = 2 ^ 10

abbrev pub mb : ℕ
mb = 2 ^ 20

abbrev pub gb : ℕ
gb = 2 ^ 30

abbrev pub tb : ℕ
tb = 2 ^ 40

-- The unit of a size, as a number of bytes; 1 for plain bytes.
unfoldable pub unit_of : ℕ → ℕ
unit_of bytes =
    if leb tb bytes
    then tb
    else if leb gb bytes
    then gb
    else if leb mb bytes
    then mb
    else if leb kb bytes
    then kb
    else 1

abbrev pub unit_name : ℕ → Bytes
unit_name unit =
    if unit == tb
    then codes " TB"
    else if unit == gb
    then codes " GB"
    else if unit == mb
    then codes " MB"
    else codes " KB"

-- `ratio a b` is `fmt.Sprintf("%.2f", float64(a)/float64(b))`.
module _ (ratio : ℕ → ℕ → Bytes) where
  unfoldable pub convert_bytes_to_readable : ℕ → Bytes
  unfolding unit_of
  convert_bytes_to_readable bytes =
      if unit_of bytes == 1
      then itoa bytes ++ codes " B"
      else ratio bytes (unit_of bytes) ++ unit_name (unit_of bytes)

  pub record ReadableUsage : Type 0 where
    pub port : ℕ
    pub readable_usage : Bytes

  unfoldable pub usage_data_with_readable_usage : List PortUsage → List ReadableUsage
  usage_data_with_readable_usage [] = []
  usage_data_with_readable_usage (u ∷ us) =
      record { port = u.port; readable_usage = convert_bytes_to_readable u.usage }
      ∷ usage_data_with_readable_usage us

-- The number before the unit is at least 1 and, below a terabyte's unit, less than 1024; a size of
-- zero is shown in bytes.
unit_of_bounds :
    (bytes : ℕ)
    → (unit_of bytes ≤ bytes ⊎ bytes ≡ 0) × (unit_of bytes ≡ tb ⊎ bytes < 1024 * unit_of bytes)
unfolding unit_of
unit_of_bounds bytes = ground arith
