-- ===== src/Ports/Parse.antt =====
-- One entry of `ports`, and the loop over the entries.
use ttest.Prelude.{
  ℕ, zero, suc, ◌-◌, ◌&&◌, List, [], ◌∷◌, ◌++◌, map, Option, none, some, ltb, leb, if◌then◌else◌,
  Bytes,
}
use ttest.Prelude.Int.{ℤ, pos}
use ttest.GoText.Split.{split, contains, trim_space}
use ttest.GoText.Decimal.{atoi, itoa}

-- The messages of `Fatalf`, each with the text that it prints.
pub data Fatal : Type 0 where
  invalid_range_format invalid_start_port invalid_end_port invalid_port invalid_mapping :
      Bytes → Fatal

pub data Parsed (A : Type 0) : Type 0 where
  ok : A → Parsed A
  fatal : Fatal → Parsed A

infixl 5 ◌>>=◌
abbrev pub ◌>>=◌ : {A B : Type 0} → Parsed A → (A → Parsed B) → Parsed B
ok a >>= f = f a
fatal e >>= f = fatal e

-- The arguments of `localListener`.
pub record Listen : Type 0 where
  pub local_addr : Bytes
  pub remote_addr : Bytes

-- `err != nil || port < 1 || port > 65535` is false.
abbrev pub valid_port : Option ℤ → Option ℕ
valid_port (some (pos n)) = if leb 1 n && leb n 65535 then some n else none
valid_port _ = none

abbrev pub checked : Option ℕ → Fatal → Parsed ℕ
checked (some n) e = ok n
checked none e = fatal e

-- `fmt.Sprintf(":%d", port)`
abbrev pub colon_port : ℕ → Bytes
colon_port port = b':' ∷ itoa port

-- `for port := startPort; port <= endPort; port++`, with the rounds left
abbrev pub port_range : ℕ → ℕ → List ℕ
port_range first zero = []
port_range first (suc rounds) = first ∷ port_range (suc first) rounds

-- The ends of a range as `Atoi` reads them, with the messages for a bad start and a bad end.
abbrev pub checked_ends : Option ℕ → Option ℕ → Fatal → Fatal → Parsed (ℕ × ℕ)
checked_ends first second bad_start bad_end = do
  start_port ← checked first bad_start
  end_port ← checked second bad_end
  if ltb end_port start_port then fatal bad_end else ok (start_port, end_port)

abbrev pub both_ends : Bytes → Bytes → Parsed (ℕ × ℕ)
both_ends first second =
    checked_ends (valid_port (atoi (trim_space first))) (valid_port (atoi (trim_space second)))
      (invalid_start_port first) (invalid_end_port second)

abbrev pub range_of : Bytes → List Bytes → Parsed (ℕ × ℕ)
range_of text (first ∷ second ∷ []) = both_ends first second
range_of text _ = fatal (invalid_range_format text)

abbrev pub ports_between : ℕ × ℕ → List ℕ
ports_between (start_port, end_port) = port_range start_port (suc end_port - start_port)

-- One listener for each port, with the remote address of that port.
abbrev pub listens : (ℕ → Bytes) → List ℕ → List Listen
listens remote = map (λ port. record { local_addr = colon_port port; remote_addr = remote port })

abbrev pub listens_between : (ℕ → Bytes) → Parsed (ℕ × ℕ) → Parsed (List Listen)
listens_between remote ends = ends >>= λ e. ok (listens remote (ports_between e))

abbrev pub range_listens : Bytes → (ℕ → Bytes) → Parsed (List Listen)
range_listens text remote = listens_between remote (range_of text (split text b'-'))

abbrev pub listen_on : Bytes → Parsed ℕ → Parsed (List Listen)
listen_on text port =
    port >>= λ p. ok (record { local_addr = colon_port p; remote_addr = text } ∷ [])

abbrev pub single_listen : Bytes → Parsed (List Listen)
single_listen text = listen_on text (checked (valid_port (atoi text)) (invalid_port text))

-- `len(parts) == 1`
unfoldable pub one_sided : Bytes → Parsed (List Listen)
one_sided text = if contains text b'-' then range_listens text itoa else single_listen text

-- `err == nil && port > 1 && port < 65535`; any other text is taken as an address
abbrev pub single_local : Option ℤ → Bytes → Bytes
single_local (some (pos port)) text = if ltb 1 port && ltb port 65535 then colon_port port else text
single_local _ text = text

-- `len(parts) == 2`
unfoldable pub two_sided : Bytes → Bytes → Parsed (List Listen)
two_sided text remote =
    if contains text b'-'
    then range_listens text (λ port. remote)
    else ok (record { local_addr = single_local (atoi text) text; remote_addr = remote } ∷ [])

abbrev pub by_parts : Bytes → List Bytes → Parsed (List Listen)
by_parts mapping (local_text ∷ []) = one_sided (trim_space local_text)
by_parts mapping (local_text ∷ remote ∷ []) = two_sided (trim_space local_text) (trim_space remote)
by_parts mapping _ = fatal (invalid_mapping mapping)

unfoldable pub parse_mapping : Bytes → Parsed (List Listen)
parse_mapping mapping = by_parts mapping (split mapping b'=')

-- What a server has started, and the message with which it died if it did.
pub record Started (Task : Type 0) : Type 0 where
  pub tasks : List Task
  pub died : Option Fatal

abbrev pub then_start : {Task : Type 0} → List Task → Started Task → Started Task
then_start ts s = record { tasks = ts ++ s.tasks; died = s.died }

module _ {Task : Type 0} (start : Listen → List Task) where
  abbrev pub start_all : List Listen → List Task
  start_all [] = []
  start_all (l ∷ ls) = start l ++ start_all ls

  abbrev pub after_mapping : Parsed (List Listen) → Started Task → Started Task
  after_mapping (ok ls) rest = then_start (start_all ls) rest
  after_mapping (fatal e) rest = record { tasks = []; died = some e }

  unfoldable pub parse_port_mappings : List Bytes → Started Task
  parse_port_mappings [] = record { tasks = []; died = none }
  parse_port_mappings (mapping ∷ rest) =
      after_mapping (parse_mapping mapping) (parse_port_mappings rest)
