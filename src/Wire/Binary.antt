-- ===== src/Wire/Binary.antt =====
-- internal/utils/binary.go: messages with a length prefix, ports and single bytes.
use ttest.Prelude.{ℕ, ◌+◌, ◌*◌, ◌/◌, ◌%◌, [], ◌∷◌, ◌++◌, Option, none, some, length, Bytes}
use ttest.Wire.Conn.{
  Conn, ConnKind, net_conn, quic_stream, other_kind, Error, unsupported_type, read_length_failed,
  read_message_failed, Outcome, done, fail, ◌>>=◌, return, write, read_full,
}

-- `binary.BigEndian.PutUint16(buf, uint16(n))`
abbrev pub put_uint16 : ℕ → Bytes
put_uint16 n = n / 256 % 256 ∷ n % 256 ∷ []

-- `binary.BigEndian.Uint16` of a buffer of two bytes
abbrev pub uint16 : Bytes → ℕ
uint16 (hi ∷ lo ∷ _) = hi * 256 + lo
uint16 _ = 0

-- `lenBuf[2]`
abbrev pub third : Bytes → ℕ
third (_ ∷ _ ∷ t ∷ _) = t
third _ = 0

-- The type switch: both supported cases run the same call.
abbrev pub switch : {A : Type 0} → (Conn → Outcome A) → ConnKind → Conn → Outcome A
switch op net_conn c = op c
switch op quic_stream c = op c
switch op other_kind c = fail unsupported_type c

abbrev pub switched : {A : Type 0} → (Conn → Outcome A) → Conn → Outcome A
switched op c = switch op c.kind c

unfoldable pub send_binary_string : Bytes → Conn → Outcome (Unit {0})
send_binary_string message = switched (write (put_uint16 (length message) ++ message))

unfoldable pub receive_binary_string : Conn → Outcome Bytes
receive_binary_string = do
  len_buf ← switched (read_full read_length_failed 2)
  switched (read_full read_message_failed (uint16 len_buf))

unfoldable pub send_binary_transport_string : Bytes → ℕ → Conn → Outcome (Unit {0})
send_binary_transport_string message transport =
    switched (write (put_uint16 (length message) ++ (transport ∷ message)))

unfoldable pub receive_binary_transport_string : Conn → Outcome (Bytes × ℕ)
receive_binary_transport_string = do
  len_buf ← switched (read_full read_length_failed 3)
  message ← switched (read_full read_message_failed (uint16 len_buf))
  return (message, third len_buf)

unfoldable pub send_binary_int : ℕ → Conn → Outcome (Unit {0})
send_binary_int port = write (put_uint16 port)

unfoldable pub receive_binary_int : Conn → Outcome ℕ
receive_binary_int = do buf ← read_full read_message_failed 2; return (uint16 buf)

unfoldable pub send_binary_byte : ℕ → Conn → Outcome (Unit {0})
send_binary_byte message = switched (write (message ∷ []))

abbrev pub first : Bytes → ℕ
first (b ∷ _) = b
first [] = 0

unfoldable pub receive_binary_byte : Conn → Outcome ℕ
receive_binary_byte = do buf ← switched (read_full read_message_failed 1); return (first buf)

-- Go returns the zero values beside an error.
abbrev pub go_values : Outcome (Bytes × ℕ) → Bytes × ℕ × Option Error × Conn
go_values (done (message, transport) c) = (message, transport, none, c)
go_values (fail e c) = ([], 0, some e, c)
