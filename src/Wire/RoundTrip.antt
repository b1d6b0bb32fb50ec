-- ===== src/Wire/RoundTrip.antt =====
-- Sending and receiving in internal/utils/binary.go.
use ttest.Prelude.{
  ℕ, ◌+◌, ◌-◌, ◌/◌, ◌%◌, ◌≤◌, ◌<◌, ◌≡◌, ◌≢◌, refl, sym, ap₂, subst, ◌∙◌, false, [], ◌∷◌, ◌++◌,
  arith, length, take, drop, Bytes, All, length-take, take-append-drop, append_assoc,
}
use ttest.Wire.Conn.{
  Conn, other_kind, Error, read_length_failed, read_message_failed, ReadError, Outcome, done, fail,
  ◌>>=◌, write, read_full, read_full-append, read_full_sound, conn_after, >>=-eq-done,
}
use ttest.Wire.Binary.{
  put_uint16, uint16, third, switched, send_binary_string, receive_binary_string,
  send_binary_transport_string, receive_binary_transport_string, send_binary_int,
  receive_binary_int, send_binary_byte, receive_binary_byte,
}

-- A connection on which one side writes and the other reads.
abbrev pub IsUsable : Conn → Type 0
IsUsable c = (c.kind ≢ other_kind) × (c.closed ≡ false)

switched_usable :
    {A : Type 0} (op : Conn → Outcome A) (c : Conn) → IsUsable c → switched op c ≡ op c
switched_usable op c u = ground arith

write_room :
    (buf : Bytes) (c : Conn)
    → IsUsable c
    → length buf ≤ c.room
    → write buf c ≡ done tt (record c { sent = c.sent ++ buf; room = c.room - length buf })
unfolding write
write_room buf c u h = ground arith

pub send_binary_transport_string_lem :
    (m : Bytes) (t : ℕ) (c : Conn)
    → IsUsable c
    → length m + 3 ≤ c.room
    → send_binary_transport_string m t c
      ≡ done tt (record c {
        sent = c.sent ++ (put_uint16 (length m) ++ (t ∷ m));
        room = c.room - (length m + 3);
      })
unfolding send_binary_transport_string
send_binary_transport_string_lem m t c u h =
    rw
      (
        switched_usable (write _) c u,
        write_room (put_uint16 (length m) ++ (t ∷ m)) c u (omega arith),
      )
      (ground arith)

uint16-put_uint16 : (n : ℕ) → uint16 (put_uint16 n) ≡ n % 65536
uint16-put_uint16 n = omega arith

-- Reading a frame with header `n`, `t` from an inbox that goes on with `body` and `rest`.
pub receive_frame :
    (n t : ℕ) (body rest : Bytes) (c : Conn)
    → IsUsable c
    → c.inbox ≡ put_uint16 n ++ (t ∷ (body ++ rest))
    → length body ≡ n % 65536
    → receive_binary_transport_string c ≡ done (body, t) (record c { inbox = rest })
unfolding receive_binary_transport_string
receive_frame n t body rest c u e l =
    let header : Bytes = n / 256 % 256 ∷ n % 256 ∷ t ∷ [] in
    let c' : Conn = record c { inbox = body ++ rest } in
    ground (
      arith,
      read_full-append read_length_failed 3 c header (body ++ rest),
      read_full-append read_message_failed (uint16 header) c' body rest,
    )

-- A message of any length, sent with a type byte over an open connection with room for it and read
-- from another, where `rest` follows: only the length modulo 65536 is in the header, so the
-- receiver gets that many bytes of the message, and what is left of it stays in the stream in front
-- of `rest`.
pub receive-send_truncated :
    (m rest : Bytes) (t : ℕ) (s r : Conn)
    → IsUsable s
    → IsUsable r
    → length m + 3 ≤ s.room
    → s.sent ≡ []
    → let got = conn_after (send_binary_transport_string m t s) in
      let k = length m % 65536 in
      receive_binary_transport_string (record r { inbox = got.sent ++ rest })
      ≡ done (take k m, t) (record r { inbox = drop k m ++ rest })
receive-send_truncated m rest t s r us ur h e =
    let k : ℕ = length m % 65536 in
    rw (send_binary_transport_string_lem m t s us h, e)
      (receive_frame (length m) t (take k m) (drop k m ++ rest)
        (record r { inbox = put_uint16 (length m) ++ (t ∷ (m ++ rest)) }) ur
        (rw (← append_assoc (take k m) (drop k m) rest, take-append-drop k m))
        (omega (arith, length-take k m)))

-- A message shorter than 65536 bytes, sent with a type byte over an open connection with room for
-- it, is received as it was sent, with its type byte, and what follows it in the stream is left for
-- the next read.
pub receive-send :
    (m rest : Bytes) (t : ℕ) (s r : Conn)
    → IsUsable s
    → IsUsable r
    → length m + 3 ≤ s.room
    → s.sent ≡ []
    → length m < 65536
    → let got = conn_after (send_binary_transport_string m t s) in
      receive_binary_transport_string (record r { inbox = got.sent ++ rest })
      ≡ done (m, t) (record r { inbox = rest })
receive-send m rest t s r us ur h e l =
    rw (send_binary_transport_string_lem m t s us h, e)
      (receive_frame (length m) t m rest
        (record r { inbox = put_uint16 (length m) ++ (t ∷ (m ++ rest)) }) ur refl (omega arith))

-- A message shorter than 65536 bytes, sent without a type byte over an open connection with room
-- for it, is received as it was sent, and what follows it in the stream is left for the next read.
receive-send_plain :
    (m rest : Bytes) (s r : Conn)
    → IsUsable s
    → IsUsable r
    → length m + 2 ≤ s.room
    → s.sent ≡ []
    → length m < 65536
    → let got = conn_after (send_binary_string m s) in
      receive_binary_string (record r { inbox = got.sent ++ rest })
      ≡ done m (record r { inbox = rest })
unfolding send_binary_string receive_binary_string
receive-send_plain m rest s r us ur h e l =
    let header : Bytes = length m / 256 % 256 ∷ length m % 256 ∷ [] in
    rw (switched_usable (write (header ++ m)) s us, write_room (header ++ m) s us (omega arith), e)
      (ground (
        arith,
        read_full-append read_length_failed 2 (record r { inbox = header ++ (m ++ rest) }) header
            (m ++ rest),
        read_full-append read_message_failed (uint16 header) (record r { inbox = m ++ rest }) m
            rest,
      ))

-- A port sent as an integer is received as the same port.
pub receive-send_int :
    (port : ℕ) (rest : Bytes) (s r : Conn)
    → IsUsable s
    → IsUsable r
    → 2 ≤ s.room
    → s.sent ≡ []
    → port < 65536
    → receive_binary_int (record r { inbox = (conn_after (send_binary_int port s)).sent ++ rest })
      ≡ done port (record r { inbox = rest })
unfolding send_binary_int receive_binary_int
receive-send_int port rest s r us ur h e l =
    rw (write_room (put_uint16 port) s us h, e)
      (ground (
        arith,
        read_full-append read_message_failed 2 (record r { inbox = put_uint16 port ++ rest })
            (put_uint16 port) rest,
      ))

-- A signal byte is received as the byte that was sent.
pub receive-send_byte :
    (b : ℕ) (rest : Bytes) (s r : Conn)
    → IsUsable s
    → IsUsable r
    → 1 ≤ s.room
    → s.sent ≡ []
    → receive_binary_byte (record r { inbox = (conn_after (send_binary_byte b s)).sent ++ rest })
      ≡ done b (record r { inbox = rest })
unfolding send_binary_byte receive_binary_byte
receive-send_byte b rest s r us ur h e =
    rw (switched_usable (write (b ∷ [])) s us, write_room (b ∷ []) s us h, e)
      (ground (
        arith,
        read_full-append read_message_failed 1 (record r { inbox = b ∷ rest }) (b ∷ []) rest,
      ))

switched-eq-done :
    {A : Type 0} (op : Conn → Outcome A) (c c' : Conn) (a : A)
    → switched op c ≡ done a c'
    → op c ≡ done a c'
switched-eq-done op c c' a h = ground arith

-- The two reads of a frame, put together.
frame_sound :
    (header m inbox rest : Bytes)
    → All (λ b. b < 256) inbox
    → length header ≡ 3
    → length m ≡ uint16 header
    → header ++ (m ++ rest) ≡ inbox
    → (put_uint16 (length m) ++ (third header ∷ (m ++ rest)) ≡ inbox) × (length m < 65536)
frame_sound [] m inbox rest b l n e = absurd (omega arith)
frame_sound (x ∷ []) m inbox rest b l n e = absurd (omega arith)
frame_sound (x ∷ y ∷ []) m inbox rest b l n e = absurd (omega arith)
frame_sound (hi ∷ lo ∷ t ∷ (w ∷ ws)) m inbox rest b l n e = absurd (omega arith)
frame_sound (hi ∷ lo ∷ t ∷ []) m inbox rest b l n e =
    let small : All (λ x. x < 256) (hi ∷ lo ∷ t ∷ (m ++ rest)) =
      subst (All (λ x. x < 256)) (sym e) b in
    (rw (← e) (ap₂ (λ x y. x ∷ y ∷ t ∷ (m ++ rest)) (omega arith) (omega arith)), omega arith)

receive_parts :
    (c c1 c2 c' : Conn) (header m1 m : Bytes) (t : ℕ)
    → All (λ b. b < 256) c.inbox
    → (header ++ c1.inbox ≡ c.inbox)
      × (length header ≡ 3)
      × (c1.sent ≡ c.sent)
      × (c1.closed ≡ c.closed)
    → (m1 ++ c2.inbox ≡ c1.inbox)
      × (length m1 ≡ uint16 header)
      × (c2.sent ≡ c1.sent)
      × (c2.closed ≡ c1.closed)
    → ◌≡◌ {A = Outcome (Bytes × ℕ)} (done (m1, third header) c2) (done (m, t) c')
    → (put_uint16 (length m) ++ (t ∷ (m ++ c'.inbox)) ≡ c.inbox)
      × (length m < 65536)
      × (c'.sent ≡ c.sent)
receive_parts c c1 c2 c' header m1 m t b one two e =
    ground (arith, frame_sound header m1 c.inbox c2.inbox)

-- What a successful receive returns stood at the front of the inbox, framed as the sender frames
-- it, where the inbox is made of bytes; the receiver takes nothing beyond that frame and writes
-- nothing.
pub receive_sound :
    (c c' : Conn) (m : Bytes) (t : ℕ)
    → All (λ b. b < 256) c.inbox
    → receive_binary_transport_string c ≡ done (m, t) c'
    → (put_uint16 (length m) ++ (t ∷ (m ++ c'.inbox)) ≡ c.inbox)
      × (length m < 65536)
      × (c'.sent ≡ c.sent)
unfolding receive_binary_transport_string
receive_sound c c' m t b h =
    let (header, c1, p, q) = >>=-eq-done (switched (read_full read_length_failed 3)) _ c h in
    let (m1, c2, p', q') =
      >>=-eq-done (switched (read_full read_message_failed (uint16 header))) _ c1 q in
    receive_parts c c1 c2 c' header m1 m t b
      (read_full_sound _ _ c c1 header (switched-eq-done _ c c1 header p))
      (read_full_sound _ _ c1 c2 m1 (switched-eq-done _ c1 c2 m1 p')) q'

read_full-sent :
    (wrap : ReadError → Error) (n : ℕ) (c : Conn) → (conn_after (read_full wrap n c)).sent ≡ c.sent
unfolding read_full
read_full-sent wrap n c = ground arith

switched-sent :
    {A : Type 0} (op : Conn → Outcome A) (c : Conn)
    → (conn_after (op c)).sent ≡ c.sent
    → (conn_after (switched op c)).sent ≡ c.sent
switched-sent op c h = ground arith

bind-sent :
    {A B : Type 0} (m : Conn → Outcome A) (f : A → Conn → Outcome B) (c : Conn)
    → (conn_after (m c)).sent ≡ c.sent
    → ((a : A) (d : Conn) → (conn_after (f a d)).sent ≡ d.sent)
    → (conn_after ((m >>= f) c)).sent ≡ c.sent
bind-sent {A} m f c h k = go (m c) h
  where
    go :
        (r : Outcome A)
        → (conn_after r).sent ≡ c.sent
        → (conn_after (elim r [ done a c' ↦ f a c' | fail e c' ↦ fail e c' ])).sent ≡ c.sent
    go (done a d) h' = k a d ∙ h'
    go (fail e d) h' = h'

-- Receiving writes nothing, whether it succeeds or not.
pub receive-sent : (c : Conn) → (conn_after (receive_binary_transport_string c)).sent ≡ c.sent
unfolding receive_binary_transport_string
receive-sent c =
    bind-sent (switched (read_full read_length_failed 3)) _ c
      (switched-sent _ c (read_full-sent _ 3 c))
      λ header d.
        bind-sent (switched (read_full read_message_failed (uint16 header))) _ d
          (switched-sent _ d (read_full-sent _ _ d)) λ m e. refl

-- A frame is written whole if the call succeeds.
pub send_sound :
    (m : Bytes) (t : ℕ) (c c' : Conn)
    → send_binary_transport_string m t c ≡ done tt c'
    → (c'.sent ≡ c.sent ++ (put_uint16 (length m) ++ (t ∷ m)))
      × (c'.inbox ≡ c.inbox)
      × (c'.closed ≡ c.closed)
unfolding send_binary_transport_string write
send_sound m t c c' h = ground arith
