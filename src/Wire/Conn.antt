-- ===== src/Wire/Conn.antt =====
-- A connection as the functions of internal/utils/binary.go see it, with Go's `Write` and
-- `io.ReadFull` on it. What the network does is part of the value: the bytes still to arrive, the
-- error that follows them, and how many bytes the other side still takes.
use ttest.Prelude.{
  ℕ, ◌-◌, ◌≤◌, ◌≡◌, refl, Bool, true, false, [], ◌∷◌, ◌++◌, arith, leb, ◌==◌, if◌then◌else◌, length,
  take, drop, Bytes, length-append, take-append_length, drop-append_length, take-append-drop,
  length-take,
}

-- The cases of the type switches on `conn interface{}`.
pub data ConnKind : Type 0 where
  net_conn quic_stream other_kind : ConnKind

pub data ReadError : Type 0 where
  eof unexpected_eof timeout conn_closed : ReadError

pub record Conn : Type 0 where
  pub kind : ConnKind
  pub inbox : Bytes  -- arrives, in this order
  pub fault : ReadError  -- what a read reports when the inbox is used up
  pub sent : Bytes
  pub room : ℕ  -- bytes that writes still get through
  pub closed : Bool

pub data Error : Type 0 where
  unsupported_type write_failed : Error
  read_length_failed read_message_failed : ReadError → Error

-- Go's `(value, error)`, with the connection afterwards.
pub data Outcome (A : Type 0) : Type 0 where
  done : A → Conn → Outcome A
  fail : Error → Conn → Outcome A

infixl 5 ◌>>=◌
abbrev pub ◌>>=◌ : {A B : Type 0} → (Conn → Outcome A) → (A → Conn → Outcome B) → Conn → Outcome B
◌>>=◌ m f c = elim (m c) [ done a c' ↦ f a c' | fail e c' ↦ fail e c' ]

abbrev pub return : {A : Type 0} → A → Conn → Outcome A
return a c = done a c

-- The connection that an operation leaves.
abbrev pub conn_after : {A : Type 0} → Outcome A → Conn
conn_after (done a c) = c
conn_after (fail e c) = c

abbrev pub close : Conn → Conn
close c = record c { closed = true }

-- `Write` sends all of the buffer, or a part of it and reports an error.
unfoldable pub write : Bytes → Conn → Outcome (Unit {0})
write buf c =
    if c.closed
    then fail write_failed c
    else if leb (length buf) c.room
    then done tt (record c { sent = c.sent ++ buf; room = c.room - length buf })
    else fail write_failed (record c { sent = c.sent ++ take c.room buf; room = 0 })

abbrev pub exhausted : Bytes → ReadError → ReadError
exhausted [] e = e
exhausted (x ∷ xs) eof = unexpected_eof
exhausted (x ∷ xs) e = e

-- `io.ReadFull` on a buffer of `n` bytes; `wrap` is the caller's `fmt.Errorf`.
unfoldable pub read_full : (ReadError → Error) → ℕ → Conn → Outcome Bytes
read_full wrap n c =
    if n == 0
    then done [] c
    else if c.closed
    then fail (wrap conn_closed) c
    else if leb n (length c.inbox)
    then done (take n c.inbox) (record c { inbox = drop n c.inbox })
    else fail (wrap (exhausted c.inbox c.fault)) (record c { inbox = [] })

-- A read of as many bytes as a prefix of the inbox holds gives that prefix.
pub read_full-append :
    (wrap : ReadError → Error) (n : ℕ) (c : Conn) (xs rest : Bytes)
    → c.closed ≡ false
    → c.inbox ≡ xs ++ rest
    → length xs ≡ n
    → read_full wrap n c ≡ done xs (record c { inbox = rest })
unfolding read_full
read_full-append wrap n c [] rest open_ e l = ground arith
read_full-append wrap n c (x ∷ xs) rest open_ e l = ground (
  arith,
  take-append_length (x ∷ xs) rest,
  drop-append_length (x ∷ xs) rest,
  length-append (x ∷ xs) rest,
)

-- What a successful read returns stood at the front of the inbox.
pub read_full_sound :
    (wrap : ReadError → Error) (n : ℕ) (c c' : Conn) (xs : Bytes)
    → read_full wrap n c ≡ done xs c'
    → (xs ++ c'.inbox ≡ c.inbox) × (length xs ≡ n) × (c'.sent ≡ c.sent) × (c'.closed ≡ c.closed)
unfolding read_full
read_full_sound wrap n c c' xs h = ground (arith, take-append-drop n c.inbox, length-take n c.inbox)

-- A chain that succeeds is made of steps that do.
pub >>=-eq-done :
    {A B : Type 0} (m : Conn → Outcome A) (f : A → Conn → Outcome B) (c : Conn) {b : B} {d : Conn}
    → (m >>= f) c ≡ done b d
    → (a : A) × (c' : Conn) × (m c ≡ done a c') × (f a c' ≡ done b d)
>>=-eq-done {A} {B} m f c {b} {d} h = go (m c) h
  where
    go :
        (r : Outcome A)
        → (elim r [ done a c' ↦ f a c' | fail e c' ↦ fail e c' ]) ≡ done b d
        → (a : A) × (c' : Conn) × (r ≡ done a c') × (f a c' ≡ done b d)
    go (done a c') h' = (a, c', refl, h')
    go (fail e c') h' = cc

-- An open connection takes what it has room for.
pub write_open :
    (buf : Bytes) (c : Conn)
    → c.closed ≡ false
    → length buf ≤ c.room
    → write buf c ≡ done tt (record c { sent = c.sent ++ buf; room = c.room - length buf })
unfolding write
write_open buf c o h = ground arith
