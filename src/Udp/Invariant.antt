-- ===== src/Udp/Invariant.antt =====
-- The invariant of the table of active connections, and how it stands a change of one connection.
use ttest.Prelude.{
  ℕ, ◌+◌, ◌<◌, ◌≡◌, ◌≢◌, refl, sym, ap, subst, ◌∙◌, Bool, true, false, not, ◌&&◌, ◌||◌, List, [],
  ◌∷◌, ◌++◌, some, ◌==◌, Bytes, text_eq, text_eq_refl, All, All-append, arith, Bool-cases, inl, inr,
  ==_iff,
}
use ttest.Udp.Listener.{
  Phase, created, queued, finished, is_running, is_held, Reading, at_read, stored, placed, asking,
  UdpLocal, Listener, update, lookup, delete,
}

-- An entry of the table: its connection exists, has that address, and is closed only if congested.
abbrev pub Entry : (ℕ → UdpLocal) → ℕ → Bytes × ℕ → Type 0
Entry f n x =
    (x.1 < n) × ((f x.1).client_addr ≡ x.0) × (not (f x.1).closed || (f x.1).is_congested ≡ true)

-- A connection that waits for a handler.
abbrev pub Waits : (ℕ → UdpLocal) → ℕ → ℕ → Type 0
Waits f n i = (i < n) × ((f i).phase ≡ queued) × ((f i).closed ≡ false)

abbrev pub Increasing : List ℕ → Type 0
Increasing [] = Unit
Increasing (i ∷ is) = All (λ j. i < j) is × Increasing is

-- The loop or a handler has it.
abbrev pub is_started : Phase → Bool
is_started p = is_held p || is_running p

-- The connection that the reading goroutine has stored is open and comes after those in `udpChan`; it
-- stays open until its first datagram is sent.
abbrev pub Settled : (ℕ → UdpLocal) → ℕ → List ℕ → Reading → Type 0
Settled f n q (stored i buf) =
    (i < n) × ((f i).phase ≡ created) × ((f i).closed ≡ false) × All (λ j. j < i) q
Settled f n q (placed i buf) = (f i).closed ≡ false
Settled f n q _ = Unit

-- The goroutine is about to queue the connection, or to send its first datagram.
abbrev pub IsStoredAt : ℕ → Reading → Type 0
IsStoredAt i (stored j buf) = j ≡ i
IsStoredAt i _ = ⊥

abbrev pub IsPlacedAt : ℕ → Reading → Type 0
IsPlacedAt i (placed j buf) = j ≡ i
IsPlacedAt i _ = ⊥

pub record IsSafe (t : Listener) : Type 0 where
  pub settled : Settled t.conns t.next t.udp_chan t.reading
  pub entries : All (Entry t.conns t.next) t.active
  pub waiting : All (Waits t.conns t.next) t.udp_chan
  pub ordered : Increasing t.udp_chan
  pub open_running : (i : ℕ) → is_started (t.conns i).phase && (t.conns i).closed ≡ false
  pub calm : t.panicked ≡ false

pub All-map :
    {A : Type 0} {P Q : A → Type 0} → ((a : A) → P a → Q a) → (xs : List A) → All P xs → All Q xs
All-map f [] h = tt
All-map f (x ∷ xs) h = (f x h.0, All-map f xs h.1)

pub lookup-All :
    (P : Bytes × ℕ → Type 0) (key : Bytes) (m : List (Bytes × ℕ)) (i : ℕ)
    → All P m
    → lookup key m ≡ some i
    → (k : Bytes) × P (k, i)
unfolding lookup
lookup-All P key [] i h e = cc
lookup-All P key ((k, j) ∷ m) i h e = elim (Bool-cases (text_eq k key)) [
  | inl y ↦ (k, subst (λ x. P (k, x)) (cc (rw y at e)) h.0)
  | inr n ↦ lookup-All P key m i h.1 (rw n at e)
]

pub delete-All :
    (P : Bytes × ℕ → Type 0) (key : Bytes) (m : List (Bytes × ℕ))
    → All P m
    → All (λ x. P x × (x.0 ≢ key)) (delete key m)
unfolding delete
delete-All P key [] h = tt
delete-All P key ((k, j) ∷ m) h = elim (Bool-cases (text_eq k key)) [
  | inl y ↦ rw y (delete-All P key m h.1)
  | inr n ↦
      rw n ((h.0, λ s. ground (arith, text_eq_refl k, ap (text_eq k) s)), delete-All P key m h.1)
]

pub if_false_of : (j i : ℕ) → j ≢ i → (j == i) ≡ false
if_false_of j i d = ground arith

pub Entry-touch :
    (i : ℕ) (u : UdpLocal) (f : ℕ → UdpLocal) (n : ℕ) (x : Bytes × ℕ)
    → u.client_addr ≡ (f i).client_addr
    → u.closed ≡ (f i).closed
    → not (f i).is_congested || u.is_congested ≡ true
    → Entry f n x
    → Entry (update i u f) n x
Entry-touch i u f n x a c g h = elim (Bool-cases (x.1 == i)) [
  | inl y ↦
      let e = (==_iff x.1 i).0 y in
      rw y (
        h.0,
        a ∙ (ap (λ j. (f j).client_addr) (sym e) ∙ h.1),
        ground (arith, ap (λ j. (f j).closed) e, ap (λ j. (f j).is_congested) e),
      )
  | inr z ↦ rw z h
]

pub Entry-other :
    (i : ℕ) (u : UdpLocal) (f : ℕ → UdpLocal) (n : ℕ) (x : Bytes × ℕ)
    → x.1 ≢ i
    → Entry f n x
    → Entry (update i u f) n x
Entry-other i u f n x d h = rw (if_false_of x.1 i d) h

pub Waits-other :
    (i : ℕ) (u : UdpLocal) (f : ℕ → UdpLocal) (n j : ℕ)
    → j ≢ i
    → Waits f n j
    → Waits (update i u f) n j
Waits-other i u f n j d h = rw (if_false_of j i d) h

pub Waits-touch :
    (i : ℕ) (u : UdpLocal) (f : ℕ → UdpLocal) (n j : ℕ)
    → is_started (f i).phase ≡ true
    → Waits f n j
    → Waits (update i u f) n j
Waits-touch i u f n j r h = Waits-other i u f n j (λ e. ground (arith, ap (λ k. (f k).phase) e)) h

pub running-update :
    (i : ℕ) (u : UdpLocal) (f : ℕ → UdpLocal)
    → is_started u.phase && u.closed ≡ false
    → ((j : ℕ) → is_started (f j).phase && (f j).closed ≡ false)
    → (j : ℕ) → is_started (update i u f j).phase && (update i u f j).closed ≡ false
running-update i u f h k j = elim (Bool-cases (j == i)) [ inl y ↦ rw y h | inr z ↦ rw z (k j) ]

pub Increasing-snoc :
    (xs : List ℕ) (n : ℕ) → All (λ i. i < n) xs → Increasing xs → Increasing (xs ++ (n ∷ []))
Increasing-snoc [] n h k = (tt, tt)
Increasing-snoc (x ∷ xs) n h k =
    (All-append (λ j. x < j) xs (n ∷ []) k.0 (h.0, tt), Increasing-snoc xs n h.1 k.1)

pub All-both :
    {P Q R : ℕ → Type 0}
    → ((a : ℕ) → P a → Q a → R a)
    → (xs : List ℕ) → All P xs
    → All Q xs
    → All R xs
All-both f [] h k = tt
All-both f (x ∷ xs) h k = (f x h.0 k.0, All-both f xs h.1 k.1)

pub Waits-same :
    (i : ℕ) (u : UdpLocal) (f : ℕ → UdpLocal) (n j : ℕ)
    → u.closed ≡ (f i).closed
    → u.phase ≡ (f i).phase
    → Waits f n j
    → Waits (update i u f) n j
Waits-same i u f n j c p h = elim (Bool-cases (j == i)) [
  | inl y ↦
      let e = (==_iff j i).0 y in
      rw y
        (h.0, p ∙ (ap (λ k. (f k).phase) (sym e) ∙ h.1), c ∙ (ap (λ k. (f k).closed) (sym e) ∙ h.2))
  | inr z ↦ rw z h
]

-- A congested connection that ends.
pub Entry-ended :
    (i : ℕ) (f : ℕ → UdpLocal) (n : ℕ) (x : Bytes × ℕ)
    → (f i).is_congested ≡ true
    → Entry f n x
    → Entry (update i (record (f i) { closed = true; phase = finished }) f) n x
Entry-ended i f n x y h = elim (Bool-cases (x.1 == i)) [
  | inl z ↦ rw z (h.0, ap (λ j. (f j).client_addr) (sym ((==_iff x.1 i).0 z)) ∙ h.1, y)
  | inr z ↦ rw z h
]

-- The entries and the waiting connections, when a new connection is stored.
pub new_entries :
    (key : Bytes) (u : UdpLocal) (t : Listener)
    → IsSafe t
    → All (Entry (update t.next u t.conns) (t.next + 1)) (delete key t.active)
new_entries key u t s =
    All-map
      (λ x h. (
        omega (arith, h.0.0),
        (Entry-other t.next u t.conns t.next x (λ e. omega (arith, e, h.0.0)) h.0).1,
        (Entry-other t.next u t.conns t.next x (λ e. omega (arith, e, h.0.0)) h.0).2,
      ))
      (delete key t.active) (delete-All (Entry t.conns t.next) key t.active s.entries)

pub new_waiting :
    (u : UdpLocal) (t : Listener)
    → IsSafe t
    → All (Waits (update t.next u t.conns) (t.next + 1)) t.udp_chan
new_waiting u t s =
    All-map
      (λ j h. (
        omega (arith, h.0),
        (Waits-other t.next u t.conns t.next j (λ e. omega (arith, e, h.0)) h).1,
        (Waits-other t.next u t.conns t.next j (λ e. omega (arith, e, h.0)) h).2,
      ))
      t.udp_chan s.waiting

pub or_itself : (b : Bool) → not b || b ≡ true
or_itself true = refl
or_itself false = refl

pub started_of : (p : Phase) → is_running p ≡ true → is_started p ≡ true
started_of p h = ground arith

pub started_held : (p : Phase) → is_held p ≡ true → is_started p ≡ true
started_held p h = ground arith

pub same_field :
    {A : Type 0} (g : UdpLocal → A) (i j : ℕ) (u : UdpLocal) (f : ℕ → UdpLocal) (a : A)
    → ((j ≡ i) → g u ≡ g (f i))
    → g (f j) ≡ a
    → g (update i u f j) ≡ a
same_field g i j u f a h e = elim (Bool-cases (j == i)) [
  | inl y ↦ let q = (==_iff j i).0 y in rw y (h q ∙ (ap (λ k. g (f k)) (sym q) ∙ e))
  | inr z ↦ rw z e
]

-- A change of one connection.
pub Settled-update :
    (i : ℕ) (u : UdpLocal) (f : ℕ → UdpLocal) (n : ℕ) (q : List ℕ) (r : Reading)
    → (IsStoredAt i r → u.phase ≡ (f i).phase)
    → (IsStoredAt i r → u.closed ≡ (f i).closed)
    → (IsPlacedAt i r → u.closed ≡ (f i).closed)
    → Settled f n q r
    → Settled (update i u f) n q r
Settled-update i u f n q at_read p c d h = tt
Settled-update i u f n q (stored j buf) p c d h = (
  h.0,
  same_field (λ x. x.phase) i j u f created p h.1,
  same_field (λ x. x.closed) i j u f false c h.2,
  h.3,
)
Settled-update i u f n q (placed j buf) p c d h = same_field (λ x. x.closed) i j u f false d h
Settled-update i u f n q asking p c d h = tt

-- A connection for which a step needs another phase than that of a stored one.
pub not_stored :
    (i : ℕ) (f : ℕ → UdpLocal) (n : ℕ) (q : List ℕ) (r : Reading)
    → is_started (f i).phase ≡ true
    → Settled f n q r
    → IsStoredAt i r
    → ⊥
not_stored i f n q at_read s h e = e
not_stored i f n q (stored j buf) s h e = ground (arith, ap (λ k. (f k).phase) e, h.1, s)
not_stored i f n q (placed j buf) s h e = e
not_stored i f n q asking s h e = e

-- The first of the queue is not stored any more.
pub not_first :
    (i : ℕ) (is : List ℕ) (f : ℕ → UdpLocal) (n : ℕ) (r : Reading)
    → Settled f n (i ∷ is) r
    → IsStoredAt i r
    → ⊥
not_first i is f n at_read h e = e
not_first i is f n (stored j buf) h e = omega (arith, h.3.0, e)
not_first i is f n (placed j buf) h e = e
not_first i is f n asking h e = e

pub Settled-tail :
    (i : ℕ) (is : List ℕ) (f : ℕ → UdpLocal) (n : ℕ) (r : Reading)
    → Settled f n (i ∷ is) r
    → Settled f n is r
Settled-tail i is f n at_read h = tt
Settled-tail i is f n (stored j buf) h = (h.0, h.1, h.2, h.3.1)
Settled-tail i is f n (placed j buf) h = h
Settled-tail i is f n asking h = tt
