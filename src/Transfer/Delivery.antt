-- ===== src/Transfer/Delivery.antt =====
-- What is read is delivered, in order and once.
use ttest.Prelude.{
  ℕ, ◌+◌, ◌≤◌, ◌≡◌, refl, sym, ◌∙◌, ap, Bool, true, false, List, [], ◌∷◌, ◌++◌, arith, length, take,
  drop, All, Bytes, append_assoc, take-append-drop, length-drop, length-append,
}
use ttest.Transfer.Copy.{
  Answer, wrote, write_error, ReadResult, chunk, read_error, WriteEnd, complete, broken, waiting,
  also, write_loop, Transfer, after_write, transfer_data,
}

abbrev pub IsPrefix : Bytes → Bytes → Type 0
IsPrefix xs ys = (rest : Bytes) × (xs ++ rest ≡ ys)

-- A writer that takes at least a byte each time.
abbrev pub Advances : Answer → Type 0
Advances (wrote w) = 1 ≤ w
Advances write_error = ⊥

-- However the writer splits the buffer, what is delivered is a prefix of it.
write_loop-prefix :
    (answers : List Answer) (buf : Bytes) → IsPrefix (write_loop answers buf).delivered buf
unfolding write_loop
write_loop-prefix answers [] = ([], refl)
write_loop-prefix [] (b ∷ bs) = (b ∷ bs, refl)
write_loop-prefix (write_error ∷ answers) (b ∷ bs) = (b ∷ bs, refl)
write_loop-prefix (wrote w ∷ answers) (b ∷ bs) =
    let (rest, e) = write_loop-prefix answers (drop w (b ∷ bs)) in
    (
      rest,
      append_assoc (take w (b ∷ bs)) _ rest
          ∙ ap (λ x. take w (b ∷ bs) ++ x) e
          ∙ take-append-drop w (b ∷ bs),
    )

-- What the reads give before the first error.
abbrev pub bytes_read : List ReadResult → Bytes
bytes_read [] = []
bytes_read (read_error ∷ reads) = []
bytes_read (chunk buf ∷ reads) = buf ++ bytes_read reads

abbrev pub sum : List ℕ → ℕ
sum [] = 0
sum (n ∷ ns) = n + sum ns

prefix-append : (xs ys zs : Bytes) → IsPrefix xs ys → IsPrefix xs (ys ++ zs)
prefix-append xs ys zs (rest, e) = (rest ++ zs, sym (append_assoc xs rest zs) ∙ ap (λ x. x ++ zs) e)

-- A buffer that was written to its end was delivered whole.
write_loop-whole :
    (answers left : List Answer) (buf : Bytes)
    → (write_loop answers buf).how ≡ complete left
    → (write_loop answers buf).delivered ≡ buf
unfolding write_loop
write_loop-whole answers left [] h = refl
write_loop-whole [] left (b ∷ bs) h = cc
write_loop-whole (write_error ∷ answers) left (b ∷ bs) h = cc
write_loop-whole (wrote w ∷ answers) left (b ∷ bs) h =
    ap (λ x. take w (b ∷ bs) ++ x) (write_loop-whole answers left (drop w (b ∷ bs)) h)
    ∙ take-append-drop w (b ∷ bs)

after_write-prefix :
    (sniffer : Bool) (buf more out : Bytes) (next : List Answer → Transfer) (how : WriteEnd)
    → IsPrefix out buf
    → ((left : List Answer) → how ≡ complete left → out ≡ buf)
    → ((left : List Answer) → IsPrefix (next left).delivered more)
    → IsPrefix (after_write sniffer buf next out how).delivered (buf ++ more)
after_write-prefix sniffer buf more out next (complete left) p whole ih =
    let (rest, e) = ih left in
    (rest, append_assoc out _ rest ∙ ap (λ x. out ++ x) e ∙ ap (λ x. x ++ more) (whole left refl))
after_write-prefix sniffer buf more out next broken p whole ih = prefix-append out buf more p
after_write-prefix sniffer buf more out next waiting p whole ih = prefix-append out buf more p

-- Whatever the two connections do, the bytes that reach the destination are a prefix of the bytes
-- that were read from the source: none is reordered, repeated or invented.
pub transfer_data-prefix :
    (sniffer : Bool) (reads : List ReadResult) (answers : List Answer)
    → IsPrefix (transfer_data sniffer reads answers).delivered (bytes_read reads)
unfolding transfer_data
transfer_data-prefix sniffer [] answers = ([], refl)
transfer_data-prefix sniffer (read_error ∷ reads) answers = ([], refl)
transfer_data-prefix sniffer (chunk buf ∷ reads) answers =
    after_write-prefix sniffer buf (bytes_read reads) _ (transfer_data sniffer reads) _
      (write_loop-prefix answers buf) (λ left. write_loop-whole answers left buf)
      (transfer_data-prefix sniffer reads)

after_write-sum :
    (buf out : Bytes) (next : List Answer → Transfer) (how : WriteEnd)
    → ((left : List Answer) → how ≡ complete left → out ≡ buf)
    → ((left : List Answer) → sum (next left).reported ≤ length (next left).delivered)
    → sum (after_write true buf next out how).reported
      ≤ length (after_write true buf next out how).delivered
after_write-sum buf out next (complete left) whole ih =
    omega (arith, length-append {0} out (next left).delivered, ap length (whole left refl), ih left)
after_write-sum buf out next broken whole ih = omega arith
after_write-sum buf out next waiting whole ih = omega arith

-- With the sniffer on, the traffic that is reported never exceeds what was delivered.
transfer_data-reported :
    (reads : List ReadResult) (answers : List Answer)
    → sum (transfer_data true reads answers).reported
      ≤ length (transfer_data true reads answers).delivered
unfolding transfer_data
transfer_data-reported [] answers = omega arith
transfer_data-reported (read_error ∷ reads) answers = omega arith
transfer_data-reported (chunk buf ∷ reads) answers =
    after_write-sum buf _ (transfer_data true reads) _ (λ left. write_loop-whole answers left buf)
      (transfer_data-reported reads)

-- Enough answers of a writer that advances write a buffer to its end.
write_loop-complete :
    (answers : List Answer) (buf : Bytes)
    → All Advances answers
    → length buf ≤ length answers
    → (left : List Answer) × (write_loop answers buf
        ≡ record { delivered = buf; how = complete left })
      × All Advances left
      × (length answers ≤ length left + length buf)
unfolding write_loop
write_loop-complete answers [] a l = (answers, refl, a, omega arith)
write_loop-complete [] (b ∷ bs) a l = absurd (omega arith)
write_loop-complete (write_error ∷ answers) (b ∷ bs) a l = absurd a.0
write_loop-complete (wrote w ∷ answers) (b ∷ bs) a l =
    let shorter = length-drop w (b ∷ bs) in
    let (left, e, a', l') = write_loop-complete answers (drop w (b ∷ bs)) a.1 (omega arith) in
    (
      left,
      ap (also (take w (b ∷ bs))) e
          ∙ ap (λ x. record { delivered = x; how = complete left }) (take-append-drop w (b ∷ bs)),
      a',
      omega arith,
    )

abbrev pub ends : List ReadResult → Bool
ends [] = false
ends (read_error ∷ reads) = true
ends (chunk buf ∷ reads) = ends reads

-- With the sniffer on, a destination that takes at least a byte at each write, and as many writes
-- as there are bytes: all that is read before the first error is delivered and reported, and the
-- connections are closed exactly if the reads end.
pub transfer_data_complete :
    (reads : List ReadResult) (answers : List Answer)
    → All Advances answers
    → length (bytes_read reads) ≤ length answers
    → let t = transfer_data true reads answers in
      (t.delivered ≡ bytes_read reads)
      × (sum t.reported ≡ length (bytes_read reads))
      × (t.closed ≡ ends reads)
unfolding transfer_data
transfer_data_complete [] answers a l = (refl, refl, refl)
transfer_data_complete (read_error ∷ reads) answers a l = (refl, refl, refl)
transfer_data_complete (chunk buf ∷ reads) answers a l =
    let sizes = length-append buf (bytes_read reads) in
    let (left, e, a', l') = write_loop-complete answers buf a (omega arith) in
    let (all, count, closed) = transfer_data_complete reads left a' (omega arith) in
    rw e (ap (λ x. buf ++ x) all, omega arith, closed)
