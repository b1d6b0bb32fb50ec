-- ===== src/Transfer/Copy.antt =====
-- One direction of a connection pair. What the two ends do is given as lists: the results of the
-- reads, in order, and of the writes. Where a list ends, the loop waits.
use ttest.Prelude.{
  ℕ, Bool, true, false, List, [], ◌∷◌, ◌++◌, if◌then◌else◌, length, take, drop, Bytes,
}

pub data Answer : Type 0 where
  wrote : ℕ → Answer
  write_error : Answer

pub data ReadResult : Type 0 where
  chunk : Bytes → ReadResult
  read_error : ReadResult  -- the end of the stream too

pub data WriteEnd : Type 0 where
  complete : List Answer → WriteEnd  -- with the answers not used
  broken waiting : WriteEnd

pub record Written : Type 0 where
  pub delivered : Bytes
  pub how : WriteEnd

abbrev pub also : Bytes → Written → Written
also out w = record w { delivered = out ++ w.delivered }

-- `for totalWritten < r`: the buffer is what is left of `buf[totalWritten:r]`.
unfoldable pub write_loop : List Answer → Bytes → Written
write_loop answers [] = record { delivered = []; how = complete answers }
write_loop [] (b ∷ bs) = record { delivered = []; how = waiting }
write_loop (write_error ∷ answers) (b ∷ bs) = record { delivered = []; how = broken }
write_loop (wrote w ∷ answers) (b ∷ bs) =
    also (take w (b ∷ bs)) (write_loop answers (drop w (b ∷ bs)))

pub record Transfer : Type 0 where
  pub delivered : Bytes
  pub reported : List ℕ  -- the calls of `AddOrUpdatePort`
  pub closed : Bool  -- both connections are closed, and the loop has ended

abbrev pub goes_on : Bool → Bytes → Bytes → Transfer → Transfer
goes_on sniffer buf out t = record t {
  delivered = out ++ t.delivered;
  reported = if sniffer then length buf ∷ t.reported else t.reported;
}

abbrev pub after_write : Bool → Bytes → (List Answer → Transfer) → Bytes → WriteEnd → Transfer
after_write sniffer buf next out (complete answers) = goes_on sniffer buf out (next answers)
after_write sniffer buf next out broken = record { delivered = out; reported = []; closed = true }
after_write sniffer buf next out waiting = record { delivered = out; reported = []; closed = false }

unfoldable pub transfer_data : Bool → List ReadResult → List Answer → Transfer
transfer_data sniffer [] answers = record { delivered = []; reported = []; closed = false }
transfer_data sniffer (read_error ∷ reads) answers = record {
  delivered = [];
  reported = [];
  closed = true;
}
transfer_data sniffer (chunk buf ∷ reads) answers =
    let w = write_loop answers buf in
    after_write sniffer buf (transfer_data sniffer reads) w.delivered w.how

-- quicConnHandler.go has the same loop.
unfoldable pub q1transfer_data : Bool → List ReadResult → List Answer → Transfer
q1transfer_data = transfer_data
