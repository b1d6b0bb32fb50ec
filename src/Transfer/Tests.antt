-- ===== src/Transfer/Tests.antt =====
-- Two buffers and short writes.
use ttest.Prelude.{◌≡◌, List, [], ◌∷◌, true, length, arith}
use ttest.Transfer.Copy.{Answer, wrote, ReadResult, chunk, read_error, transfer_data}
use ttest.Transfer.Delivery.{
  IsPrefix, bytes_read, sum, ends, transfer_data-prefix, transfer_data_complete,
}

abbrev reads : List ReadResult
reads = chunk (1 ∷ 2 ∷ []) ∷ chunk (3 ∷ []) ∷ read_error ∷ []

abbrev answers : List Answer
answers = wrote 1 ∷ wrote 1 ∷ wrote 4 ∷ []

transfer_data-prefix_example :
    IsPrefix (transfer_data true reads answers).delivered (bytes_read reads)
transfer_data-prefix_example = transfer_data-prefix true reads answers

transfer_data_complete_example :
    ((transfer_data true reads answers).delivered ≡ bytes_read reads)
    × (sum (transfer_data true reads answers).reported ≡ length (bytes_read reads))
    × ((transfer_data true reads answers).closed ≡ ends reads)
transfer_data_complete_example =
    transfer_data_complete reads answers (omega arith, (omega arith, (omega arith, tt)))
      (omega arith)
