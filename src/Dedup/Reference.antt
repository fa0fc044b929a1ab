-- ===== src/Dedup/Reference.antt =====
-- A reference block on its way through the archive.
use zupt_web.Base.{
  ℕ, ◌≤◌, ◌≡◌, refl, sym, ap, ◌∙◌, append-nil, List, [], ◌++◌, Bool, false, true, Option, arith,
  IsU64,
}
use zupt_web.Wire.{le64_put, le64_get}
use zupt_web.Wire.Little.{length-le64_put, le64_get-le64_put}
use zupt_web.Failure.{ok, ◌>>=◌}
use zupt_web.Block.{Block, read_block, max_block_sz}
use zupt_web.Block.Frame.{IsBlock, read_block-frame}
use zupt_web.Dedup.{ref_block, write_ref, read_ref}

ref_block-IsBlock :
    (off size sum : ℕ) → size ≤ max_block_sz → IsU64 sum → IsBlock (ref_block off size sum)
unfolding ref_block
ref_block-IsBlock off size sum h hs = record {
  type_byte = omega arith;
  codec = omega arith;
  flags = omega arith;
  size = h;
  packed_size = omega arith;
  sum = hs;
  payload_len = length-le64_put off;
}

read_ref-ref_block :
    (decrypt : Block → ℕ → Option (List ℕ)) (active : Bool) (seq off size sum : ℕ)
    → IsU64 off
    → read_ref decrypt false active seq (ref_block off size sum) ≡ ok (off, 0)
unfolding read_ref ref_block
read_ref-ref_block decrypt active seq off size sum h =
    let got : le64_get (le64_put off) ≡ off =
      ap le64_get (sym (append-nil (le64_put off))) ∙ le64_get-le64_put off [] h in
    rw got refl

-- The reference block that zupt_dedup_write_ref writes is one that read_block returns, whatever follows
-- it, and from which zupt_dedup_read_ref, where no authentication is required, takes the offset that was
-- written; the size fits a block, the
-- numbers fit 64 bits, and memory for the payload is given.
pub read_ref-write_ref :
    (malloc : ℕ → Bool) (decrypt : Block → ℕ → Option (List ℕ)) (active : Bool)
    (seq off size sum : ℕ) (rest : List ℕ)
    → IsU64 off
    → size ≤ max_block_sz
    → IsU64 sum
    → malloc 8 ≡ true
    → (read_block malloc (write_ref off size sum ++ rest) >>= λ p.
        read_ref decrypt false active seq p.0)
      ≡ ok (off, 0)
unfolding write_ref
read_ref-write_ref malloc decrypt active seq off size sum rest h hz hs m =
    let got =
      read_block-frame malloc (ref_block off size sum) rest (ref_block-IsBlock off size sum hz hs)
        (unfold ref_block in m) in
    rw got (read_ref-ref_block decrypt active seq off size sum h)
