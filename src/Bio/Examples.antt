-- ===== src/Bio/Examples.antt =====
-- The buffers after `binit`, over memory that holds zeros.
use dave.Common.{arith, false, true, []}
use dave.Bio.{Buf, Cache, nbuf, binit, bget, brelse}
use dave.Bio.Moves.{IsRing}
use dave.Bio.Order.{IsFull, down, binit-IsRing, BrelseSpec, brelse_lem}
use dave.Bio.Blocks.{BgetSpec, bget_lem}

abbrev zero_buf : Buf
zero_buf = record {
  valid = false;
  dirty = false;
  dev = 0;
  blockno = 0;
  lock = record { addr = 0; locked = true; pid = 4 };
  refcnt = 1;
}

abbrev memory : Cache
memory = record { bufs = λ b. zero_buf; next = λ b. 0; prev = λ b. 0 }

memory-IsRing : IsRing (binit memory) (down nbuf) × IsFull (down nbuf)
memory-IsRing = binit-IsRing memory

bget_example : BgetSpec 1 7 (binit memory) (down nbuf) (bget 1 7 (binit memory))
bget_example = bget_lem 1 7 (binit memory) (down nbuf) memory-IsRing.0 memory-IsRing.1

brelse_example : BrelseSpec 4 3 (binit memory) [] (down nbuf) (brelse 4 3 (binit memory) [])
brelse_example =
    brelse_lem 4 3 (binit memory) [] (down nbuf) (omega arith) memory-IsRing.0 memory-IsRing.1
