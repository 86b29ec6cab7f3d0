-- ===== src/Bio.antt =====
-- system/storage/bio.c: the buffers of disk blocks, in a ring by their last use. A buffer is its
-- index in `bcache.buf`, and `head` is the index behind them. What a buffer holds is with the disk
-- driver, whose `iderw` is a parameter. Each body runs under `bcache.lock`; the `acquiresleep` that
-- ends `bget` is in Sleeplock.antt.
pub mod Ring
pub mod Moves
pub mod Order
pub mod Blocks
mod Examples
use dave.Common.{
  ℕ, zero, suc, ◌+◌, ◌-◌, Bool, true, false, ◌&&◌, not, Option, none, some, Result, ok, panic,
  if◌then◌else◌, ◌==◌, update, add32, sub32,
}
use dave.Sleeplock.{SleepLock, initsleeplock, releasesleep, holdingsleep}
use dave.Proc.{Table}

abbrev pub nbuf : ℕ
nbuf = 30

abbrev pub head : ℕ
head = nbuf

-- `flags` is the bits B_VALID and B_DIRTY.
pub record Buf : Type 0 where
  pub valid : Bool
  pub dirty : Bool
  pub dev : ℕ
  pub blockno : ℕ
  pub lock : SleepLock
  pub refcnt : ℕ

pub record Cache : Type 0 where
  pub bufs : ℕ → Buf
  pub next : ℕ → ℕ
  pub prev : ℕ → ℕ

-- The four assignments that put a buffer behind the head.
unfoldable pub push_front : ℕ → Cache → Cache
push_front b c =
    let next1 = update c.next b (c.next head) in
    let prev1 = update c.prev b head in
    record c { next = update next1 head b; prev = update prev1 (next1 head) b }

-- `b->next->prev = b->prev; b->prev->next = b->next`
unfoldable pub unlink : ℕ → Cache → Cache
unlink b c =
    let prev1 = update c.prev (c.next b) (c.prev b) in
    record c { prev = prev1; next = update c.next (prev1 b) (c.next b) }

-- The loop of `binit` with `k` buffers left from `b` on.
unfoldable pub binit_from : ℕ → ℕ → Cache → Cache
binit_from zero b c = c
binit_from (suc k) b c =
    let buf = c.bufs b in
    binit_from k (suc b) (
      push_front b
        (record c { bufs = update c.bufs b (record buf { lock = initsleeplock buf.lock }) }))

unfoldable pub binit : Cache → Cache
binit c =
    binit_from nbuf 0 (record c { prev = update c.prev head head; next = update c.next head head })

abbrev pub caches : ℕ → ℕ → Buf → Bool
caches dev blockno b = b.dev == dev && b.blockno == blockno

abbrev pub unused : Buf → Bool
unused b = b.refcnt == 0 && not b.dirty

-- A loop of `bget` from `b` on along `next` or `prev`, in as many rounds at most.
unfoldable pub search_along : (ℕ → ℕ) → (ℕ → Bool) → ℕ → ℕ → Option ℕ
search_along step test zero b = none
search_along step test (suc k) b =
    let rest = search_along step test k (step b) in
    if b == head then none else if test b then some b else rest

abbrev pub recycled : ℕ → ℕ → Buf → Buf
recycled dev blockno b = record b {
  dev = dev;
  blockno = blockno;
  valid = false;
  dirty = false;
  refcnt = 1;
}

unfoldable pub bget : ℕ → ℕ → Cache → Result (ℕ × Cache)
bget dev blockno c =
    elim (search_along c.next (λ b. caches dev blockno (c.bufs b)) (suc nbuf) (c.next head)) [
      | some b ↦
          let buf = c.bufs b in
          ok (b, record c { bufs = update c.bufs b (record buf { refcnt = add32 buf.refcnt 1 }) })
      | none ↦ elim (search_along c.prev (λ b. unused (c.bufs b)) (suc nbuf) (c.prev head)) [
        | some b ↦ ok (b, record c { bufs = update c.bufs b (recycled dev blockno (c.bufs b)) })
        | none ↦ panic
      ]
    ]

-- `bread` after its `bget`, with what `iderw` makes of the buffer.
unfoldable pub bread_buf : (Buf → Buf) → Buf → Buf
bread_buf iderw b = if b.valid then b else iderw b

unfoldable pub bread : (Buf → Buf) → ℕ → ℕ → Cache → Result (ℕ × Cache)
bread iderw dev blockno c = elim (bget dev blockno c) [
  | panic ↦ panic
  | ok (b, c') ↦ ok (b, record c' { bufs = update c'.bufs b (bread_buf iderw (c'.bufs b)) })
]

-- By the process `pid`.
unfoldable pub bwrite : (Buf → Buf) → ℕ → ℕ → Cache → Result Cache
bwrite iderw pid b c =
    let buf = c.bufs b in
    if holdingsleep pid buf.lock
    then ok (record c { bufs = update c.bufs b (iderw (record buf { dirty = true })) })
    else panic

unfoldable pub brelse : ℕ → ℕ → Cache → Table → Result (Cache × Table)
brelse pid b c ps =
    let buf = c.bufs b in
    let (lock, ps') = releasesleep buf.lock ps in
    let left = sub32 buf.refcnt 1 in
    let c' = record c { bufs = update c.bufs b (record buf { lock = lock; refcnt = left }) } in
    if holdingsleep pid buf.lock
    then ok ((if left == 0 then push_front b (unlink b c') else c'), ps')
    else panic
