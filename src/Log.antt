-- ===== src/Log.antt =====
-- system/storage/log.c, the redo log, over the disk and the buffers that bio.c gives it.
-- A store has the disk, what a `bread` of each block returns (`buf`), which buffers are pinned by
-- B_DIRTY, and the number of disk writes left before the machine stops.
pub mod Replay
pub mod Copy
pub mod Header
pub mod Phases
pub mod Settle
pub mod Commit
pub mod Recover
pub mod Boot
pub mod Absorb
pub mod Shares
pub mod Reserve
mod Examples
use dave.Common.{
  ℕ, zero, suc, ◌+◌, ◌-◌, ◌*◌, ◌%◌, Bool, true, false, ◌||◌, ◌&&◌, not, List, Option, none, some,
  add32, sub32, word_size, is_negative, if◌then◌else◌, ◌==◌, ltb, leb, update, get_or, set, Result,
  ok, panic,
}

abbrev pub maxopblocks : ℕ
maxopblocks = 10

abbrev pub logsize : ℕ
logsize = maxopblocks * 3

-- 512 bytes, read as 128 words of 32 bits.
abbrev pub Block : Type 0
Block = List ℕ

pub record Store : Type 0 where
  pub disk : ℕ → Block
  pub buf : ℕ → Block
  pub dirty : ℕ → Bool
  pub power : ℕ

-- The contents of a buffer are replaced; the disk is not touched.
abbrev pub set_data : ℕ → Block → Store → Store
set_data b v s = record s { buf = update s.buf b v }

-- `iderw` on a dirty buffer writes it and clears B_DIRTY. Without power nothing reaches the disk.
unfoldable pub bwrite : ℕ → Store → Store
bwrite b s = record s {
  disk = if s.power == 0 then s.disk else update s.disk b (s.buf b);
  dirty = update s.dirty b false;
  power = s.power - 1;
}

-- The header in memory is `n` and `block`.
pub record Log : Type 0 where
  pub start : ℕ
  pub size : ℕ
  pub dev : ℕ
  pub outstanding : ℕ
  pub committing : Bool
  pub n : ℕ
  pub block : List ℕ

abbrev pub logged : Log → ℕ → ℕ
logged l t = get_or l.block t 0

-- `memmove` of one buffer's data into another, then `bwrite`.
unfoldable pub copy_block : ℕ → ℕ → Store → Store
unfolding bwrite
copy_block src dst s = bwrite dst (set_data dst (s.buf src) s)

-- The loop of `install_trans`, with `k` rounds left at `tail`.
unfoldable pub install_from : Log → ℕ → ℕ → Store → Store
install_from l zero tail s = s
install_from l (suc k) tail s =
    install_from l k (suc tail) (copy_block (l.start + tail + 1) (logged l tail) s)

unfoldable pub install_trans : Log → Store → Store
install_trans l s = install_from l l.n 0 s

-- The loop of `write_log`.
unfoldable pub write_log_from : Log → ℕ → ℕ → Store → Store
write_log_from l zero tail s = s
write_log_from l (suc k) tail s =
    write_log_from l k (suc tail) (copy_block (logged l tail) (l.start + tail + 1) s)

unfoldable pub write_log : Log → Store → Store
write_log l s = write_log_from l l.n 0 s

-- The copying loops of `read_head` and `write_head`, with `k` rounds left at `i`.
unfoldable pub load_words : ℕ → ℕ → Block → List ℕ → List ℕ
load_words zero i src block = block
load_words (suc k) i src block = load_words k (suc i) src (set block i (get_or src (suc i) 0))

unfoldable pub store_words : ℕ → ℕ → List ℕ → Block → Block
store_words zero i block dst = dst
store_words (suc k) i block dst = store_words k (suc i) block (set dst (suc i) (get_or block i 0))

unfoldable pub read_head : Log → Store → Log
read_head l s =
    let src = s.buf l.start in
    record l { n = get_or src 0 0; block = load_words (get_or src 0 0) 0 src l.block }

abbrev pub header : Log → Block → Block
header l dst = store_words l.n 0 l.block (set dst 0 l.n)

unfoldable pub write_head : Log → Store → Store
unfolding bwrite
write_head l s = bwrite l.start (set_data l.start (header l (s.buf l.start)) s)

unfoldable pub recover_from_log : Log → Store → Log × Store
recover_from_log l s =
    let l' = read_head l s in
    let done = record l' { n = 0 } in (done, write_head done (install_trans l' s))

unfoldable pub commit : Log → Store → Log × Store
commit l s =
    if ltb 0 l.n
    then (let done = record l { n = 0 } in
        (done, write_head done (install_trans l (write_head l (write_log l s)))))
    else (l, s)

-- One round of `begin_op`: `none` when the caller has to sleep on the log. `need` is an `int`.
unfoldable pub begin_op : Log → Option Log
begin_op l =
    let need = (l.n + add32 l.outstanding 1 * maxopblocks) % word_size in
    if l.committing
    then none
    else if ltb logsize need && not (is_negative need)
    then none
    else some (record l { outstanding = add32 l.outstanding 1 })

-- `end_op` up to its first release of the lock: the new log, and whether this call commits.
unfoldable pub end_op_enter : Log → Result (Log × Bool)
end_op_enter l =
    let m = record l { outstanding = sub32 l.outstanding 1 } in
    if m.committing
    then panic
    else if m.outstanding == 0
    then ok (record m { committing = true }, true)
    else ok (m, false)

unfoldable pub end_op_finish : Store → Result (Log × Bool) → Result (Log × Store)
end_op_finish s panic = panic
end_op_finish s (ok (m, false)) = ok (m, s)
end_op_finish s (ok (m, true)) =
    let (m', s') = commit m s in ok (record m' { committing = false }, s')

-- The whole of `end_op` on the log and the store.
unfoldable pub end_op : Log → Store → Result (Log × Store)
unfolding end_op_enter end_op_finish
end_op l s = end_op_finish s (end_op_enter l)

-- The search of `log_write` for the block, with `k` entries left from `i` on.
unfoldable pub absorb : List ℕ → ℕ → ℕ → ℕ → ℕ
absorb block b zero i = i
absorb block b (suc k) i =
    let rest = absorb block b k (suc i) in if get_or block i 0 == b then i else rest

unfoldable pub log_write : ℕ → Log → Store → Result (Log × Store)
log_write b l s =
    let i = absorb l.block b l.n 0 in
    let l' = record l { block = set l.block i b; n = if i == l.n then l.n + 1 else l.n } in
    if leb logsize l.n || leb (l.size - 1) l.n
    then panic
    else if ltb l.outstanding 1 || is_negative l.outstanding
    then panic
    else ok (l', record s { dirty = update s.dirty b true })
