-- ===== src/Memlayout.antt =====
-- include/memlayout.h and the page arithmetic of include/mmu.h, on words of 32 bits.
use dave.Common.{ℕ, ◌*◌, ◌/◌, add32, sub32}

abbrev pub pgsize : ℕ
pgsize = 4096

abbrev pub kernbase : ℕ
kernbase = 0x80000000

abbrev pub phystop : ℕ
phystop = 0xE000000

abbrev pub v2p : ℕ → ℕ
v2p a = sub32 a kernbase

abbrev pub p2v : ℕ → ℕ
p2v a = add32 a kernbase

-- `& ~(PGSIZE-1)` clears the low 12 bits.
abbrev pub page_round_down : ℕ → ℕ
page_round_down a = a / pgsize * pgsize

abbrev pub page_round_up : ℕ → ℕ
page_round_up a = page_round_down (add32 a 4095)
