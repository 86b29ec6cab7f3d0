-- ===== src/Log/Header.antt =====
-- The header block: what `write_head` puts in it and what `read_head` takes out of it.
use dave.Common.{
  ℕ, zero, suc, ◌+◌, ◌-◌, ◌<◌, ◌≤◌, ◌≡◌, refl, ◌∙◌, arith, if◌then◌else◌, ◌==◌, List, update, false,
  get_or, set, length, length-set, get_or-set_self, get_or-set_ne,
}
use dave.Log.{Block, Log, Store, logged, load_words, store_words, write_head, header}

pub length-store_words :
    (k i : ℕ) (block : List ℕ) (dst : Block) → length (store_words k i block dst) ≡ length dst
unfolding store_words
length-store_words zero i block dst = refl
length-store_words (suc k) i block dst =
    length-store_words k (suc i) block (set dst (suc i) (get_or block i 0))
    ∙ length-set dst (suc i) (get_or block i 0)

store_words_below :
    (k i j : ℕ) (block : List ℕ) (dst : Block)
    → j ≤ i
    → get_or (store_words k i block dst) j 0 ≡ get_or dst j 0
unfolding store_words
store_words_below zero i j block dst le = refl
store_words_below (suc k) i j block dst le =
    store_words_below k (suc i) j block (set dst (suc i) (get_or block i 0)) (omega arith)
    ∙ get_or-set_ne dst (suc i) j (get_or block i 0) 0 (omega arith)

store_words_at :
    (k i j : ℕ) (block : List ℕ) (dst : Block)
    → i ≤ j
    → j < i + k
    → i + k < length dst
    → get_or (store_words k i block dst) (suc j) 0 ≡ get_or block j 0
unfolding store_words
store_words_at zero i j block dst lo hi room = absurd (omega arith)
store_words_at (suc k) i j block dst lo hi room = ground (
  arith,
  store_words_at k (suc i) j block (set dst (suc i) (get_or block i 0)),
  store_words_below k (suc i) (suc j) block (set dst (suc i) (get_or block i 0)),
  length-set dst (suc i) (get_or block i 0),
  get_or-set_self dst (suc j) (get_or block j 0) 0,
)

load_words_below :
    (k i j : ℕ) (src : Block) (block : List ℕ)
    → j < i
    → get_or (load_words k i src block) j 0 ≡ get_or block j 0
unfolding load_words
load_words_below zero i j src block lt = refl
load_words_below (suc k) i j src block lt =
    load_words_below k (suc i) j src (set block i (get_or src (suc i) 0)) (omega arith)
    ∙ get_or-set_ne block i j (get_or src (suc i) 0) 0 (omega arith)

pub length-load_words :
    (k i : ℕ) (src : Block) (block : List ℕ) → length (load_words k i src block) ≡ length block
unfolding load_words
length-load_words zero i src block = refl
length-load_words (suc k) i src block =
    length-load_words k (suc i) src (set block i (get_or src (suc i) 0))
    ∙ length-set block i (get_or src (suc i) 0)

pub load_words_at :
    (k i j : ℕ) (src : Block) (block : List ℕ)
    → i ≤ j
    → j < i + k
    → i + k ≤ length block
    → get_or (load_words k i src block) j 0 ≡ get_or src (suc j) 0
unfolding load_words
load_words_at zero i j src block lo hi room = absurd (omega arith)
load_words_at (suc k) i j src block lo hi room = ground (
  arith,
  load_words_at k (suc i) j src (set block i (get_or src (suc i) 0)),
  load_words_below k (suc i) j src (set block i (get_or src (suc i) 0)),
  length-set block i (get_or src (suc i) 0),
  get_or-set_self block j (get_or src (suc j) 0) 0,
)

-- The header block holds the count and the entries.
pub header-count : (l : Log) (dst : Block) → 0 < length dst → get_or (header l dst) 0 0 ≡ l.n
header-count l dst room =
    store_words_below l.n 0 0 l.block (set dst 0 l.n) (omega arith)
    ∙ get_or-set_self dst 0 l.n 0 room

pub header-entry :
    (l : Log) (dst : Block) (i : ℕ)
    → l.n < length dst
    → i < l.n
    → get_or (header l dst) (suc i) 0 ≡ logged l i
header-entry l dst i room lt =
    store_words_at l.n 0 i l.block (set dst 0 l.n) (omega arith) (omega arith)
      (omega (arith, length-set dst 0 l.n))

pub length-header : (l : Log) (dst : Block) → length (header l dst) ≡ length dst
length-header l dst = length-store_words l.n 0 l.block (set dst 0 l.n) ∙ length-set dst 0 l.n

pub write_head_buf :
    (l : Log) (b : ℕ) (s : Store)
    → (write_head l s).buf b ≡ update s.buf l.start (header l (s.buf l.start)) b
unfolding write_head
write_head_buf l b s = refl

pub write_head_disk :
    (l : Log) (b : ℕ) (s : Store)
    → (write_head l s).disk b
      ≡ (if s.power == 0 then s.disk b else update s.disk l.start (header l (s.buf l.start)) b)
unfolding write_head
write_head_disk l b s = ground arith

pub write_head_dirty :
    (l : Log) (b : ℕ) (s : Store) → (write_head l s).dirty b ≡ update s.dirty l.start false b
unfolding write_head
write_head_dirty l b s = refl

pub write_head_power : (l : Log) (s : Store) → (write_head l s).power ≡ s.power - 1
unfolding write_head
write_head_power l s = refl
