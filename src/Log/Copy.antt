-- ===== src/Log/Copy.antt =====
-- The two copying loops of a commit, block by block.
use dave.Common.{
  ℕ, zero, suc, ◌+◌, ◌-◌, ◌<◌, ◌≤◌, ◌≡◌, ◌⊎◌, refl, ◌∙◌, ap, arith, if◌then◌else◌, ◌==◌, update,
  false,
}
use dave.Log.{Block, Log, Store, logged, copy_block, install_from, write_log_from}
use dave.Log.Replay.{replay, replay-update, InLog, IsHome}

-- What one copy does.
pub copy_block_buf :
    (src dst b : ℕ) (s : Store) → (copy_block src dst s).buf b ≡ update s.buf dst (s.buf src) b
unfolding copy_block
copy_block_buf src dst b s = refl

pub copy_block_disk :
    (src dst b : ℕ) (s : Store)
    → (copy_block src dst s).disk b
      ≡ (if s.power == 0 then s.disk b else update s.disk dst (s.buf src) b)
unfolding copy_block
copy_block_disk src dst b s = ground arith

pub copy_block_dirty :
    (src dst b : ℕ) (s : Store) → (copy_block src dst s).dirty b ≡ update s.dirty dst false b
unfolding copy_block
copy_block_dirty src dst b s = refl

pub copy_block_power : (src dst : ℕ) (s : Store) → (copy_block src dst s).power ≡ s.power - 1
unfolding copy_block
copy_block_power src dst s = refl

pub write_log_from_power :
    (l : Log) (k t : ℕ) (s : Store) → (write_log_from l k t s).power ≡ s.power - k
unfolding write_log_from
write_log_from_power l zero t s = omega arith
write_log_from_power l (suc k) t s =
    let c = copy_block (logged l t) (l.start + t + 1) s in
    omega
      (arith, write_log_from_power l k (suc t) c, copy_block_power (logged l t) (l.start + t + 1) s)

pub install_from_power :
    (l : Log) (k t : ℕ) (s : Store) → (install_from l k t s).power ≡ s.power - k
unfolding install_from
install_from_power l zero t s = omega arith
install_from_power l (suc k) t s =
    let c = copy_block (l.start + t + 1) (logged l t) s in
    omega
      (arith, install_from_power l k (suc t) c, copy_block_power (l.start + t + 1) (logged l t) s)

-- `write_log` changes only the blocks behind the header that it fills.
pub write_log_from_frame :
    (l : Log) (k t b : ℕ) (s : Store)
    → (b ≤ l.start + t) ⊎ (l.start + t + k < b)
    → ((write_log_from l k t s).buf b ≡ s.buf b)
      × ((write_log_from l k t s).disk b ≡ s.disk b)
      × ((write_log_from l k t s).dirty b ≡ s.dirty b)
unfolding write_log_from
write_log_from_frame l zero t b s out = (refl, refl, refl)
write_log_from_frame l (suc k) t b s out =
    let c = copy_block (logged l t) (l.start + t + 1) s in
    ground (
      arith,
      write_log_from_frame l k (suc t) b c,
      copy_block_buf (logged l t) (l.start + t + 1) b s,
      copy_block_disk (logged l t) (l.start + t + 1) b s,
      copy_block_dirty (logged l t) (l.start + t + 1) b s,
    )

-- It puts the buffer of each entry's block behind the header, and on the disk while power lasts.
pub write_log_from_data :
    (l : Log) (k t i : ℕ) (s : Store)
    → ((j : ℕ) → j < t + k → IsHome l (logged l j))
    → t + k < l.size
    → t ≤ i
    → i < t + k
    → ((write_log_from l k t s).buf (l.start + i + 1) ≡ s.buf (logged l i))
      × (k ≤ s.power → (write_log_from l k t s).disk (l.start + i + 1) ≡ s.buf (logged l i))
unfolding write_log_from
write_log_from_data l zero t i s home room lo hi = absurd (omega arith)
write_log_from_data l (suc k) t i s home room lo hi =
    let c = copy_block (logged l t) (l.start + t + 1) s in
    ground (
      arith,
      home i,
      write_log_from_data l k (suc t) i c (λ j lt. home j (omega arith)),
      write_log_from_frame l k (suc t) (l.start + i + 1) c,
      copy_block_power (logged l t) (l.start + t + 1) s,
      copy_block_buf (logged l t) (l.start + t + 1) (l.start + i + 1) s,
      copy_block_buf (logged l t) (l.start + t + 1) (logged l i) s,
      copy_block_disk (logged l t) (l.start + t + 1) (l.start + i + 1) s,
    )

module _ (l : Log) (dat : ℕ → Block) (home : (i : ℕ) → i < l.n → IsHome l (logged l i)) where
  -- `install_trans` leaves the log alone.
  pub install_from_log :
      (k t b : ℕ) (s : Store)
      → t + k ≤ l.n
      → InLog l b
      → ((install_from l k t s).buf b ≡ s.buf b)
        × ((install_from l k t s).disk b ≡ s.disk b)
        × ((install_from l k t s).dirty b ≡ s.dirty b)
  unfolding install_from
  install_from_log zero t b s le inside = (refl, refl, refl)
  install_from_log (suc k) t b s le inside =
      let c = copy_block (l.start + t + 1) (logged l t) s in
      ground (
        arith,
        home t,
        install_from_log k (suc t) b c,
        copy_block_buf (l.start + t + 1) (logged l t) b s,
        copy_block_disk (l.start + t + 1) (logged l t) b s,
        copy_block_dirty (l.start + t + 1) (logged l t) b s,
      )

  -- What each entry has to install.
  abbrev pub Holds : Store → Type 0
  Holds s = (i : ℕ) → i < l.n → s.buf (l.start + i + 1) ≡ dat i

  pub copy_block-Holds :
      (t : ℕ) (s : Store)
      → l.n < l.size
      → t < l.n
      → Holds s
      → Holds (copy_block (l.start + t + 1) (logged l t) s)
  copy_block-Holds t s room lt h i li =
      ground (arith, home t, h i, copy_block_buf (l.start + t + 1) (logged l t) (l.start + i + 1) s)

  -- A stop in the middle changes nothing that a replay gives.
  pub replay-install_from :
      (k t h : ℕ) (s : Store)
      → l.n < l.size
      → t + k ≤ l.n
      → Holds s
      → replay (install_from l k t s).disk (logged l) dat l.n h ≡ replay s.disk (logged l) dat l.n h
  unfolding install_from copy_block
  replay-install_from zero t h s room le holds = refl
  replay-install_from (suc k) t h s room le holds =
      let c = copy_block (l.start + t + 1) (logged l t) s in
      ground (
        arith,
        replay-install_from k (suc t) h c room (omega arith)
            (copy_block-Holds t s room (omega arith) holds),
        replay-update s.disk (logged l) dat l.n t h (s.buf (l.start + t + 1)),
      )

  -- With power to the end, the disk becomes what the replay gives.
  pub install_from_disk :
      (base : ℕ → Block) (k t h : ℕ) (s : Store)
      → l.n < l.size
      → t + k ≤ l.n
      → k ≤ s.power
      → Holds s
      → ((b : ℕ) → s.disk b ≡ replay base (logged l) dat t b)
      → (install_from l k t s).disk h ≡ replay base (logged l) dat (t + k) h
  unfolding install_from
  install_from_disk base zero t h s room le pw holds eq =
      eq h ∙ ap (λ m. replay base (logged l) dat m h) (omega arith)
  install_from_disk base (suc k) t h s room le pw holds eq =
      install_from_disk base k (suc t) h (copy_block (l.start + t + 1) (logged l t) s) room
        (omega arith) (omega (arith, copy_block_power (l.start + t + 1) (logged l t) s))
        (copy_block-Holds t s room (omega arith) holds)
        (λ b. ground (arith, eq b, holds t, copy_block_disk (l.start + t + 1) (logged l t) b s))
      ∙ ap (λ m. replay base (logged l) dat m h) (omega arith)

  -- The buffers that the entries name get their data; a view that has it already keeps it.
  pub install_from_view :
      (view : ℕ → Block) (k t b : ℕ) (s : Store)
      → l.n < l.size
      → t + k ≤ l.n
      → Holds s
      → ((i : ℕ) → i < l.n → view (logged l i) ≡ dat i)
      → ((c : ℕ) → IsHome l c → s.buf c ≡ view c)
      → IsHome l b
      → (install_from l k t s).buf b ≡ view b
  unfolding install_from
  install_from_view view zero t b s room le holds named eq out = eq b out
  install_from_view view (suc k) t b s room le holds named eq out =
      install_from_view view k (suc t) b (copy_block (l.start + t + 1) (logged l t) s) room
        (omega arith) (copy_block-Holds t s room (omega arith) holds) named
        (λ c oc.
          ground (arith, eq c, holds t, named t, copy_block_buf (l.start + t + 1) (logged l t) c s))
        out

-- A buffer without a pin gets none.
pub install_from_clean :
    (l : Log) (k t b : ℕ) (s : Store) → s.dirty b ≡ false → (install_from l k t s).dirty b ≡ false
unfolding install_from
install_from_clean l zero t b s e = e
install_from_clean l (suc k) t b s e =
    install_from_clean l k (suc t) b (copy_block (l.start + t + 1) (logged l t) s)
      (ground (arith, copy_block_dirty (l.start + t + 1) (logged l t) b s))

-- The pins of the installed blocks are gone.
pub install_from_unpins :
    (l : Log) (k t i : ℕ) (s : Store)
    → t ≤ i
    → i < t + k
    → (install_from l k t s).dirty (logged l i) ≡ false
unfolding install_from
install_from_unpins l zero t i s lo hi = absurd (omega arith)
install_from_unpins l (suc k) t i s lo hi =
    let c = copy_block (l.start + t + 1) (logged l t) s in
    ground (
      arith,
      install_from_unpins l k (suc t) i c,
      install_from_clean l k (suc t) (logged l i) c,
      copy_block_dirty (l.start + t + 1) (logged l t) (logged l i) s,
    )

pub write_log_from_clean :
    (l : Log) (k t b : ℕ) (s : Store) → s.dirty b ≡ false → (write_log_from l k t s).dirty b ≡ false
unfolding write_log_from
write_log_from_clean l zero t b s e = e
write_log_from_clean l (suc k) t b s e =
    write_log_from_clean l k (suc t) b (copy_block (logged l t) (l.start + t + 1) s)
      (ground (arith, copy_block_dirty (logged l t) (l.start + t + 1) b s))
