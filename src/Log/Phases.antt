-- ===== src/Log/Phases.antt =====
-- The four phases of `commit` in system/storage/log.c, from a valid log, with any power.
use dave.Common.{
  ℕ, zero, suc, ◌+◌, ◌-◌, ◌*◌, ◌<◌, ◌≤◌, ◌≡◌, inl, refl, ◌∙◌, ap, arith, false, get_or, length,
}
use dave.Log.{
  Block, Log, Store, logged, logsize, write_log, write_head, install_trans, install_from,
  copy_block,
}
use dave.Log.Replay.{
  replay, logical, InLog, IsHome, is_logged, replay_view, logical-entries, logical-clear,
}
use dave.Log.Copy.{
  copy_block_disk, copy_block_power, write_log_from_power, write_log_from_frame,
  write_log_from_data, install_from_power, install_from_log, replay-install_from, install_from_disk,
}
use dave.Log.Header.{
  header-count, header-entry, write_head_buf, write_head_disk, write_head_dirty, write_head_power,
}

-- The log between two calls of log.c, while no commit runs.
pub record IsValid (l : Log) (s : Store) : Type 0 where
  pub room : l.n < l.size
  pub fits : l.n ≤ logsize
  pub entries : length l.block ≡ logsize
  pub words : length (s.buf l.start) ≡ 128
  pub home : (i : ℕ) → i < l.n → IsHome l (logged l i)
  pub clear : get_or (s.disk l.start) 0 0 ≡ 0
  pub synced : (b : ℕ) → is_logged l b l.n ≡ false → s.buf b ≡ s.disk b
  pub pinned : (b : ℕ) → s.dirty b ≡ is_logged l b l.n

-- Without power nothing more reaches the disk.
pub install_from_off :
    (l : Log) (k t b : ℕ) (s : Store) → s.power ≡ 0 → (install_from l k t s).disk b ≡ s.disk b
unfolding install_from
install_from_off l zero t b s off = refl
install_from_off l (suc k) t b s off = ground (
  arith,
  install_from_off l k (suc t) b (copy_block (l.start + t + 1) (logged l t) s),
  copy_block_power (l.start + t + 1) (logged l t) s,
  copy_block_disk (l.start + t + 1) (logged l t) b s,
)

module _ (l : Log) (s : Store) (v : IsValid l s) where
  -- The data of the transaction.
  abbrev pub dat : ℕ → Block
  dat i = s.buf (logged l i)

  abbrev pub logged_store : Store
  logged_store = write_log l s

  abbrev pub headed : Store
  headed = write_head l logged_store

  abbrev pub installed : Store
  installed = install_trans l headed

  abbrev pub cleared : Log
  cleared = record l { n = 0 }

  abbrev pub final : Store
  final = write_head cleared installed

  pub powers :
      (logged_store.power ≡ s.power - l.n)
      × (headed.power ≡ s.power - l.n - 1)
      × (installed.power ≡ s.power - l.n - 1 - l.n)
  unfolding write_log install_trans
  powers = omega (
    arith,
    write_log_from_power l l.n 0 s,
    write_head_power l logged_store,
    install_from_power l l.n 0 headed,
  )

  pub start_logged :
      (logged_store.buf l.start ≡ s.buf l.start) × (logged_store.disk l.start ≡ s.disk l.start)
  unfolding write_log
  start_logged = let f = write_log_from_frame l l.n 0 l.start s (inl (omega arith)) in (f.0, f.1)

  pub home_logged :
      (h : ℕ)
      → IsHome l h
      → (logged_store.buf h ≡ s.buf h)
        × (logged_store.disk h ≡ s.disk h)
        × (logged_store.dirty h ≡ s.dirty h)
  unfolding write_log
  home_logged h out = ground (arith, v.room, write_log_from_frame l l.n 0 h s)

  pub entry_logged :
      (i : ℕ)
      → i < l.n
      → (logged_store.buf (l.start + i + 1) ≡ dat i)
        × (l.n ≤ s.power → logged_store.disk (l.start + i + 1) ≡ dat i)
  unfolding write_log
  entry_logged i lt =
      write_log_from_data l l.n 0 i s (λ j lj. v.home j (omega arith)) (omega (arith, v.room))
        (omega arith) (omega arith)

  -- The entries are home blocks, so none is the header or holds the log's data.
  pub holds : (i : ℕ) → i < l.n → headed.buf (l.start + i + 1) ≡ dat i
  holds i lt = ground (arith, entry_logged i lt, write_head_buf l (l.start + i + 1) logged_store)

  pub home_headed :
      (h : ℕ)
      → IsHome l h
      → (headed.buf h ≡ s.buf h) × (headed.disk h ≡ s.disk h) × (headed.dirty h ≡ s.dirty h)
  home_headed h out = ground (
    arith,
    v.room,
    home_logged h out,
    write_head_buf l h logged_store,
    write_head_disk l h logged_store,
    write_head_dirty l h logged_store,
  )

  replay_headed : (h : ℕ) → IsHome l h → replay headed.disk (logged l) dat l.n h ≡ s.buf h
  replay_headed h out =
      ground (arith, replay_view headed.disk s.buf l l.n h, home_headed h out, v.synced h)

  -- The power fails before the header is written: the disk has the old contents.
  pub early : s.power ≤ l.n → (h : ℕ) → IsHome l h → logical l.start final.disk h ≡ s.disk h
  unfolding install_trans
  early few h out =
      logical-clear l.start final.disk h (ground (arith, off l.start, start_logged, v.clear))
      ∙ ground (arith, off h, home_logged h out)
    where
      off : (b : ℕ) → final.disk b ≡ logged_store.disk b
      off b = ground (
        arith,
        powers,
        write_head_disk cleared b installed,
        install_from_off l l.n 0 b headed,
        write_head_disk l b logged_store,
      )

  -- Once the header is written, the disk has the new contents.
  module _ (many : l.n < s.power) where
    pub header_headed :
        (get_or (headed.disk l.start) 0 0 ≡ l.n)
        × ((i : ℕ) → i < l.n → get_or (headed.disk l.start) (suc i) 0 ≡ logged l i)
        × ((i : ℕ) → i < l.n → headed.disk (l.start + i + 1) ≡ dat i)
    header_headed = (
      ground (
        arith,
        powers,
        v.words,
        start_logged,
        write_head_disk l l.start logged_store,
        header-count l (logged_store.buf l.start),
      ),
      λ i lt. ground (
        arith,
        powers,
        v.words,
        v.fits,
        start_logged,
        write_head_disk l l.start logged_store,
        header-entry l (logged_store.buf l.start) i,
      ),
      λ i lt. ground (arith, entry_logged i lt, write_head_disk l (l.start + i + 1) logged_store),
    )

    pub log_installed :
        (b : ℕ) → InLog l b → (installed.buf b ≡ headed.buf b) × (installed.disk b ≡ headed.disk b)
    unfolding install_trans
    log_installed b inside =
        let f = install_from_log l dat v.home l.n 0 b headed (omega arith) inside in (f.0, f.1)

    pub late_installed : (h : ℕ) → IsHome l h → logical l.start installed.disk h ≡ s.buf h
    unfolding install_trans
    late_installed h out =
        logical-entries l installed.disk dat h
          (ground (arith, v.room, log_installed l.start, header_headed.0))
          (λ i lt. ground (arith, v.room, log_installed l.start, header_headed.1 i lt))
          (λ i lt. ground (arith, v.room, log_installed (l.start + i + 1), header_headed.2 i lt))
        ∙ replay-install_from l dat v.home l.n 0 h headed v.room (omega arith) holds
        ∙ replay_headed h out

    -- With power for every write, the blocks are installed.
    pub home_installed : 2 * l.n + 1 ≤ s.power → (h : ℕ) → IsHome l h → installed.disk h ≡ s.buf h
    unfolding install_trans
    home_installed all h out =
        install_from_disk l dat v.home headed.disk l.n 0 h headed v.room (omega arith)
          (omega (arith, powers)) holds (λ b. refl)
        ∙ ap (λ m. replay headed.disk (logged l) dat m h) (omega arith)
        ∙ replay_headed h out
