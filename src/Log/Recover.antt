-- ===== src/Log/Recover.antt =====
-- The phases of `recover_from_log` of system/storage/log.c, with any power.
use native.Mathlib.Decide.{dec_lt}
use dave.Common.{
  ℕ, zero, suc, ◌+◌, ◌-◌, ◌<◌, ◌≤◌, ◌≡◌, refl, ◌∙◌, sym, ap, arith, false, get_or, length,
}
use dave.Log.{
  Block, Log, Store, logged, logsize, write_head, install_trans, install_from, read_head,
  recover_from_log, copy_block,
}
use dave.Log.Replay.{replay, logical, InLog, IsHome, logical-entries, logical-clear}
use dave.Log.Copy.{
  install_from_power, install_from_log, replay-install_from, install_from_disk, install_from_clean,
  copy_block_disk, copy_block_buf, copy_block_power,
}
use dave.Log.Header.{
  load_words_at, length-load_words, header-count, length-header, write_head_buf, write_head_disk,
  write_head_dirty,
}
use dave.Log.Phases.{IsValid}

-- The disk of a log that was written by this code.
pub record IsBootable (l : Log) (d : ℕ → Block) : Type 0 where
  pub room : get_or (d l.start) 0 0 < l.size
  pub fits : get_or (d l.start) 0 0 ≤ logsize
  pub words : length (d l.start) ≡ 128
  pub home : (i : ℕ) → i < get_or (d l.start) 0 0 → IsHome l (get_or (d l.start) (suc i) 0)

-- The machine starts anew: no buffer is kept, and `power` disk writes will be possible.
abbrev pub reboot : ℕ → Store → Store
reboot power s = record s { buf = s.disk; dirty = λ b. false; power = power }

-- While power lasts, buffers and disk stay the same.
install_from_synced :
    (l : Log) (k t b : ℕ) (s : Store)
    → k ≤ s.power
    → ((c : ℕ) → s.buf c ≡ s.disk c)
    → (install_from l k t s).buf b ≡ (install_from l k t s).disk b
unfolding install_from
install_from_synced l zero t b s pw eq = eq b
install_from_synced l (suc k) t b s pw eq =
    install_from_synced l k (suc t) b (copy_block (l.start + t + 1) (logged l t) s)
      (omega (arith, copy_block_power (l.start + t + 1) (logged l t) s))
      (λ c. ground (
        arith,
        eq c,
        copy_block_buf (l.start + t + 1) (logged l t) c s,
        copy_block_disk (l.start + t + 1) (logged l t) c s,
      ))

-- The phases of a recovery.
module _ (l : Log) (s : Store) (power : ℕ) (entries : length l.block ≡ logsize)
    (v : IsBootable l s.disk) where
  abbrev pub start_store : Store
  start_store = reboot power s

  abbrev pub loaded : Log
  loaded = read_head l start_store

  abbrev dat : ℕ → Block
  dat i = s.disk (l.start + i + 1)

  abbrev pub installed : Store
  installed = install_trans loaded start_store

  abbrev pub cleared : Log
  cleared = record loaded { n = 0 }

  abbrev pub final : Store
  final = write_head cleared installed

  loaded_fields :
      (loaded.n ≡ get_or (s.disk l.start) 0 0) × (loaded.start ≡ l.start) × (loaded.size ≡ l.size)
  unfolding read_head
  loaded_fields = (refl, refl, refl)

  loaded_entry : (i : ℕ) → i < loaded.n → logged loaded i ≡ get_or (s.disk l.start) (suc i) 0
  unfolding read_head
  loaded_entry i lt =
      load_words_at (get_or (s.disk l.start) 0 0) 0 i (s.disk l.start) l.block (omega arith)
        (omega arith) (omega (arith, v.fits))

  home : (i : ℕ) → i < loaded.n → IsHome loaded (logged loaded i)
  unfolding read_head
  home i lt = rw (loaded_entry i lt) (v.home i lt)

  room : loaded.n < loaded.size
  unfolding read_head
  room = v.room

  logical_start : (h : ℕ) → logical l.start s.disk h ≡ replay s.disk (logged loaded) dat loaded.n h
  unfolding read_head
  logical_start h =
      logical-entries loaded s.disk dat h refl (λ i lt. sym (loaded_entry i lt)) (λ i lt. refl)

  log_installed : (b : ℕ) → InLog l b → (installed.buf b ≡ s.disk b) × (installed.disk b ≡ s.disk b)
  unfolding install_trans read_head
  log_installed b inside =
      let f = install_from_log loaded dat home loaded.n 0 b start_store (omega arith) inside in
      (f.0, f.1)

  logical_installed : (h : ℕ) → logical l.start installed.disk h ≡ logical l.start s.disk h
  unfolding install_trans read_head
  logical_installed h =
      logical-entries loaded installed.disk dat h (ground (arith, v.room, log_installed l.start))
        (λ i lt. ground (arith, v.room, log_installed l.start, loaded_entry i lt))
        (λ i lt. ground (arith, v.room, log_installed (l.start + i + 1)))
      ∙ replay-install_from loaded dat home loaded.n 0 h start_store room (omega arith)
          (λ i lt. refl)
      ∙ sym (logical_start h)

  home_installed : loaded.n ≤ power → (h : ℕ) → installed.disk h ≡ logical l.start s.disk h
  unfolding install_trans read_head
  home_installed all h =
      install_from_disk loaded dat home s.disk loaded.n 0 h start_store room (omega arith) all
        (λ i lt. refl) (λ b. refl)
      ∙ ap (λ m. replay s.disk (logged loaded) dat m h) (omega arith)
      ∙ sym (logical_start h)

  installed_power : installed.power ≡ power - loaded.n
  unfolding install_trans
  installed_power = install_from_power loaded loaded.n 0 start_store

  length-installed : length (installed.buf l.start) ≡ 128
  length-installed = ground (arith, v.room, v.words, log_installed l.start)

  final_off : installed.power ≡ 0 → final.disk ≡ installed.disk
  unfolding write_head
  final_off off = ground arith

  final_home : (h : ℕ) → IsHome l h → final.disk h ≡ installed.disk h
  unfolding read_head
  final_home h out = ground (arith, v.room, write_head_disk cleared h installed)

  final_header :
      0 < installed.power
      → (get_or (final.disk l.start) 0 0 ≡ 0) × (length (final.disk l.start) ≡ 128)
  unfolding read_head
  final_header on = ground (
    arith,
    length-installed,
    write_head_disk cleared l.start installed,
    header-count cleared (installed.buf l.start),
    length-header cleared (installed.buf l.start),
  )

  pub recover_final : recover_from_log l start_store ≡ (cleared, final)
  unfolding recover_from_log
  recover_final = refl

  pub logical_final : (h : ℕ) → IsHome l h → logical l.start final.disk h ≡ logical l.start s.disk h
  logical_final h out = elim (dec_lt 0 installed.power) [
    | no off ↦ ap (λ d. logical l.start d h) (final_off (omega arith)) ∙ logical_installed h
    | yes on ↦
        logical-clear l.start final.disk h (final_header on).0
        ∙ final_home h out
        ∙ home_installed (omega (arith, installed_power)) h
  ]

  pub IsBootable-final : IsBootable l final.disk
  IsBootable-final = elim (dec_lt 0 installed.power) [
    | no off ↦ rw (final_off (omega arith)) IsBootable-installed
    | yes on ↦ record {
      room = omega (arith, v.room, (final_header on).0);
      fits = omega (arith, (final_header on).0);
      words = (final_header on).1;
      home = λ i lt. absurd (omega (arith, (final_header on).0));
    }
  ]
    where
      same : installed.disk l.start ≡ s.disk l.start
      same = (log_installed l.start (omega (arith, v.room))).1

      IsBootable-installed : IsBootable l installed.disk
      IsBootable-installed = record {
        room = rw same v.room;
        fits = rw same v.fits;
        words = rw same v.words;
        home = rw same v.home;
      }

  module _ (all : loaded.n < power) where
    pub home_final : (h : ℕ) → IsHome l h → final.disk h ≡ logical l.start s.disk h
    home_final h out = final_home h out ∙ home_installed (omega arith) h

    final_synced : (b : ℕ) → final.buf b ≡ final.disk b
    unfolding install_trans read_head
    final_synced b = ground (
      arith,
      installed_power,
      install_from_synced loaded loaded.n 0 b start_store,
      write_head_buf cleared b installed,
      write_head_disk cleared b installed,
    )

    final_unpinned : (b : ℕ) → final.dirty b ≡ false
    unfolding install_trans
    final_unpinned b = ground (
      arith,
      install_from_clean loaded loaded.n 0 b start_store refl,
      write_head_dirty cleared b installed,
    )

    pub final-IsValid : IsValid cleared final
    unfolding read_head
    final-IsValid = record {
      room = omega (arith, v.room);
      fits = omega arith;
      entries =
          length-load_words (get_or (s.disk l.start) 0 0) 0 (s.disk l.start) l.block ∙ entries;
      words = rw (final_synced l.start) (final_header (omega (arith, installed_power))).1;
      home = λ i lt. absurd (omega arith);
      clear = (final_header (omega (arith, installed_power))).0;
      synced = λ b miss. final_synced b;
      pinned = final_unpinned;
    }
