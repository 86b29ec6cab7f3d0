-- ===== src/Log/Settle.antt =====
-- The log that a completed `commit` of system/storage/log.c leaves is valid and empty.
use native.Mathlib.Decide.{dec_lt}
use dave.Common.{
  ℕ, ◌+◌, ◌-◌, ◌*◌, ◌<◌, ◌≤◌, ◌≡◌, inl, inr, refl, sym, ap, arith, false, get_or, length,
  Bool-cases,
}
use dave.Log.{Log, Store, write_log, install_trans}
use dave.Log.Replay.{InLog, IsHome, is_logged, is_logged-entry, is_logged-InLog}
use dave.Log.Copy.{
  install_from_view, install_from_clean, install_from_unpins, write_log_from_clean,
  write_log_from_frame,
}
use dave.Log.Header.{header-count, length-header, write_head_buf, write_head_disk, write_head_dirty}
use dave.Log.Phases.{
  IsValid, cleared, final, installed, headed, powers, home_installed, log_installed, dat,
  header_headed, start_logged, home_headed, holds, logged_store,
}

module _ (l : Log) (s : Store) (v : IsValid l s) where
  pub final_home : (h : ℕ) → IsHome l h → 0 < l.n → (final l s v).disk h ≡ (installed l s v).disk h
  final_home h out some_blocks =
      ground (arith, v.room, write_head_disk (cleared l s v) h (installed l s v))

  pub length-installed : l.n < s.power → length ((installed l s v).buf l.start) ≡ 128
  length-installed many = ground (
    arith,
    v.room,
    v.words,
    log_installed l s v many l.start,
    write_head_buf l l.start (logged_store l s v),
    length-header l ((logged_store l s v).buf l.start),
    start_logged l s v,
  )

  pub final_clear :
      l.n < s.power → 0 < (installed l s v).power → get_or ((final l s v).disk l.start) 0 0 ≡ 0
  final_clear many on = ground (
    arith,
    length-installed many,
    write_head_disk (cleared l s v) l.start (installed l s v),
    header-count (cleared l s v) ((installed l s v).buf l.start),
  )

  pub length-final_header :
      l.n < s.power → 0 < (installed l s v).power → length ((final l s v).disk l.start) ≡ 128
  length-final_header many on = ground (
    arith,
    length-installed many,
    write_head_disk (cleared l s v) l.start (installed l s v),
    length-header (cleared l s v) ((installed l s v).buf l.start),
  )

  -- Every pin is gone.
  final_unpinned : (b : ℕ) → (final l s v).dirty b ≡ false
  unfolding write_log install_trans
  final_unpinned b = elim (Bool-cases (is_logged l b l.n)) [
    | inl hit ↦
        let (i, lt, at) = is_logged-entry l l.n b hit in
        ground (
          arith,
          install_from_unpins l l.n 0 i (headed l s v),
          write_head_dirty (cleared l s v) b (installed l s v),
        )
    | inr miss ↦ ground (
      arith,
      v.pinned b,
      write_log_from_clean l l.n 0 b s,
      write_head_dirty l b (logged_store l s v),
      install_from_clean l l.n 0 b (headed l s v),
      write_head_dirty (cleared l s v) b (installed l s v),
    )
  ]

  module _ (all : 2 * l.n + 2 ≤ s.power) (full : 0 < l.n) where
    home_buf : (b : ℕ) → IsHome l b → (installed l s v).buf b ≡ s.buf b
    unfolding install_trans
    home_buf b out =
        install_from_view l (dat l s v) v.home s.buf l.n 0 b (headed l s v) v.room (omega arith)
          (holds l s v) (λ i lt. refl) (λ c oc. (home_headed l s v c oc).0) out

    -- A log block behind the header.
    log_synced :
        (b : ℕ) → InLog l b → l.start < b → (installed l s v).buf b ≡ (installed l s v).disk b
    unfolding write_log
    log_synced b inside behind = elim (dec_lt (b - l.start - 1) l.n) [
      | yes lt ↦
          let e : l.start + (b - l.start - 1) + 1 ≡ b = omega arith in
          ground (
            arith,
            e,
            log_installed l s v (omega arith) b,
            holds l s v (b - l.start - 1) lt,
            (header_headed l s v (omega arith)).2 (b - l.start - 1) lt,
          )
      | no ge ↦ ground (
        arith,
        log_installed l s v (omega arith) b,
        write_head_buf l b (logged_store l s v),
        write_head_disk l b (logged_store l s v),
        write_log_from_frame l l.n 0 b s,
        v.synced b,
        is_logged-InLog l l.n b v.home,
      )
    ]

    final_synced : (b : ℕ) → (final l s v).buf b ≡ (final l s v).disk b
    final_synced b = elim (dec_lt b l.start) [
      | yes before ↦ at_home (inl before)
      | no ge ↦ elim (dec_lt b (l.start + l.size)) [
        | no after ↦ at_home (inr (omega arith))
        | yes inside ↦ ground (
          arith,
          powers l s v,
          v.room,
          log_synced b,
          write_head_buf (cleared l s v) b (installed l s v),
          write_head_disk (cleared l s v) b (installed l s v),
        )
      ]
    ]
      where
        at_home : IsHome l b → (final l s v).buf b ≡ (final l s v).disk b
        at_home out = ground (
          arith,
          v.room,
          final_home b out full,
          home_installed l s v (omega arith) (omega arith) b out,
          home_buf b out,
          write_head_buf (cleared l s v) b (installed l s v),
        )

    pub final-IsValid : IsValid (cleared l s v) (final l s v)
    final-IsValid = record {
      room = omega (arith, v.room);
      fits = omega arith;
      entries = v.entries;
      words = ground (
        arith,
        length-installed (omega arith),
        write_head_buf (cleared l s v) l.start (installed l s v),
        length-header (cleared l s v) ((installed l s v).buf l.start),
      );
      home = λ i lt. absurd (omega arith);
      clear = final_clear (omega arith) (omega (arith, powers l s v));
      synced = λ b miss. final_synced b;
      pinned = final_unpinned;
    }

  pub idle : l.n ≡ 0 → ((h : ℕ) → IsHome l h → s.disk h ≡ s.buf h) × (l.n ≡ 0) × IsValid l s
  idle e = (λ h out. sym (v.synced h (ap (is_logged l h) e)), e, v)
