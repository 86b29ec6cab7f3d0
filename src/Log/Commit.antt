-- ===== src/Log/Commit.antt =====
-- `commit` of system/storage/log.c stopped by a power failure after any number of disk writes.
use dave.Common.{
  ℕ, suc, ◌+◌, ◌*◌, ◌<◌, ◌≤◌, ◌≡◌, ◌⊎◌, inl, inr, refl, ◌∙◌, sym, ap, subst, arith, ◌==◌, get_or,
  length, Bool-cases, ==_iff,
}
use native.Mathlib.Decide.{dec_lt}
use dave.Log.{Block, Log, Store, logged, write_head, install_trans, commit}
use dave.Log.Replay.{logical, IsHome, is_logged-InLog, logical-clear}
use dave.Log.Header.{length-header, write_head_disk}
use dave.Log.Settle.{final_home, final_clear, length-final_header, final-IsValid, idle}
use dave.Log.Recover.{IsBootable}
use dave.Log.Phases.{
  IsValid, cleared, final, installed, headed, powers, early, late_installed, home_installed,
  log_installed, header_headed, start_logged, logged_store, install_from_off,
}

module _ (l : Log) (s : Store) (v : IsValid l s) where
  open_commit : 0 < l.n → commit l s ≡ (cleared l s v, final l s v)
  unfolding commit
  open_commit some_blocks = ground arith

  idle_commit : l.n ≡ 0 → commit l s ≡ (l, s)
  unfolding commit
  idle_commit none_logged = ground arith

  -- The header that `write_head` clears at the end.
  final_off : (installed l s v).power ≡ 0 → (final l s v).disk ≡ (installed l s v).disk
  unfolding write_head
  final_off off = ground arith

  late :
      l.n < s.power
      → 0 < l.n
      → (h : ℕ) → IsHome l h
      → logical l.start (final l s v).disk h ≡ s.buf h
  late many some_blocks h out = elim (Bool-cases ((installed l s v).power == 0)) [
    | inl off ↦
        ap (λ d. logical l.start d h) (final_off ((==_iff _ 0).0 off))
        ∙ late_installed l s v many h out
    | inr on ↦
        logical-clear l.start (final l s v).disk h (final_clear l s v many (ground arith))
        ∙ final_home l s v h out some_blocks
        ∙ home_installed l s v many (ground (arith, powers l s v)) h out
  ]

  -- Wherever the power fails, the disk is one that a recovery can start from.
  early_header : s.power ≤ l.n → (final l s v).disk l.start ≡ s.disk l.start
  unfolding install_trans
  early_header few = ground (
    arith,
    powers l s v,
    start_logged l s v,
    write_head_disk (cleared l s v) l.start (installed l s v),
    install_from_off l l.n 0 l.start (headed l s v),
    write_head_disk l l.start (logged_store l s v),
  )

  IsBootable-clear :
      (d : ℕ → Block) → get_or (d l.start) 0 0 ≡ 0 → length (d l.start) ≡ 128 → IsBootable l d
  IsBootable-clear d count words = record {
    room = omega (arith, v.room, count);
    fits = omega (arith, count);
    words = words;
    home = λ i lt. absurd (omega (arith, count));
  }

  length_start : length (s.disk l.start) ≡ 128
  length_start =
      ap length
        (sym (v.synced l.start (is_logged-InLog l l.n l.start v.home (omega (arith, v.room)))))
      ∙ v.words

  IsBootable-installed : l.n < s.power → IsBootable l (installed l s v).disk
  IsBootable-installed many = record {
    room = omega (arith, v.room, count);
    fits = omega (arith, v.fits, count);
    words = ground (
      arith,
      same,
      powers l s v,
      v.words,
      start_logged l s v,
      write_head_disk l l.start (logged_store l s v),
      length-header l ((logged_store l s v).buf l.start),
    );
    home = λ i lt.
        subst (IsHome l) (sym (ap (λ w. get_or w (suc i) 0) same ∙ head.1 i (omega (arith, count))))
          (v.home i (omega (arith, count)));
  }
    where
      head :
          (get_or ((headed l s v).disk l.start) 0 0 ≡ l.n)
          × ((i : ℕ) → i < l.n → get_or ((headed l s v).disk l.start) (suc i) 0 ≡ logged l i)
      head = ((header_headed l s v many).0, (header_headed l s v many).1)

      same : (installed l s v).disk l.start ≡ (headed l s v).disk l.start
      same = (log_installed l s v many l.start (omega (arith, v.room))).1

      count : get_or ((installed l s v).disk l.start) 0 0 ≡ l.n
      count = ap (λ w. get_or w 0 0) same ∙ head.0

  IsBootable-final : IsBootable l (final l s v).disk
  IsBootable-final = elim (dec_lt l.n s.power) [
    | no few ↦
        IsBootable-clear (final l s v).disk
          (ap (λ w. get_or w 0 0) (early_header (omega arith)) ∙ v.clear)
          (ap length (early_header (omega arith)) ∙ length_start)
    | yes many ↦ elim (dec_lt 0 (installed l s v).power) [
      | no off ↦ subst (IsBootable l) (sym (final_off (omega arith))) (IsBootable-installed many)
      | yes on ↦
          IsBootable-clear (final l s v).disk (final_clear l s v many on)
            (length-final_header l s v many on)
    ]
  ]

-- A commit stopped anywhere leaves a disk that a recovery can start from.
pub commit-IsBootable : (l : Log) (s : Store) → IsValid l s → IsBootable l (commit l s).1.disk
commit-IsBootable l s v = elim (dec_lt 0 l.n) [
  | no empty ↦
      rw (idle_commit l s v (omega arith))
        (IsBootable-clear l s v s.disk v.clear (length_start l s v))
  | yes full ↦ rw (open_commit l s v full) (IsBootable-final l s v)
]

-- However many disk writes a commit makes before the power fails, what a recovery then reads at
-- every block outside the log is the contents from before the transaction, or at every such block
-- what the buffers held when the commit began.
pub commit_atomic :
    (l : Log) (s : Store)
    → IsValid l s
    → ((h : ℕ) → IsHome l h → logical l.start (commit l s).1.disk h ≡ s.disk h)
      ⊎ ((h : ℕ) → IsHome l h → logical l.start (commit l s).1.disk h ≡ s.buf h)
commit_atomic l s v = elim (dec_lt 0 l.n) [
  | no empty ↦ inl (λ h out.
      ap (λ r. logical l.start r.1.disk h) (idle_commit l s v (omega arith))
      ∙ logical-clear l.start s.disk h v.clear)
  | yes full ↦ elim (dec_lt l.n s.power) [
    | no few ↦ inl (λ h out.
        ap (λ r. logical l.start r.1.disk h) (open_commit l s v full)
        ∙ early l s v (omega arith) h out)
    | yes many ↦ inr (λ h out.
        ap (λ r. logical l.start r.1.disk h) (open_commit l s v full) ∙ late l s v many full h out)
  ]
]

-- With power for all `2 * n + 2` writes, a commit from a valid log leaves every block outside the
-- log on the disk as the buffers had it, and the log valid and empty.
pub commit_installs :
    (l : Log) (s : Store)
    → IsValid l s
    → 2 * l.n + 2 ≤ s.power
    → ((h : ℕ) → IsHome l h → (commit l s).1.disk h ≡ s.buf h)
      × ((commit l s).0.n ≡ 0)
      × IsValid (commit l s).0 (commit l s).1
commit_installs l s v all = elim (dec_lt 0 l.n) [
  | no empty ↦ rw (idle_commit l s v (omega arith)) (idle l s v (omega arith))
  | yes full ↦ rw (open_commit l s v full) (
    λ h out. final_home l s v h out full ∙ home_installed l s v (omega arith) (omega arith) h out,
    refl,
    final-IsValid l s v all full,
  )
]
