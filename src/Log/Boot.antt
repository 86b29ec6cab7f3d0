-- ===== src/Log/Boot.antt =====
-- `recover_from_log` of system/storage/log.c, also when it is itself stopped by a power failure,
-- and a whole crash: a commit, a power failure in it, and the recovery.
use dave.Common.{ℕ, ◌<◌, ◌≡◌, ◌⊎◌, inl, inr, refl, ◌∙◌, arith, get_or, length}
use dave.Log.{Log, Store, logsize, commit, recover_from_log, read_head}
use dave.Log.Replay.{logical, IsHome}
use dave.Log.Recover.{
  IsBootable, reboot, recover_final, logical_final, IsBootable-final, home_final, final-IsValid,
}
use dave.Log.Phases.{IsValid}
use dave.Log.Commit.{commit_atomic, commit-IsBootable}

-- From a disk that a recovery can start from, a recovery that the power fails, after any number of
-- disk writes, changes nothing that the next recovery reads outside the log, and leaves a disk
-- that the next one can start from.
pub recover_again :
    (l : Log) (s : Store) (power : ℕ)
    → length l.block ≡ logsize
    → IsBootable l s.disk
    → let d = (recover_from_log l (reboot power s)).1.disk in
      ((h : ℕ) → IsHome l h → logical l.start d h ≡ logical l.start s.disk h) × IsBootable l d
recover_again l s power entries v =
    rw (recover_final l s power entries v)
      (logical_final l s power entries v, IsBootable-final l s power entries v)

-- From a disk that it can start from, a recovery with power for its writes puts on the disk, at every block outside the log, what the
-- log and the disk stood for, and leaves a valid and empty log.
pub recover_installs :
    (l : Log) (s : Store) (power : ℕ)
    → length l.block ≡ logsize
    → IsBootable l s.disk
    → get_or (s.disk l.start) 0 0 < power
    → let (l', s') = recover_from_log l (reboot power s) in
      ((h : ℕ) → IsHome l h → s'.disk h ≡ logical l.start s.disk h) × (l'.n ≡ 0) × IsValid l' s'
unfolding read_head
recover_installs l s power entries v all =
    rw (recover_final l s power entries v)
      (home_final l s power entries v all, refl, final-IsValid l s power entries v all)

-- The power fails after any number of the disk writes of a commit from a valid log, and there is
-- enough of it after the restart: once the recovery has run, the disk outside the log has all the
-- contents from before the transaction, or all of the transaction's blocks.
pub crash_recovery :
    (l : Log) (s : Store) (power : ℕ)
    → IsValid l s
    → logsize < power
    → let s' = (recover_from_log l (reboot power (commit l s).1)).1 in
      ((h : ℕ) → IsHome l h → s'.disk h ≡ s.disk h) ⊎ ((h : ℕ) → IsHome l h → s'.disk h ≡ s.buf h)
crash_recovery l s power v enough = elim (commit_atomic l s v) [
  | inl old ↦ inl (λ h out. (recovered h out) ∙ old h out)
  | inr new ↦ inr (λ h out. (recovered h out) ∙ new h out)
]
  where
    boot : IsBootable l (commit l s).1.disk
    boot = commit-IsBootable l s v

    recovered :
        (h : ℕ)
        → IsHome l h
        → (recover_from_log l (reboot power (commit l s).1)).1.disk h
          ≡ logical l.start (commit l s).1.disk h
    recovered =
        (recover_installs l (commit l s).1 power v.entries boot (omega (arith, boot.fits))).0
