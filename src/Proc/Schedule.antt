-- ===== src/Proc/Schedule.antt =====
-- `scheduler` of system/core/proc.c: a pass over the table passes over no runnable process.
use dave.Common.{
  ℕ, zero, suc, ◌+◌, ◌<◌, ◌≤◌, ◌≡◌, ◌≢◌, ap, arith, true, false, List, [], ◌∷◌, none, some, ◌==◌,
  get_elem?, ◌∙◌, sym, ◌⊎◌, inl, inr, Bool-cases, ==_iff, subst, Option-cases,
}
use dave.Proc.{Proc, Table, modify, is_runnable, running, Machine, schedule}
use dave.Proc.Wake.{get_elem?-modify_self, get_elem?-modify_ne}

abbrev pub IsRunnable : ℕ → Table → Type 0
IsRunnable i ps = (p : Proc) × (get_elem? ps i ≡ some p) × (is_runnable p.state ≡ true)

-- `i` has run.
abbrev pub HasRun : ℕ → List ℕ → Type 0
HasRun i [] = ⊥
HasRun i (j ∷ js) = (i ≡ j) ⊎ HasRun i js

-- While another process runs, a runnable process stays so and slots do not vanish.
pub record IsFair (run : ℕ → Machine → Machine) : Type 0 where
  pub keeps : (i j : ℕ) (w : Machine) → i ≢ j → IsRunnable i w.table → IsRunnable i (run j w).table
  pub stays :
      (i j : ℕ) (w : Machine) (p : Proc)
      → get_elem? w.table i ≡ some p
      → (q : Proc) × (get_elem? (run j w).table i ≡ some q)

-- The machine as `scheduler` hands it to slot `j`.
abbrev dispatched : ℕ → Machine → Machine
dispatched j w = record {
  table = modify (λ q. record q { state = running }) j w.table;
  current = some j;
}

abbrev back : (ℕ → Machine → Machine) → ℕ → Machine → Machine
back run j w = record (run j (dispatched j w)) { current = none }

module _ (run : ℕ → Machine → Machine) where
  schedule_skip :
      (k j : ℕ) (w : Machine) (seen : List ℕ) (p : Proc)
      → get_elem? w.table j ≡ some p
      → is_runnable p.state ≡ false
      → schedule run (suc k) j w seen ≡ schedule run k (suc j) w seen
  unfolding schedule
  schedule_skip k j w seen p here idle = ground arith

  schedule_run :
      (k j : ℕ) (w : Machine) (seen : List ℕ) (p : Proc)
      → get_elem? w.table j ≡ some p
      → is_runnable p.state ≡ true
      → schedule run (suc k) j w seen ≡ schedule run k (suc j) (back run j w) (j ∷ seen)
  unfolding schedule
  schedule_run k j w seen p here ready = ground arith

  schedule_end :
      (k j : ℕ) (w : Machine) (seen : List ℕ)
      → get_elem? w.table j ≡ none
      → schedule run (suc k) j w seen ≡ (w, seen)
  unfolding schedule
  schedule_end k j w seen gone = ground arith

  -- What has run stays recorded.
  seen_stays :
      (i k j : ℕ) (w : Machine) (seen : List ℕ)
      → HasRun i seen
      → HasRun i (schedule run k j w seen).1
  seen_stays i zero j w seen h = unfold schedule in h
  seen_stays i (suc k) j w seen h = elim (Option-cases (get_elem? w.table j)) [
    | inl gone ↦ rw (schedule_end k j w seen gone) h
    | inr (p, here) ↦ elim (Bool-cases (is_runnable p.state)) [
      | inl ready ↦
          rw (schedule_run k j w seen p here ready)
            (seen_stays i k (suc j) (back run j w) (j ∷ seen) (inr h))
      | inr idle ↦ rw (schedule_skip k j w seen p here idle) (seen_stays i k (suc j) w seen h)
    ]
  ]

  dispatched-IsRunnable :
      (i j : ℕ) (w : Machine) → i ≢ j → IsRunnable i w.table → IsRunnable i (dispatched j w).table
  dispatched-IsRunnable i j w ne (p, here, ready) = (
    p,
    get_elem?-modify_ne (λ q. record q { state = running }) w.table j i (λ e. ne (sym e)) ∙ here,
    ready,
  )

  -- No slot below `i` is missing, so the pass gets to `i`.
  abbrev pub IsFull : ℕ → Table → Type 0
  IsFull i ps = (j : ℕ) → j ≤ i → (p : Proc) × (get_elem? ps j ≡ some p)

  dispatched-IsFull : (i j : ℕ) (w : Machine) → IsFull i w.table → IsFull i (dispatched j w).table
  dispatched-IsFull i j w full m le = elim (Bool-cases (j == m)) [
    | inl same ↦
        let (p, here) = full j (ground arith) in
        subst (λ n. (q : Proc) × (get_elem? (dispatched j w).table n ≡ some q))
          ((==_iff _ _).0 same)
          (
            record p { state = running },
            get_elem?-modify_self (λ q. record q { state = running }) w.table j p here,
          )
    | inr other ↦
        let (p, here) = full m le in
        (
          p,
          get_elem?-modify_ne (λ q. record q { state = running }) w.table j m (ground arith) ∙ here,
        )
  ]

  reaches :
      (i k j : ℕ) (w : Machine) (seen : List ℕ)
      → IsFair run
      → j ≤ i
      → i < j + k
      → IsFull i w.table
      → IsRunnable i w.table
      → HasRun i (schedule run k j w seen).1
  reaches i zero j w seen fair le lt full ready = absurd (omega arith)
  reaches i (suc k) j w seen fair le lt full (p, here, ready) = elim (Bool-cases (j == i)) [
    | inl same ↦
        let e : j ≡ i = (==_iff _ _).0 same in
        rw (schedule_run k j w seen p (ap (get_elem? w.table) e ∙ here) ready)
          (seen_stays i k (suc j) (back run j w) (j ∷ seen) (inl (sym e)))
    | inr other ↦
        let (q, at) = full j le in
        elim (Bool-cases (is_runnable q.state)) [
          | inr idle ↦
              rw (schedule_skip k j w seen q at idle)
                (reaches i k (suc j) w seen fair (ground arith) (omega arith) full (p, here, ready))
          | inl busy ↦ rw (schedule_run k j w seen q at busy) (
              reaches i k (suc j) (back run j w) (j ∷ seen) fair (ground arith) (omega arith)
                (λ m lm.
                  let (r, there) = dispatched-IsFull i j w full m lm in
                  fair.stays m j (dispatched j w) r there)
                (fair.keeps i j (dispatched j w) (ground arith)
                  (dispatched-IsRunnable i j w (ground arith) (p, here, ready))))
        ]
  ]

  -- If other processes do not take a runnable process off the run queue, one pass of the scheduler
  -- runs every process that is runnable when the pass begins.
  pub schedule_fair :
      (i nproc : ℕ) (w : Machine)
      → IsFair run
      → i < nproc
      → IsFull i w.table
      → IsRunnable i w.table
      → HasRun i (schedule run nproc 0 w []).1
  schedule_fair i nproc w fair lt full ready =
      reaches i nproc 0 w [] fair (omega arith) (omega arith) full ready
