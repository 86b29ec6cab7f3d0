-- ===== src/Proc/Wake.antt =====
-- `wakeup` and `kill` of system/core/proc.c: who is woken, and who is left alone.
use dave.Common.{
  ℕ, zero, suc, ◌<◌, ◌≡◌, ◌≢◌, ◌⊎◌, refl, ap, arith, true, false, [], ◌∷◌, some, ◌==◌, length,
  get_elem?, Bool-cases, ==_iff, of_some, sym, subst, ◌∙◌, inl, inr,
}
use dave.Proc.{
  Proc, Table, Chan, null, of_proc, at, same_chan, sleeping, runnable, wake_slot, wakeup1, wakeup,
  kill, kill_slot, modify, sleep_enter,
}

abbrev pub SleepsOn : Chan → Proc → Type 0
SleepsOn c p = (p.state ≡ sleeping) × (p.chan ≡ c)

pub same_chan_refl : (c : Chan) → same_chan c c ≡ true
same_chan_refl null = refl
same_chan_refl (of_proc i) = ground arith
same_chan_refl (at a) = ground arith

pub same_chan_eq : (c d : Chan) → same_chan c d ≡ true → c ≡ d
same_chan_eq null null e = refl
same_chan_eq null (of_proc i) e = cc
same_chan_eq null (at a) e = cc
same_chan_eq (of_proc i) null e = cc
same_chan_eq (of_proc i) (of_proc j) e = ground arith
same_chan_eq (of_proc i) (at a) e = cc
same_chan_eq (at a) null e = cc
same_chan_eq (at a) (of_proc i) e = cc
same_chan_eq (at a) (at b) e = ground arith

wake_slot-awake : (c : Chan) (p : Proc) → ¬ SleepsOn c (wake_slot c p)
wake_slot-awake c p h = ground (arith, same_chan_refl c)

wake_slot-sleeper :
    (c : Chan) (p : Proc) → SleepsOn c p → wake_slot c p ≡ record p { state = runnable }
wake_slot-sleeper c p h = ground (arith, same_chan_refl c)

wake_slot-other : (c : Chan) (p : Proc) → ¬ SleepsOn c p → wake_slot c p ≡ p
wake_slot-other c p h = ground (arith, same_chan_eq p.chan c)

module _ (f : Proc → Proc) where
  pub get_elem?-modify_self :
      (ps : Table) (i : ℕ) (p : Proc)
      → get_elem? ps i ≡ some p
      → get_elem? (modify f i ps) i ≡ some (f p)
  get_elem?-modify_self [] i p e = cc
  get_elem?-modify_self (q ∷ ps) zero p e = ap some (ap f (of_some e))
  get_elem?-modify_self (q ∷ ps) (suc i) p e = get_elem?-modify_self ps i p e

  pub get_elem?-modify_ne :
      (ps : Table) (i j : ℕ) → i ≢ j → get_elem? (modify f i ps) j ≡ get_elem? ps j
  get_elem?-modify_ne [] i j ne = refl
  get_elem?-modify_ne (q ∷ ps) zero zero ne = absurd (ne refl)
  get_elem?-modify_ne (q ∷ ps) zero (suc j) ne = refl
  get_elem?-modify_ne (q ∷ ps) (suc i) zero ne = refl
  get_elem?-modify_ne (q ∷ ps) (suc i) (suc j) ne = get_elem?-modify_ne ps i j (λ e. ne (ap suc e))

  pub length-modify : (ps : Table) (i : ℕ) → length (modify f i ps) ≡ length ps
  length-modify [] i = refl
  length-modify (q ∷ ps) zero = refl
  length-modify (q ∷ ps) (suc i) = ap suc (length-modify ps i)

pub length-wakeup1 : (c : Chan) (ps : Table) → length (wakeup1 c ps) ≡ length ps
unfolding wakeup1
length-wakeup1 c [] = refl
length-wakeup1 c (p ∷ ps) = ap suc (length-wakeup1 c ps)

pub get_elem?-wakeup1 :
    (c : Chan) (ps : Table) (i : ℕ) (p : Proc)
    → get_elem? ps i ≡ some p
    → get_elem? (wakeup1 c ps) i ≡ some (wake_slot c p)
unfolding wakeup1
get_elem?-wakeup1 c [] i p e = cc
get_elem?-wakeup1 c (q ∷ ps) zero p e = ap some (ap (wake_slot c) (of_some e))
get_elem?-wakeup1 c (q ∷ ps) (suc i) p e = get_elem?-wakeup1 c ps i p e

-- A wakeup leaves no sleeper on its channel, makes each of them runnable and changes nothing else
-- of it, and leaves every other process as it was.
pub wakeup_lem :
    (c : Chan) (ps : Table) (i : ℕ) (p : Proc)
    → get_elem? ps i ≡ some p
    → (q : Proc) × (get_elem? (wakeup c ps) i ≡ some q)
      × ¬ SleepsOn c q
      × (SleepsOn c p → q ≡ record p { state = runnable })
      × (¬ SleepsOn c p → q ≡ p)
unfolding wakeup
wakeup_lem c ps i p e = (
  wake_slot c p,
  get_elem?-wakeup1 c ps i p e,
  wake_slot-awake c p,
  wake_slot-sleeper c p,
  wake_slot-other c p,
)

-- What `kill` did to the table: the first slot with the pid is marked and awake, the others are as
-- they were; or no slot has the pid and nothing changed.
pub record Killed (pid : ℕ) (ps qs : Table) : Type 0 where
  pub slot : ℕ
  pub victim : Proc
  pub before : get_elem? ps slot ≡ some victim
  pub named : victim.pid ≡ pid
  pub after : get_elem? qs slot ≡ some (kill_slot victim)
  pub first : (j : ℕ) (p : Proc) → j < slot → get_elem? ps j ≡ some p → p.pid ≢ pid
  pub others : (j : ℕ) → j ≢ slot → get_elem? qs j ≡ get_elem? ps j

abbrev pub Untouched : ℕ → Table → Table → Type 0
Untouched pid ps qs = (qs ≡ ps) × ((j : ℕ) (p : Proc) → get_elem? ps j ≡ some p → p.pid ≢ pid)

kill-cons :
    (pid : ℕ) (p : Proc) (ps qs : Table)
    → p.pid ≢ pid
    → Killed pid ps qs
    → Killed pid (p ∷ ps) (p ∷ qs)
kill-cons pid p ps qs ne k = record {
  slot = suc k.slot;
  victim = k.victim;
  before = k.before;
  named = k.named;
  after = k.after;
  first = elim [
    | zero ↦ λ q lt e. λ h. ne (ap (λ (r : Proc). r.pid) (of_some e) ∙ h)
    | suc j ↦ λ q lt e. k.first j q (omega arith) e
  ];
  others = elim [ zero ↦ λ n. refl | suc j ↦ λ n. k.others j (λ e. n (ap suc e)) ];
}

-- `kill` returns 0 exactly when some slot has the pid; it then marks the first such slot, wakes it
-- if it sleeps, and changes no other slot; else it changes nothing.
pub kill_lem :
    (pid : ℕ) (ps : Table)
    → ((kill pid ps).0 ≡ true) × Killed pid ps (kill pid ps).1
      ⊎ ((kill pid ps).0 ≡ false) × Untouched pid ps (kill pid ps).1
unfolding kill
kill_lem pid [] = inr (refl, (refl, λ j p e. cc))
kill_lem pid (p ∷ ps) = elim (Bool-cases (p.pid == pid)) [
  | inl hit ↦ rw hit (
      inl (
        refl,
        record {
          slot = 0;
          victim = p;
          before = refl;
          named = (==_iff _ _).0 hit;
          after = refl;
          first = λ j q lt e. absurd (omega arith);
          others = elim [ zero ↦ λ n. absurd (n refl) | suc j ↦ λ n. refl ];
        },
      ))
  | inr miss ↦ rw miss (elim (kill_lem pid ps) [
    | inl k ↦ inl (k.0, kill-cons pid p ps (kill pid ps).1 (ground arith) k.1)
    | inr k ↦ inr (
      k.0,
      (
        ap (λ qs. p ∷ qs) k.1.0,
        elim [
          | zero ↦ λ q e h. ground (arith, ap (λ (r : Proc). r.pid) (of_some e))
          | suc j ↦ λ q e. k.1.1 j q e
        ],
      ),
    )
  ])
]

-- Nobody sleeps on the channel.
abbrev pub NoSleeper : Chan → Table → Type 0
NoSleeper c ps = (i : ℕ) (p : Proc) → get_elem? ps i ≡ some p → ¬ SleepsOn c p

wakeup_back :
    (c : Chan) (ps : Table) (i : ℕ) (q : Proc)
    → get_elem? (wakeup c ps) i ≡ some q
    → (p : Proc) × (get_elem? ps i ≡ some p) × (q ≡ wake_slot c p)
unfolding wakeup wakeup1
wakeup_back c [] i q e = cc
wakeup_back c (p ∷ ps) zero q e = (p, refl, sym (of_some e))
wakeup_back c (p ∷ ps) (suc i) q e = wakeup_back c ps i q e

pub wakeup-NoSleeper : (c : Chan) (ps : Table) → NoSleeper c (wakeup c ps)
wakeup-NoSleeper c ps i q e =
    let (p, here, same) = wakeup_back c ps i q e in
    subst (λ r. ¬ SleepsOn c r) (sym same) (wake_slot-awake c p)

pub wakeup-NoSleeper_other : (c d : Chan) (ps : Table) → NoSleeper d ps → NoSleeper d (wakeup c ps)
wakeup-NoSleeper_other c d ps h i q e s =
    let (p, here, same) = wakeup_back c ps i q e in h i p here (ground arith)

pub sleep_enter-NoSleeper :
    (i : ℕ) (c d : Chan) (ps : Table) → c ≢ d → NoSleeper d ps → NoSleeper d (sleep_enter i c ps)
unfolding sleep_enter
sleep_enter-NoSleeper i c d [] ne h j q e = cc
sleep_enter-NoSleeper zero c d (p ∷ ps) ne h zero q e =
    λ s. ne (ap (λ (r : Proc). r.chan) (of_some e) ∙ s.1)
sleep_enter-NoSleeper zero c d (p ∷ ps) ne h (suc j) q e = h (suc j) q e
sleep_enter-NoSleeper (suc i) c d (p ∷ ps) ne h zero q e = h zero q e
sleep_enter-NoSleeper (suc i) c d (p ∷ ps) ne h (suc j) q e =
    sleep_enter-NoSleeper i c d ps ne (λ k r f. h (suc k) r f) j q e
