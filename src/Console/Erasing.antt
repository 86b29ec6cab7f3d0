-- ===== src/Console/Erasing.antt =====
-- The loops of `consoleintr` (system/devices/console.c) that erase typed characters.
use dave.Common.{
  ℕ, zero, suc, ◌≡◌, ◌≢◌, refl, sym, ap, arith, false, List, [], ◌∷◌, ◌++◌, ◌∙◌, Bool-cases, inl,
  inr, ◌==◌, sub32, get_or, window,
}
use dave.Console.{Console, slot, newline, erase, kill_from, kill_line, rub_out}
use dave.Console.Line.{IsValid, plain, plain-append, typed, ready, line, typed_count, line_last}
use dave.Console.Views.{drop_last}

drop_last-append : (xs : List ℕ) (x : ℕ) → drop_last (xs ++ x ∷ []) ≡ xs
drop_last-append [] x = refl
drop_last-append (y ∷ []) x = refl
drop_last-append (y ∷ z ∷ zs) x = ap (λ l. y ∷ l) (drop_last-append (z ∷ zs) x)

no_line : (s : Console) → s.e ≡ s.w → IsValid s → line s ≡ []
no_line s e v = let z : typed s ≡ 0 = omega (arith, e, v.small_w) in ap (window slot s.buf s.w) z

erase_lem :
    (s : Console)
    → IsValid s
    → s.e ≢ s.w
    → IsValid (erase s) × (line s ≡ line (erase s) ++ get_or s.buf (slot (sub32 s.e 1)) 0 ∷ [])
unfolding erase
erase_lem s v more =
    let split = line_last s v more in
    let whole = ap plain (sym split) ∙ v.unbroken in
    let parts =
      sym (plain-append (line (erase s)) (get_or s.buf (slot (sub32 s.e 1)) 0 ∷ [])) ∙ whole in
    (
      record {
        storage = v.storage;
        small_r = v.small_r;
        small_w = v.small_w;
        small_e = omega arith;
        order = omega (arith, typed_count s v, v.small_r, v.small_w, v.small_e);
        within = omega (arith, typed_count s v, v.small_r, v.small_w, v.small_e, v.within);
        unbroken = ground (arith, parts);
      },
      split,
    )

-- The last byte of the line is no newline.
last_plain :
    (s : Console) → IsValid s → s.e ≢ s.w → (get_or s.buf (slot (sub32 s.e 1)) 0 == newline) ≡ false
last_plain s v more =
    let x : ℕ = get_or s.buf (slot (sub32 s.e 1)) 0 in
    let parts =
      sym (plain-append (line (erase s)) (x ∷ []))
      ∙ ap plain (sym ((erase_lem s v more).1))
      ∙ v.unbroken in
    ground (arith, parts)

-- What erasing leaves as it was.
pub record Kept (s t : Console) : Type 0 where
  pub valid : IsValid t
  pub same_ready : ready t ≡ ready s
  pub same_r : t.r ≡ s.r
  pub same_w : t.w ≡ s.w
  pub same_procs : t.procs ≡ s.procs

erase-Kept : (s : Console) → IsValid s → s.e ≢ s.w → Kept s (erase s)
unfolding erase
erase-Kept s v more = record {
  valid = (erase_lem s v more).0;
  same_ready = refl;
  same_r = refl;
  same_w = refl;
  same_procs = refl;
}

Kept-trans : (s t u : Console) → Kept s t → Kept t u → Kept s u
Kept-trans s t u a b = record {
  valid = b.valid;
  same_ready = b.same_ready ∙ a.same_ready;
  same_r = b.same_r ∙ a.same_r;
  same_w = b.same_w ∙ a.same_w;
  same_procs = b.same_procs ∙ a.same_procs;
}

Kept-refl : (s : Console) → IsValid s → Kept s s
Kept-refl s v = record {
  valid = v;
  same_ready = refl;
  same_r = refl;
  same_w = refl;
  same_procs = refl;
}

typed-erase : (k : ℕ) (s : Console) → IsValid s → typed s ≡ suc k → typed (erase s) ≡ k
unfolding erase
typed-erase k s v e = omega (arith, v.small_w, v.small_e)

kill_from_lem :
    (k : ℕ) (s : Console)
    → IsValid s
    → typed s ≡ k
    → Kept s (kill_from k s) × (line (kill_from k s) ≡ [])
unfolding kill_from
kill_from_lem zero s v e = (Kept-refl s v, ap (window slot s.buf s.w) e)
kill_from_lem (suc k) s v e =
    let more : s.e ≢ s.w = λ h. omega (arith, v.small_w) in
    let differ : (s.e == s.w) ≡ false = ground arith in
    let (kept, gone) = kill_from_lem k (erase s) ((erase_lem s v more).0) (typed-erase k s v e) in
    rw (differ, last_plain s v more) (Kept-trans s _ _ (erase-Kept s v more) kept, gone)

-- On C('U') the loop removes the line, and nothing that was released.
pub kill_line_lem : (s : Console) → IsValid s → Kept s (kill_line s) × (line (kill_line s) ≡ [])
unfolding kill_line
kill_line_lem s v = kill_from_lem (typed s) s v refl

pub rub_out_lem :
    (s : Console) → IsValid s → Kept s (rub_out s) × (line (rub_out s) ≡ drop_last (line s))
unfolding rub_out
rub_out_lem s v = elim (Bool-cases (s.e == s.w)) [
  | inl same ↦
      let none_left = no_line s (ground arith) v in
      rw same (Kept-refl s v, none_left ∙ sym (ap drop_last none_left))
  | inr differ ↦
      let more : s.e ≢ s.w = λ h. ground arith in
      let (valid, split) = erase_lem s v more in
      rw differ
        (erase-Kept s v more, sym (ap drop_last split ∙ drop_last-append (line (erase s)) _))
]
