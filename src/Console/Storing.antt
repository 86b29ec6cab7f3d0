-- ===== src/Console/Storing.antt =====
-- The branch of `consoleintr` (system/devices/console.c) that stores a character.
use dave.Common.{
  ℕ, suc, ◌<◌, ◌≡◌, refl, sym, ap, ap₂, arith, Bool, true, false, ◌&&◌, ◌||◌, not, [], ◌∷◌, ◌++◌,
  ◌∙◌, Bool-cases, inl, inr, if◌then◌else◌, ltb, leb, ◌==◌, add32, sub32, set, ◌%◌, length-set,
  window,
}
use dave.Proc.{at}
use dave.Proc.Wake.{wakeup-NoSleeper}
use dave.Console.{
  Console, input_buf, slot, newline, ctrl_d, translate, store, release_line, add_char,
}
use dave.Console.Line.{
  IsValid, plain, plain-append, ready, line, ready-store, line-store, ready-release_store,
}
use dave.Console.Views.{view, held, append_char, Typed, held_count}

store-IsValid :
    (c : ℕ) (s : Console)
    → IsValid s
    → sub32 s.e s.r < input_buf
    → (c % 256 == newline) ≡ false
    → IsValid (store c s)
store-IsValid c s v room other = record {
  storage = length-set s.buf (slot s.e) (c % 256) ∙ v.storage;
  small_r = v.small_r;
  small_w = v.small_w;
  small_e = omega arith;
  order = omega (arith, v.order, v.small_r, v.small_w, v.small_e);
  within = omega (arith, v.small_r, v.small_e);
  unbroken =
      let both = plain-append (line s) (c % 256 ∷ []) in
      ap plain (line-store c s v room) ∙ both ∙ ground (arith, v.unbroken, other);
}

release-IsValid :
    (input_r c : ℕ) (s : Console)
    → IsValid s
    → sub32 s.e s.r < input_buf
    → IsValid (release_line input_r (store c s))
release-IsValid input_r c s v room =
    let none_left : sub32 (add32 s.e 1) (add32 s.e 1) ≡ 0 = omega arith in
    record {
      storage = length-set s.buf (slot s.e) (c % 256) ∙ v.storage;
      small_r = v.small_r;
      small_w = omega arith;
      small_e = omega arith;
      order = omega arith;
      within = omega (arith, v.small_r, v.small_e);
      unbroken =
          ap (λ n. plain (window slot (set s.buf (slot s.e) (c % 256)) (add32 s.e 1) n)) none_left;
    }

abbrev ends : ℕ → Console → Bool
ends a s = (a == newline || a == ctrl_d) || add32 s.e 1 == add32 s.r input_buf

-- The test of the code on its counters is the test on the lists.
ends_lem :
    (a : ℕ) (s : Console)
    → IsValid s
    → ends a s ≡ ((a == newline || a == ctrl_d) || suc (held (view s)) == input_buf)
ends_lem a s v =
    ap (λ n. (a == newline || a == ctrl_d) || n)
      (same_test ∙ ap (λ n. suc n == input_buf) (sym (held_count s v)))
  where
    same_test : (add32 s.e 1 == add32 s.r input_buf) ≡ (suc (sub32 s.e s.r) == input_buf)
    same_test = ground (arith, v.small_r, v.small_e, v.within)

ended_lem :
    (input_r a : ℕ) (s : Console)
    → IsValid s
    → sub32 s.e s.r < input_buf
    → a % 256 ≡ a
    → Typed input_r s
        (release_line input_r (store a s))
        (record { released = ready s ++ (line s ++ a ∷ []); pending = [] })
ended_lem input_r a s v few small = record {
  valid = release-IsValid input_r a s v few;
  lists =
      let none_left : sub32 (add32 s.e 1) (add32 s.e 1) ≡ 0 = omega arith in
      ap₂ (λ x y. record { released = x; pending = y })
        (ready-release_store input_r a s v few ∙ ap (λ x. ready s ++ (line s ++ x ∷ [])) small)
        (ap (window slot (set s.buf (slot s.e) (a % 256)) (add32 s.e 1)) none_left);
  wakes = λ w ne. wakeup-NoSleeper (at input_r) s.procs;
}

open_lem :
    (input_r a : ℕ) (s : Console)
    → IsValid s
    → sub32 s.e s.r < input_buf
    → a % 256 ≡ a
    → ends a s ≡ false
    → Typed input_r s (store a s) (record { released = ready s; pending = line s ++ a ∷ [] })
open_lem input_r a s v few small unended = record {
  valid = store-IsValid a s v few (ground (arith, small));
  lists =
      ap₂ (λ x y. record { released = x; pending = y }) (ready-store a s v few)
        (line-store a s v few ∙ ap (λ x. line s ++ x ∷ []) small);
  wakes = λ w. w;
}

pub add_char_lem :
    (input_r a c : ℕ) (s : Console)
    → IsValid s
    → translate c ≡ a
    → a % 256 ≡ a
    → Typed input_r s
        (add_char input_r c s)
        (if c == 0 || leb input_buf (held (view s)) then view s else append_char a (view s))
unfolding add_char
add_char_lem input_r a c s v is_a small =
    elim (Bool-cases (not (c == 0) && ltb (sub32 s.e s.r) input_buf)) [
      | inr full ↦
          let stays : (c == 0 || leb input_buf (held (view s))) ≡ true =
            ground (arith, held_count s v) in
          rw (full, stays) record { valid = v; lists = refl; wakes = λ w. w }
      | inl room ↦
          let enters : (c == 0 || leb input_buf (held (view s))) ≡ false =
            ground (arith, held_count s v) in
          let few : sub32 s.e s.r < input_buf = ground arith in
          elim (Bool-cases (ends a s)) [
            | inl over ↦
                rw (room, enters, is_a, sym (ends_lem a s v), over)
                  (ended_lem input_r a s v few small)
            | inr unended ↦
                rw (room, enters, is_a, sym (ends_lem a s v), unended)
                  (open_lem input_r a s v few small unended)
          ]
    ]
