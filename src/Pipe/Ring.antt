-- ===== src/Pipe/Ring.antt =====
-- The bytes in a pipe of system/core/pipe.c, oldest first, and what one push and one pop do to them.
use dave.Common.{
  window, length-window, window-push, IsRing, ℕ, suc, ◌+◌, ◌%◌, ◌<◌, ◌≤◌, ◌≡◌, ap, ◌↔◌, arith, true,
  false, List, [], ◌∷◌, ◌++◌, length, get_or, set, ◌∙◌, add32, sub32, word_size, length-set,
}
use dave.Pipe.{Pipe, pipesize, is_full, is_empty, push, pop}

abbrev pub count : Pipe → ℕ
count p = sub32 p.nwrite p.nread

pub record IsValid (p : Pipe) : Type 0 where
  pub storage : length p.buf ≡ pipesize
  pub small_read : p.nread < word_size
  pub small_write : p.nwrite < word_size
  pub within : count p ≤ pipesize

abbrev slot : ℕ → ℕ
slot i = i % pipesize

slot-IsRing : IsRing pipesize slot
slot-IsRing = record { inside = λ r. omega arith; apart = λ r k small pos lt e. omega arith }

abbrev pub contents : Pipe → List ℕ
contents p = window slot p.buf p.nread (count p)

pub length-contents : (p : Pipe) → length (contents p) ≡ count p
length-contents p = length-window slot p.buf p.nread (count p)

pub no_contents : (p : Pipe) → count p ≡ 0 → contents p ≡ []
no_contents p e = ap (window slot p.buf p.nread) e

pub full_count : (p : Pipe) → IsValid p → (is_full p ≡ true) ↔ (count p ≡ pipesize)
full_count p v = (λ e. ground arith, λ e. ground arith)

pub empty_count : (p : Pipe) → IsValid p → (is_empty p ≡ true) ↔ (count p ≡ 0)
empty_count p v = (λ e. ground arith, λ e. ground arith)

pub push-IsValid : (p : Pipe) (x : ℕ) → IsValid p → is_full p ≡ false → IsValid (push x p)
unfolding push
push-IsValid p x v room = record {
  storage = length-set p.buf (p.nwrite % pipesize) x ∙ v.storage;
  small_read = v.small_read;
  small_write = omega arith;
  within = ground arith;
}

pub contents-push :
    (p : Pipe) (x : ℕ) → IsValid p → is_full p ≡ false → contents (push x p) ≡ contents p ++ x ∷ []
unfolding push
contents-push p x v room =
    let e : p.nwrite ≡ (p.nread + count p) % word_size = omega arith in
    let more : sub32 (add32 p.nwrite 1) p.nread ≡ suc (count p) = ground arith in
    ap (window slot (set p.buf (p.nwrite % pipesize) x) p.nread) more
    ∙ ap (λ i. window slot (set p.buf (i % pipesize) x) p.nread (suc (count p))) e
    ∙ window-push pipesize slot slot-IsRing p.buf (count p) p.nread x v.storage v.small_read
        (ground arith)

pub pop-IsValid : (p : Pipe) → IsValid p → is_empty p ≡ false → IsValid (pop p)
unfolding pop
pop-IsValid p v some_bytes = record {
  storage = v.storage;
  small_read = omega arith;
  small_write = v.small_write;
  within = ground arith;
}

pub contents-pop :
    (p : Pipe)
    → IsValid p
    → is_empty p ≡ false
    → contents p ≡ get_or p.buf (p.nread % pipesize) 0 ∷ contents (pop p)
unfolding pop
contents-pop p v some_bytes =
    let less : count p ≡ suc (sub32 p.nwrite (add32 p.nread 1)) = ground arith in
    ap (window slot p.buf p.nread) less
