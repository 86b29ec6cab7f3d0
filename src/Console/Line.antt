-- ===== src/Console/Line.antt =====
-- The input buffer of system/devices/console.c as two lists, the bytes that readers can take and
-- the line that is being typed, and what each way to change the buffer does to them.
use mathlib.Core.List.{append_assoc}
use dave.Common.{
  ℕ, suc, ◌+◌, ◌%◌, ◌<◌, ◌≤◌, ◌≡◌, ◌≢◌, refl, sym, ap, arith, Bool, true, ◌&&◌, not, List, [], ◌∷◌,
  ◌++◌, length, get_or, set, ◌∙◌, add32, sub32, word_size, window, window-append, window-set,
  window-push, IsRing, ◌==◌,
}
use dave.Console.{Console, input_buf, slot, newline, store, release_line}

pub slot-IsRing : IsRing input_buf slot
slot-IsRing = record { inside = λ r. omega arith; apart = λ r k small pos lt e. omega arith }

-- No newline in it: a line is released with its newline.
abbrev pub plain : List ℕ → Bool
plain [] = true
plain (c ∷ cs) = not (c == newline) && plain cs

abbrev pub typed : Console → ℕ
typed s = sub32 s.e s.w

abbrev pub ready : Console → List ℕ
ready s = window slot s.buf s.r (sub32 s.w s.r)

abbrev pub line : Console → List ℕ
line s = window slot s.buf s.w (typed s)

pub record IsValid (s : Console) : Type 0 where
  pub storage : length s.buf ≡ input_buf
  pub small_r : s.r < word_size
  pub small_w : s.w < word_size
  pub small_e : s.e < word_size
  pub order : sub32 s.w s.r ≤ sub32 s.e s.r
  pub within : sub32 s.e s.r ≤ input_buf
  pub unbroken : plain (line s) ≡ true

pub plain-append : (xs ys : List ℕ) → plain (xs ++ ys) ≡ plain xs && plain ys
plain-append [] ys = refl
plain-append (x ∷ xs) ys = ground (arith, plain-append xs ys)

-- The two lists lie one behind the other.
pub typed_count : (s : Console) → IsValid s → sub32 s.w s.r + typed s ≡ sub32 s.e s.r
typed_count s v =
    let o = v.order in let i = v.within in omega (arith, v.small_r, v.small_w, v.small_e)

-- The last byte of a line that is not empty.
pub line_last :
    (s : Console)
    → IsValid s
    → s.e ≢ s.w
    → line s
      ≡ window slot s.buf s.w (sub32 (sub32 s.e 1) s.w) ++ get_or s.buf (slot (sub32 s.e 1)) 0 ∷ []
line_last s v more =
    let n : ℕ = sub32 (sub32 s.e 1) s.w in
    let e : typed s ≡ n + 1 = omega (arith, v.small_w, v.small_e) in
    let last : (s.w + n) % word_size ≡ sub32 s.e 1 = omega (arith, v.small_w, v.small_e) in
    ap (window slot s.buf s.w) e
    ∙ window-append slot s.buf n 1 s.w v.small_w
    ∙ ap (λ i. window slot s.buf s.w n ++ get_or s.buf (slot i) 0 ∷ []) last

pub ready-store :
    (c : ℕ) (s : Console) → IsValid s → sub32 s.e s.r < input_buf → ready (store c s) ≡ ready s
ready-store c s v room =
    let at_end : s.e ≡ (s.r + sub32 s.e s.r) % word_size = omega (arith, v.small_r, v.small_e) in
    ap (λ i. window slot (set s.buf (slot i) (c % 256)) s.r (sub32 s.w s.r)) at_end
    ∙ window-set input_buf slot slot-IsRing s.buf (sub32 s.w s.r) s.r (sub32 s.e s.r) (c % 256)
        v.small_r v.order room

pub line-store :
    (c : ℕ) (s : Console)
    → IsValid s
    → sub32 s.e s.r < input_buf
    → line (store c s) ≡ line s ++ c % 256 ∷ []
line-store c s v room =
    let few : typed s < input_buf = omega (arith, typed_count s v) in
    let more : sub32 (add32 s.e 1) s.w ≡ suc (typed s) = omega (arith, v.small_w, v.small_e) in
    let at_end : s.e ≡ (s.w + typed s) % word_size = omega (arith, v.small_w, v.small_e) in
    ap (window slot (set s.buf (slot s.e) (c % 256)) s.w) more
    ∙ ap (λ i. window slot (set s.buf (slot i) (c % 256)) s.w (suc (typed s))) at_end
    ∙ window-push input_buf slot slot-IsRing s.buf (typed s) s.w (c % 256) v.storage v.small_w few

-- When a line is released all of it can be read.
pub ready-release :
    (s : Console) → IsValid s → window slot s.buf s.r (sub32 s.e s.r) ≡ ready s ++ line s
ready-release s v =
    let n : ℕ = sub32 s.w s.r in
    let at_w : (s.r + n) % word_size ≡ s.w = omega (arith, v.small_r, v.small_w) in
    ap (window slot s.buf s.r) (sym (typed_count s v))
    ∙ window-append slot s.buf n (typed s) s.r v.small_r
    ∙ ap (λ i. ready s ++ window slot s.buf i (typed s)) at_w

pub ready-release_store :
    (input_r c : ℕ) (s : Console)
    → IsValid s
    → sub32 s.e s.r < input_buf
    → ready (release_line input_r (store c s)) ≡ ready s ++ (line s ++ c % 256 ∷ [])
ready-release_store input_r c s v room =
    let n : ℕ = sub32 s.e s.r in
    let more : sub32 (add32 s.e 1) s.r ≡ suc n = omega (arith, v.small_r, v.small_e) in
    let at_end : s.e ≡ (s.r + n) % word_size = omega (arith, v.small_r, v.small_e) in
    ap (window slot (set s.buf (slot s.e) (c % 256)) s.r) more
    ∙ ap (λ i. window slot (set s.buf (slot i) (c % 256)) s.r (suc n)) at_end
    ∙ window-push input_buf slot slot-IsRing s.buf n s.r (c % 256) v.storage v.small_r room
    ∙ ap (λ l. l ++ c % 256 ∷ []) (ready-release s v)
    ∙ append_assoc (ready s) (line s) (c % 256 ∷ [])
