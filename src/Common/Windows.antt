-- ===== src/Common/Windows.antt =====
-- Ring buffers: the bytes behind a counter of 32 bits, when counter `r` has its byte in slot
-- `slot r` of an array.
use Prim.Native.Nat.{ℕ, zero, suc, ◌+◌, ◌-◌, ◌%◌, ◌≤◌, ◌<◌}
use mathlib.Core.Path.{◌≡◌, refl, sym, ap, ap₂, ◌∙◌}
use mathlib.Core.Logic.{◌≢◌}
use mathlib.Core.List.{List, [], ◌∷◌, ◌++◌}
use native.Mathlib.Omega.{arith}
use dave.Common.Tests.{add32, word_size}
use dave.Common.Lists.{length, get_or, set, get_or-set_self, get_or-set_ne}

module _ (slot : ℕ → ℕ) where
  -- The `n` bytes from counter `r` on.
  abbrev pub window : List ℕ → ℕ → ℕ → List ℕ
  window buf r zero = []
  window buf r (suc n) = get_or buf (slot r) 0 ∷ window buf (add32 r 1) n

  pub length-window : (buf : List ℕ) (r n : ℕ) → length (window buf r n) ≡ n
  length-window buf r zero = refl
  length-window buf r (suc n) = ap suc (length-window buf (add32 r 1) n)

  pub window-append :
      (buf : List ℕ) (n m r : ℕ)
      → r < word_size
      → window buf r (n + m) ≡ window buf r n ++ window buf ((r + n) % word_size) m
  window-append buf zero m r small =
      let e : (r + 0) % word_size ≡ r = omega arith in
      let z : 0 + m ≡ m = omega arith in ap (window buf r) z ∙ ap (λ i. window buf i m) (sym e)
  window-append buf (suc n) m r small =
      let e : (add32 r 1 + n) % word_size ≡ (r + suc n) % word_size = omega arith in
      let z : suc n + m ≡ suc (n + m) = omega arith in
      ap (window buf r) z
      ∙ ap (λ l. get_or buf (slot r) 0 ∷ l)
          (window-append buf n m (add32 r 1) (omega arith)
            ∙ ap (λ i. window buf (add32 r 1) n ++ window buf i m) e)

-- What the slots of an array of `size` have to satisfy.
pub record IsRing (size : ℕ) (slot : ℕ → ℕ) : Type 0 where
  pub inside : (r : ℕ) → slot r < size
  pub apart : (r k : ℕ) → r < word_size → 0 < k → k < size → slot ((r + k) % word_size) ≢ slot r

module _ (size : ℕ) (slot : ℕ → ℕ) (ring : IsRing size slot) where
  -- A write at a counter outside the window leaves it alone.
  pub window-set :
      (buf : List ℕ) (n r k x : ℕ)
      → r < word_size
      → n ≤ k
      → k < size
      → window slot (set buf (slot ((r + k) % word_size)) x) r n ≡ window slot buf r n
  window-set buf zero r k x small le lt = refl
  window-set buf (suc n) r k x small le lt =
      let e : (r + k) % word_size ≡ (add32 r 1 + (k - 1)) % word_size = omega arith in
      ap₂ ◌∷◌
        (get_or-set_ne buf (slot ((r + k) % word_size)) (slot r) x 0
          (ring.apart r k small (omega arith) lt))
        (ap (λ i. window slot (set buf (slot i) x) (add32 r 1) n) e
          ∙ window-set buf n (add32 r 1) (k - 1) x (omega arith) (omega arith) (omega arith))

  -- And a write just behind it extends it.
  pub window-push :
      (buf : List ℕ) (n r x : ℕ)
      → length buf ≡ size
      → r < word_size
      → n < size
      → window slot (set buf (slot ((r + n) % word_size)) x) r (suc n)
        ≡ window slot buf r n ++ x ∷ []
  window-push buf zero r x len small lt =
      let e : (r + 0) % word_size ≡ r = omega arith in
      rw e (ap (λ y. y ∷ []) (get_or-set_self buf (slot r) x 0 (omega (arith, len, ring.inside r))))
  window-push buf (suc n) r x len small lt =
      let e : (r + suc n) % word_size ≡ (add32 r 1 + n) % word_size = omega arith in
      ap₂ ◌∷◌
        (get_or-set_ne buf (slot ((r + suc n) % word_size)) (slot r) x 0
          (ring.apart r (suc n) small (omega arith) lt))
        (ap (λ i. window slot (set buf (slot i) x) (add32 r 1) (suc n)) e
          ∙ window-push buf n (add32 r 1) x len (omega arith) (omega arith))
