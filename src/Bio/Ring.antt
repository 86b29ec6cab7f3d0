-- ===== src/Bio/Ring.antt =====
-- The ring of buffers of system/storage/bio.c as the list of its buffers, the last used one first.
use dave.Common.{
  ℕ, zero, suc, ◌<◌, ◌≡◌, ◌≢◌, refl, ap, ◌∙◌, arith, Bool, false, List, [], ◌∷◌, ◌++◌, length,
  Option, none, some, if◌then◌else◌, ◌==◌, update,
}
use dave.Bio.{head, search_along}

-- From `a` the pointers lead through `xs` to `z`, and back.
abbrev pub Linked : (ℕ → ℕ) → (ℕ → ℕ) → ℕ → List ℕ → ℕ → Type 0
Linked next prev a [] z = (next a ≡ z) × (prev z ≡ a)
Linked next prev a (x ∷ xs) z = (next a ≡ x) × (prev x ≡ a) × Linked next prev x xs z

abbrev pub Avoids : ℕ → List ℕ → Type 0
Avoids q [] = Unit {0}
Avoids q (x ∷ xs) = (q ≢ x) × Avoids q xs

abbrev pub Distinct : List ℕ → Type 0
Distinct [] = Unit {0}
Distinct (x ∷ xs) = Avoids x xs × Distinct xs

abbrev pub Same : (ℕ → ℕ) → (ℕ → ℕ) → List ℕ → Type 0
Same f g [] = Unit {0}
Same f g (x ∷ xs) = (f x ≡ g x) × Same f g xs

pub Same-update : (f : ℕ → ℕ) (u v : ℕ) (xs : List ℕ) → Avoids u xs → Same (update f u v) f xs
Same-update f u v [] out = tt
Same-update f u v (x ∷ xs) (ne, out) = (ground (arith, ne), Same-update f u v xs out)

pub Same-trans : (f g h : ℕ → ℕ) (xs : List ℕ) → Same f g xs → Same g h xs → Same f h xs
Same-trans f g h [] p q = tt
Same-trans f g h (x ∷ xs) (a, p) (b, q) = (a ∙ b, Same-trans f g h xs p q)

pub Linked-Same :
    (next prev next' prev' : ℕ → ℕ) (a : ℕ) (xs : List ℕ) (z : ℕ)
    → Same next' next (a ∷ xs)
    → Same prev' prev xs
    → prev' z ≡ prev z
    → Linked next prev a xs z
    → Linked next' prev' a xs z
Linked-Same next prev next' prev' a [] z (n, _) p pz (l, m) = (n ∙ l, pz ∙ m)
Linked-Same next prev next' prev' a (x ∷ xs) z (n, ns) (p, ps) pz (l, m, rest) =
    (n ∙ l, p ∙ m, Linked-Same next prev next' prev' x xs z ns ps pz rest)

abbrev pub find : (ℕ → Bool) → List ℕ → Option ℕ
find test [] = none
find test (x ∷ xs) = let rest = find test xs in if test x then some x else rest

-- With a round for each buffer and one more the loop finds the first one of the list.
pub search_along-find :
    (next prev : ℕ → ℕ) (test : ℕ → Bool) (k a : ℕ) (xs : List ℕ)
    → length xs < k
    → Avoids head xs
    → Linked next prev a xs head
    → search_along next test k (next a) ≡ find test xs
unfolding search_along
search_along-find next prev test zero a xs lt out l = absurd (omega arith)
search_along-find next prev test (suc k) a [] lt out (n, p) = rw n refl
search_along-find next prev test (suc k) a (x ∷ xs) lt (ne, out) (n, p, rest) =
    let away : (x == head) ≡ false = ground (arith, ne) in
    rw (n, away, search_along-find next prev test k x xs (omega arith) out rest) refl

abbrev pub backwards : List ℕ → List ℕ
backwards [] = []
backwards (x ∷ xs) = backwards xs ++ x ∷ []

pub length-backwards : (xs : List ℕ) → length (backwards xs) ≡ length xs
length-backwards [] = refl
length-backwards (x ∷ xs) = last (backwards xs) x ∙ ap (λ (n : ℕ). suc n) (length-backwards xs)
  where
    last : (ys : List ℕ) (y : ℕ) → length (ys ++ y ∷ []) ≡ suc (length ys)
    last [] y = refl
    last (w ∷ ys) y = ap (λ (n : ℕ). suc n) (last ys y)

pub Avoids-append : (q : ℕ) (xs : List ℕ) (x : ℕ) → Avoids q xs → q ≢ x → Avoids q (xs ++ x ∷ [])
Avoids-append q [] x out ne = (ne, tt)
Avoids-append q (y ∷ xs) x (n, out) ne = (n, Avoids-append q xs x out ne)

pub Avoids-backwards : (q : ℕ) (xs : List ℕ) → Avoids q xs → Avoids q (backwards xs)
Avoids-backwards q [] out = tt
Avoids-backwards q (x ∷ xs) (ne, out) =
    Avoids-append q (backwards xs) x (Avoids-backwards q xs out) ne

Linked-append :
    (next prev : ℕ → ℕ) (a : ℕ) (xs : List ℕ) (x z : ℕ)
    → Linked next prev a xs x
    → next x ≡ z
    → prev z ≡ x
    → Linked next prev a (xs ++ x ∷ []) z
Linked-append next prev a [] x z (l, m) n p = (l, m, (n, p))
Linked-append next prev a (y ∷ xs) x z (l, m, rest) n p =
    (l, m, Linked-append next prev y xs x z rest n p)

-- The ring the other way round.
pub Linked-backwards :
    (next prev : ℕ → ℕ) (a : ℕ) (xs : List ℕ) (z : ℕ)
    → Linked next prev a xs z
    → Linked prev next z (backwards xs) a
Linked-backwards next prev a [] z (l, m) = (m, l)
Linked-backwards next prev a (x ∷ xs) z (l, m, rest) =
    Linked-append prev next z (backwards xs) x a (Linked-backwards next prev x xs z rest) m l
