-- ===== src/Paths/Elements.antt =====
-- `skipelem` of system/storage/fs.c against the elements of a path, which lie between its slashes.
use dave.Common.{
  ℕ, zero, suc, ◌+◌, ◌-◌, ◌<◌, ◌≤◌, ◌≡◌, refl, sym, ap, ◌∙◌, subst, arith, true, false, Bool-cases,
  inl, inr, List, [], ◌∷◌, ◌++◌, Option, none, some, if◌then◌else◌, ◌==◌, ltb, leb, length, drop,
  get_or, get_or-take, get_or-drop, get_or-append_left, get_or-append_right,
}
use dave.Directory.{dirsiz}
use dave.Paths.{
  slash, skip_slashes, behind_element, element, set_name, after_slashes, skipelem, is_nil,
}

abbrev onto_first : ℕ → List (List ℕ) → List (List ℕ)
onto_first c [] = (c ∷ []) ∷ []
onto_first c (p ∷ ps) = (c ∷ p) ∷ ps

-- The pieces between the slashes.
abbrev pieces : List ℕ → List (List ℕ)
pieces [] = [] ∷ []
pieces (c ∷ cs) = if c == slash then [] ∷ pieces cs else onto_first c (pieces cs)

abbrev not_empty : List (List ℕ) → List (List ℕ)
not_empty [] = []
not_empty ([] ∷ ps) = not_empty ps
not_empty ((c ∷ p) ∷ ps) = (c ∷ p) ∷ not_empty ps

-- The elements of a path: the pieces that are not empty.
abbrev pub elements : List ℕ → List (List ℕ)
elements path = not_empty (pieces path)

elements-skip_slashes : (path : List ℕ) → elements (skip_slashes path) ≡ elements path
unfolding skip_slashes
elements-skip_slashes [] = refl
elements-skip_slashes (c ∷ cs) = elim (Bool-cases (c == slash)) [
  | inl e ↦ rw e (elements-skip_slashes cs)
  | inr e ↦ let same : skip_slashes (c ∷ cs) ≡ c ∷ cs = rw e refl in ap elements same
]

abbrev pieces_behind : List ℕ → List (List ℕ)
pieces_behind [] = []
pieces_behind (c ∷ cs) = pieces cs

pieces-element : (path : List ℕ) → pieces path ≡ element path ∷ pieces_behind (behind_element path)
unfolding element behind_element
pieces-element [] = refl
pieces-element (c ∷ cs) = elim (Bool-cases (c == slash)) [
  | inl e ↦ rw e refl
  | inr e ↦ rw e (ap (onto_first c) (pieces-element cs))
]

-- What is behind an element starts with a slash, or is the end.
behind_lem :
    (path : List ℕ)
    → not_empty (pieces_behind (behind_element path)) ≡ elements (behind_element path)
unfolding behind_element
behind_lem [] = refl
behind_lem (c ∷ cs) = elim (Bool-cases (c == slash)) [
  | inl e ↦
      let same : behind_element (c ∷ cs) ≡ c ∷ cs = rw e refl in
      let empty_piece : elements (c ∷ cs) ≡ elements cs = rw e refl in
      ap (λ p. not_empty (pieces_behind p)) same ∙ sym empty_piece ∙ ap elements (sym same)
  | inr e ↦ rw e (behind_lem cs)
]

elements-element :
    (c : ℕ) (cs : List ℕ)
    → (c == slash) ≡ false
    → elements (c ∷ cs) ≡ element (c ∷ cs) ∷ elements (behind_element (c ∷ cs))
unfolding element
elements-element c cs e =
    let shape : element (c ∷ cs) ≡ c ∷ element cs = rw e refl in
    ap not_empty (pieces-element (c ∷ cs))
    ∙ rw shape refl
    ∙ ap (λ l. (c ∷ element cs) ∷ l) (behind_lem (c ∷ cs))
    ∙ ap (λ l. l ∷ elements (behind_element (c ∷ cs))) (sym shape)

-- Whether a path that does not start with a slash has an element.
abbrev Trimmed : List ℕ → Type 0
Trimmed path = is_nil path ≡ is_nil (elements path)

Trimmed-skip_slashes : (path : List ℕ) → Trimmed (skip_slashes path)
unfolding skip_slashes
Trimmed-skip_slashes [] = refl
Trimmed-skip_slashes (c ∷ cs) = elim (Bool-cases (c == slash)) [
  | inl e ↦ rw e (Trimmed-skip_slashes cs)
  | inr e ↦
      let shape = elements-element c cs e in
      let trimmed : Trimmed (c ∷ cs) = sym (ap is_nil shape) in rw e trimmed
]

length-skip_slashes : (path : List ℕ) → length (skip_slashes path) ≤ length path
unfolding skip_slashes
length-skip_slashes [] = omega arith
length-skip_slashes (c ∷ cs) = ground (arith, length-skip_slashes cs)

length-behind_element : (path : List ℕ) → length (behind_element path) ≤ length path
unfolding behind_element
length-behind_element [] = omega arith
length-behind_element (c ∷ cs) = ground (arith, length-behind_element cs)

-- The first byte of an element is passed.
shorter :
    (c : ℕ) (cs : List ℕ)
    → (c == slash) ≡ false
    → length (behind_element (c ∷ cs)) < length (c ∷ cs)
unfolding behind_element
shorter c cs e = rw e (omega (arith, length-behind_element cs))

-- What the byte `i` of the name is after an element was put into it: that of the element, the NUL
-- behind it, or what was there.
abbrev pub name_byte : List ℕ → List ℕ → ℕ → ℕ
name_byte e name i =
    if ltb i (length e) then get_or e i 0 else if i == length e then 0 else get_or name i 0

tail_byte :
    (e name : List ℕ) (k : ℕ)
    → get_or (0 ∷ drop (length e + 1) name) k 0
      ≡ (if k == 0 then 0 else get_or name (length e + k) 0)
tail_byte e name zero = refl
tail_byte e name (suc k) =
    let shift : length e + 1 + k ≡ length e + suc k = omega arith in
    let test : (suc k == 0) ≡ false = ground arith in
    rw test (get_or-drop (length e + 1) name k 0 ∙ ap (λ j. get_or name j 0) shift)

short_byte :
    (e name : List ℕ) (i : ℕ) → get_or (e ++ 0 ∷ drop (length e + 1) name) i 0 ≡ name_byte e name i
short_byte e name i = elim (Bool-cases (ltb i (length e))) [
  | inl lt ↦ rw lt (get_or-append_left e _ i 0 (ground arith))
  | inr ge ↦
      let rest : length e + (i - length e) ≡ i = ground arith in
      let test : (i - length e == 0) ≡ (i == length e) = ground arith in
      let at_end =
        ap (λ j. get_or (e ++ 0 ∷ drop (length e + 1) name) j 0) (sym rest)
        ∙ get_or-append_right e _ (i - length e) 0
        ∙ tail_byte e name (i - length e) in
      rw ge (at_end ∙ rw (test, rest) refl)
]

-- The first 14 bytes of the name have the element, and a NUL behind it where one fits.
set_name_lem :
    (e name : List ℕ) (i : ℕ) → i < dirsiz → get_or (set_name e name) i 0 ≡ name_byte e name i
unfolding set_name
set_name_lem e name i lt = elim (Bool-cases (leb dirsiz (length e))) [
  | inl long ↦
      let inside : ltb i (length e) ≡ true = ground (arith, lt) in
      rw (long, inside) (get_or-take dirsiz e i 0 lt)
  | inr short ↦ rw short (short_byte e name i)
]

-- What `skipelem` gives at a path with these elements.
abbrev pub SkipSpec : List ℕ → List ℕ → List (List ℕ) → Option (List ℕ × List ℕ) → Type 0
SkipSpec path name es none = es ≡ []
SkipSpec path name [] (some (rest, name')) = ⊥
SkipSpec path name (e ∷ es) (some (rest, name')) =
    (name' ≡ set_name e name)
    × ((i : ℕ) → i < dirsiz → get_or name' i 0 ≡ name_byte e name i)
    × (elements rest ≡ es)
    × (is_nil rest ≡ is_nil es)
    × (length rest < length path)

at_element :
    (path name : List ℕ) (c : ℕ) (cs : List ℕ)
    → (c == slash) ≡ false
    → length (c ∷ cs) ≤ length path
    → SkipSpec path name (elements (c ∷ cs)) (after_slashes (c ∷ cs) name)
unfolding after_slashes
at_element path name c cs e le =
    let behind : List ℕ = behind_element (c ∷ cs) in
    let same = elements-skip_slashes behind in
    rw (elements-element c cs e) (
      refl,
      set_name_lem _ name,
      same,
      Trimmed-skip_slashes behind ∙ ap is_nil same,
      omega (arith, shorter c cs e, length-skip_slashes behind),
    )

after_slashes_lem :
    (path name rest : List ℕ)
    → length rest ≤ length path
    → SkipSpec path name (elements (skip_slashes rest)) (after_slashes (skip_slashes rest) name)
unfolding skip_slashes after_slashes
after_slashes_lem path name [] le = refl
after_slashes_lem path name (c ∷ cs) le = elim (Bool-cases (c == slash)) [
  | inl e ↦ rw e (after_slashes_lem path name cs (omega arith))
  | inr e ↦ rw e (at_element path name c cs e le)
]

-- `skipelem` puts the first element of the path into the name: the first 14 bytes of the name are
-- those of the element, up to its end, then a NUL, then what was there before. It gives the path
-- behind the element, which is shorter and has the other elements. It gives 0 only where there is
-- no element.
pub skipelem_lem : (path name : List ℕ) → SkipSpec path name (elements path) (skipelem path name)
unfolding skipelem
skipelem_lem path name =
    subst (λ es. SkipSpec path name es (skipelem path name)) (elements-skip_slashes path)
      (after_slashes_lem path name path (omega arith))
