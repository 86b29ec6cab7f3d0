-- ===== src/Paths/Walk.antt =====
-- `namex` of system/storage/fs.c as a walk over the elements of its path.
use dave.Common.{
  ℕ, zero, suc, ◌<◌, ◌≡◌, refl, ap, ap₂, ◌∙◌, subst, arith, Bool, inl, inr, List, [], ◌∷◌, Option,
  some, Option-cases, Result, ok, panic, Result-cases, if◌then◌else◌, length,
}
use dave.Fs.{Super, Disk}
use dave.Icache.{Icache, iget, idup}
use dave.Paths.{
  set_name, skipelem, is_nil, Round, ends, goes_on, namex_round, namex_end, namex_from, namex,
  is_absolute, rootino,
}
use dave.Paths.Elements.{elements, SkipSpec, skipelem_lem}

module _ (devread : ℕ → Option (ℕ → Option (List ℕ))) (sb : Super) (parent : Bool) where
  -- One round for each element, until a round ends it.
  unfoldable pub walk :
      List (List ℕ) → List ℕ → ℕ → Icache → Disk → Result (Option ℕ × List ℕ × Icache × Disk)
  walk [] name i ic s = namex_end sb parent name i ic s
  walk (e ∷ es) name i ic s =
      elim (namex_round devread sb parent (is_nil es) (set_name e name) i ic s) [
        | panic ↦ panic
        | ok r ↦ elim r [
          | ends found ic' s' ↦ ok (found, set_name e name, ic', s')
          | goes_on j ic' s' ↦ walk es (set_name e name) j ic' s'
        ]
      ]

  walk_end :
      (es : List (List ℕ)) (name : List ℕ) (i : ℕ) (ic : Icache) (s : Disk)
      → es ≡ []
      → namex_end sb parent name i ic s ≡ walk es name i ic s
  unfolding walk
  walk_end es name i ic s e = rw e refl

  -- A round at the first element, where the rest is known to agree.
  at_element :
      (k : ℕ) (path name : List ℕ) (i : ℕ) (ic : Icache) (s : Disk) (es : List (List ℕ))
      (rest name' : List ℕ)
      → ((nm : List ℕ) (j : ℕ) (jc : Icache) (t : Disk)
          → length rest < length path
          → namex_from devread sb k parent rest nm j jc t ≡ walk (elements rest) nm j jc t)
      → SkipSpec path name es (some (rest, name'))
      → (elim (namex_round devread sb parent (is_nil rest) name' i ic s)
          as (λ o. Result (Option ℕ × List ℕ × Icache × Disk)) [
            | panic ↦ panic
            | ok r ↦ elim r as (λ o. Result (Option ℕ × List ℕ × Icache × Disk)) [
              | ends found ic' s' ↦ ok (found, name', ic', s')
              | goes_on j ic' s' ↦ namex_from devread sb k parent rest name' j ic' s'
            ]
          ])
        ≡ walk es name i ic s
  unfolding walk
  at_element k path name i ic s [] rest name' again spec = absurd spec
  at_element k path name i ic s (x ∷ xs) rest name' again
        (same_name, _, same_rest, same_last, less) =
      let same = ap₂ (λ b nm. namex_round devread sb parent b nm i ic s) same_last same_name in
      elim (Result-cases (namex_round devread sb parent (is_nil xs) (set_name x name) i ic s)) [
        | inl e ↦ rw (same, e, walk) refl
        | inr (r, e) ↦ rw (same, e, walk) (after r)
      ]
    where
      after :
          (r : Round)
          → (elim r as (λ o. Result (Option ℕ × List ℕ × Icache × Disk)) [
            | ends found ic' s' ↦ ok (found, name', ic', s')
            | goes_on j ic' s' ↦ namex_from devread sb k parent rest name' j ic' s'
          ])
            ≡ (elim r as (λ o. Result (Option ℕ × List ℕ × Icache × Disk)) [
              | ends found ic' s' ↦ ok (found, set_name x name, ic', s')
              | goes_on j ic' s' ↦ walk xs (set_name x name) j ic' s'
            ])
      after (ends found ic' s') = ap (λ nm. ok (found, nm, ic', s')) same_name
      after (goes_on j ic' s') =
          again name' j ic' s' less ∙ ap₂ (λ es nm. walk es nm j ic' s') same_rest same_name

  namex_from_lem :
      (k : ℕ) (path name : List ℕ) (i : ℕ) (ic : Icache) (s : Disk)
      → length path < k
      → namex_from devread sb k parent path name i ic s ≡ walk (elements path) name i ic s
  unfolding namex_from
  namex_from_lem zero path name i ic s lt = absurd (omega arith)
  namex_from_lem (suc k) path name i ic s lt =
      let spec = skipelem_lem path name in
      elim (Option-cases (skipelem path name)) [
        | inl e ↦
            let no_elements = subst (SkipSpec path name (elements path)) e spec in
            rw (e, namex_from) (walk_end (elements path) name i ic s no_elements)
        | inr ((rest, name'), e) ↦
            rw (e, namex_from)
              (at_element k path name i ic s (elements path) rest name'
                (λ nm j jc t less. namex_from_lem k rest nm j jc t (omega arith))
                (subst (SkipSpec path name (elements path)) e spec))
      ]

  -- `namex` starts at the root or at the current directory and makes one round for each element of
  -- the path, whatever slashes are between them; its loop ends.
  pub namex_lem :
      (path name : List ℕ) (cwd : ℕ) (ic : Icache) (s : Disk)
      → namex devread sb parent path name cwd ic s
        ≡ (elim (if is_absolute path then iget rootino ic else ok (idup cwd ic))
            as (λ o. Result (Option ℕ × List ℕ × Icache × Disk)) [
              | panic ↦ panic
              | ok (i, ic') ↦ walk (elements path) name i ic' s
            ])
  unfolding namex
  namex_lem path name cwd ic s = by_start _
    where
      by_start :
          (start : Result (ℕ × Icache))
          → (elim start as (λ o. Result (Option ℕ × List ℕ × Icache × Disk)) [
            | panic ↦ panic
            | ok (i, ic') ↦ namex_from devread sb (suc (length path)) parent path name i ic' s
          ])
            ≡ (elim start as (λ o. Result (Option ℕ × List ℕ × Icache × Disk)) [
              | panic ↦ panic
              | ok (i, ic') ↦ walk (elements path) name i ic' s
            ])
      by_start panic = refl
      by_start (ok (i, ic')) = namex_from_lem (suc (length path)) path name i ic' s (omega arith)
