-- ===== src/Proc/Alloc.antt =====
-- `allocproc` of system/core/proc.c on each of its three ways out.
use dave.Common.{
  ℕ, zero, suc, ◌+◌, ◌-◌, ◌<◌, ◌≡◌, ◌≢◌, ◌⊎◌, refl, ap, arith, true, false, [], ◌∷◌, none, some,
  ◌==◌, get_elem?, ◌∙◌, of_some, inl, inr, Bool-cases, ==_iff, add32, update,
}
use dave.Kalloc.{kalloc}
use dave.Proc.{
  Proc, Table, unused, embryo, is_unused, modify, find_unused, Kernel, allocproc, stack_tf,
  stack_context, clear_context,
}
use dave.Proc.Wake.{get_elem?-modify_self, get_elem?-modify_ne}

-- The first unused slot, or none.
pub find_unused_lem :
    (ps : Table) (i : ℕ)
    → ((k : ℕ) × (p : Proc) × (find_unused ps i ≡ some (i + k))
        × (get_elem? ps k ≡ some p)
        × (is_unused p.state ≡ true)
        × ((j : ℕ) (q : Proc) → j < k → get_elem? ps j ≡ some q → is_unused q.state ≡ false))
      ⊎ ((find_unused ps i ≡ none)
          × ((j : ℕ) (q : Proc) → get_elem? ps j ≡ some q → is_unused q.state ≡ false))
unfolding find_unused
find_unused_lem [] i = inr (refl, λ j q e. cc)
find_unused_lem (p ∷ ps) i = elim (Bool-cases (is_unused p.state)) [
  | inl hit ↦ rw hit (inl (0, p, ground arith, refl, hit, λ j q lt. absurd (omega arith)))
  | inr miss ↦ rw miss (elim (find_unused_lem ps (suc i)) [
    | inl (k, q, e, here, free, before) ↦ inl (
      suc k,
      q,
      e ∙ ap some (omega arith),
      here,
      free,
      elim [
        | zero ↦ λ r lt h. ground (arith, of_some h)
        | suc j ↦ λ r lt h. before j r (omega arith) h
      ],
    )
    | inr (e, all) ↦
        inr (e, elim [ zero ↦ λ r h. ground (arith, of_some h) | suc j ↦ λ r h. all j r h ])
  ])
]

abbrev Others : ℕ → Table → Table → Type 0
Others i ps qs = (j : ℕ) → i ≢ j → get_elem? qs j ≡ get_elem? ps j

-- The slot is born with the next pid and a kernel stack that holds its frame and its context.
pub record Born (y z : Kernel) (i : ℕ) : Type 0 where
  pub was : Proc
  pub page : ℕ
  pub free : get_elem? y.table i ≡ some was
  pub unused_before : is_unused was.state ≡ true
  pub first : (j : ℕ) (q : Proc) → j < i → get_elem? y.table j ≡ some q → is_unused q.state ≡ false
  pub stack : (kalloc y.kmem).0 ≡ page
  pub real : page ≢ 0
  pub now :
      get_elem? z.table i
      ≡ some (record was {
        state = embryo;
        pid = y.nextpid;
        kstack = page;
        tf = stack_tf page;
        context = stack_context page;
      })
  pub others : Others i y.table z.table
  pub counted : z.nextpid ≡ add32 y.nextpid 1

-- No slot was free, or there was no page for a kernel stack and the slot is unused again.
pub data NotBorn (y z : Kernel) : Type 0 where
  table_full :
      ((j : ℕ) (q : Proc) → get_elem? y.table j ≡ some q → is_unused q.state ≡ false)
      → z ≡ y
      → NotBorn y z
  no_stack :
      (i : ℕ) (p : Proc)
      → (kalloc y.kmem).0 ≡ 0
      → get_elem? z.table i ≡ some p
      → is_unused p.state ≡ true
      → Others i y.table z.table
      → NotBorn y z

module _ (trapret forkret : ℕ) (y : Kernel) where
  abbrev pub born : ℕ → Table
  born i = modify (λ p. record p { state = embryo; pid = y.nextpid }) i y.table

  abbrev pub lost : ℕ → Kernel
  lost i = record {
    table = modify (λ p. record p { kstack = 0; state = unused }) i (born i);
    nextpid = add32 y.nextpid 1;
    kmem = (kalloc y.kmem).1;
  }

  abbrev pub given : ℕ → Kernel
  given i =
      let page = (kalloc y.kmem).0 in
      record {
        table =
            modify
              (λ p. record p { kstack = page; tf = stack_tf page; context = stack_context page }) i
              (born i);
        nextpid = add32 y.nextpid 1;
        kmem = record ((kalloc y.kmem).1) {
          words =
              clear_context (stack_context page) forkret
                (update ((kalloc y.kmem).1).words (stack_tf page - 4) trapret);
        };
      }

  pub allocproc-full : find_unused y.table 0 ≡ none → allocproc trapret forkret y ≡ (none, y)
  unfolding allocproc
  allocproc-full e = ground arith

  pub allocproc-lost :
      (i : ℕ)
      → find_unused y.table 0 ≡ some i
      → (kalloc y.kmem).0 ≡ 0
      → allocproc trapret forkret y ≡ (none, lost i)
  unfolding allocproc
  allocproc-lost i e z = ground arith

  pub allocproc-given :
      (i : ℕ)
      → find_unused y.table 0 ≡ some i
      → ((kalloc y.kmem).0 == 0) ≡ false
      → allocproc trapret forkret y ≡ (some i, given i)
  unfolding allocproc
  allocproc-given i e z = ground arith

  lost-NotBorn :
      (i : ℕ) (p : Proc) → get_elem? y.table i ≡ some p → (kalloc y.kmem).0 ≡ 0 → NotBorn y (lost i)
  lost-NotBorn i p here z =
      let f : Proc → Proc = λ q. record q { state = embryo; pid = y.nextpid } in
      let g : Proc → Proc = λ q. record q { kstack = 0; state = unused } in
      no_stack i (g (f p)) z
        (get_elem?-modify_self g (born i) i (f p) (get_elem?-modify_self f y.table i p here)) refl
        (λ j ne. get_elem?-modify_ne g (born i) i j ne ∙ get_elem?-modify_ne f y.table i j ne)

  given-Born :
      (i : ℕ) (p : Proc)
      → get_elem? y.table i ≡ some p
      → is_unused p.state ≡ true
      → ((j : ℕ) (q : Proc) → j < i → get_elem? y.table j ≡ some q → is_unused q.state ≡ false)
      → (kalloc y.kmem).0 ≢ 0
      → Born y (given i) i
  given-Born i p here free before real =
      let page = (kalloc y.kmem).0 in
      let f : Proc → Proc = λ q. record q { state = embryo; pid = y.nextpid } in
      let g : Proc → Proc =
        λ q. record q { kstack = page; tf = stack_tf page; context = stack_context page } in
      record {
        was = p;
        page = page;
        free = here;
        unused_before = free;
        first = before;
        stack = refl;
        real = real;
        now = get_elem?-modify_self g (born i) i (f p) (get_elem?-modify_self f y.table i p here);
        others =
            λ j ne. get_elem?-modify_ne g (born i) i j ne ∙ get_elem?-modify_ne f y.table i j ne;
        counted = refl;
      }

  -- `allocproc` takes the first unused slot and gives it the next pid and a kernel stack with the
  -- frame and the context at its top; or it returns 0, because no slot was unused, or because
  -- there was no page, and then the slot is unused again. No other slot changes.
  pub allocproc_lem :
      ((i : ℕ) × (z : Kernel) × (allocproc trapret forkret y ≡ (some i, z)) × Born y z i)
      ⊎ ((z : Kernel) × (allocproc trapret forkret y ≡ (none, z)) × NotBorn y z)
  allocproc_lem = elim (find_unused_lem y.table 0) [
    | inr (e, all) ↦ inr (y, allocproc-full e, table_full all refl)
    | inl (i, p, e, here, free, before) ↦
        let found : find_unused y.table 0 ≡ some i = e ∙ ap some (omega arith) in
        elim (Bool-cases ((kalloc y.kmem).0 == 0)) [
          | inl z ↦
              let no_page : (kalloc y.kmem).0 ≡ 0 = (==_iff _ 0).0 z in
              inr (lost i, allocproc-lost i found no_page, lost-NotBorn i p here no_page)
          | inr z ↦ inl (
            i,
            given i,
            allocproc-given i found z,
            given-Born i p here free before (ground arith),
          )
        ]
  ]
