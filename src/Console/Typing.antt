-- ===== src/Console/Typing.antt =====
-- `consoleintr` of system/devices/console.c, described on the two lists of Views.antt.
use dave.Common.{
  ℕ, ◌<◌, ◌≡◌, refl, sym, ap, ap₂, arith, true, ◌||◌, List, [], ◌∷◌, ◌∙◌, Bool-cases, inl, inr,
  ◌==◌,
}
use dave.Console.{
  Console, ctrl_h, ctrl_p, ctrl_u, delete, translate, kill_line, rub_out, intr_char, consoleintr,
}
use dave.Console.Line.{IsValid, ready, line}
use dave.Console.Views.{view, drop_last, type_char, type_all, Bytes, IsAwake, Typed}
use dave.Console.Erasing.{Kept, kill_line_lem, rub_out_lem}
use dave.Console.Storing.{add_char_lem}

from_Kept :
    (input_r : ℕ) (s t : Console) (l : List ℕ)
    → Kept s t
    → line t ≡ l
    → Typed input_r s t (record { released = ready s; pending = l })
from_Kept input_r s t l k e = record {
  valid = k.valid;
  lists = ap₂ (λ x y. record { released = x; pending = y }) k.same_ready e;
  wakes = λ w ne. rw k.same_procs (w (λ h. ne (k.same_r ∙ h ∙ sym k.same_w)));
}

flagged :
    (input_r : ℕ) (s : Console)
    → IsValid s
    → Typed input_r s (record s { doprocdump = true }) (view s)
flagged input_r s v = record {
  valid = record {
    storage = v.storage;
    small_r = v.small_r;
    small_w = v.small_w;
    small_e = v.small_e;
    order = v.order;
    within = v.within;
    unbroken = v.unbroken;
  };
  lists = refl;
  wakes = λ w. w;
}

intr_char_lem :
    (input_r c : ℕ) (s : Console)
    → IsValid s
    → c < 256
    → Typed input_r s (intr_char input_r c s) (type_char c (view s))
unfolding intr_char
intr_char_lem input_r c s v small = elim (Bool-cases (c == ctrl_p)) [
  | inl p ↦ rw p (flagged input_r s v)
  | inr not_p ↦ elim (Bool-cases (c == ctrl_u)) [
    | inl u ↦
        let (kept, gone) = kill_line_lem s v in
        rw (not_p, u) (from_Kept input_r s (kill_line s) [] kept gone)
    | inr not_u ↦ elim (Bool-cases (c == ctrl_h || c == delete)) [
      | inl h ↦
          let (kept, less) = rub_out_lem s v in
          rw (not_p, not_u, h) (from_Kept input_r s (rub_out s) (drop_last (line s)) kept less)
      | inr other ↦
          rw (not_p, not_u, other) (add_char_lem input_r (translate c) c s v refl (ground arith))
    ]
  ]
]

-- Whatever bytes are typed into a valid buffer, each character does to the released bytes and to the line what the list
-- description `type_char` says: C('U') and backspace remove typed characters and never released
-- ones, a line is released whole, nothing is stored beyond 128 bytes; and no reader is left asleep.
pub consoleintr_lem :
    (input_r : ℕ) (cs : List ℕ) (s : Console)
    → IsValid s
    → Bytes cs
    → IsAwake input_r s
    → IsValid (consoleintr input_r cs s)
      × (view (consoleintr input_r cs s) ≡ type_all cs (view s))
      × IsAwake input_r (consoleintr input_r cs s)
unfolding consoleintr
consoleintr_lem input_r [] s v b w = (v, refl, w)
consoleintr_lem input_r (c ∷ cs) s v (small, b) w =
    let t = intr_char_lem input_r c s v small in
    let (valid, lists, wakes) =
      consoleintr_lem input_r cs (intr_char input_r c s) t.valid b (t.wakes w) in
    (valid, lists ∙ ap (type_all cs) t.lists, wakes)
