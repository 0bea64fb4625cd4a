-- ===== src/Log/Whole.antt =====
-- src/log.c: in what order the pieces of the messages of several threads are printed.
use mathlib.Core.List.{append_assoc, append-nil}
use ccore.Base.{
  ℕ, zero, suc, ◌+◌, ◌≤◌, ◌≡◌, refl, sym, ap, ◌∙◌, Bool, true, false, List, [], ◌∷◌, ◌++◌, weigh,
  weigh-append, replicate, arith,
}
use ccore.Base.CString.{CString}
use ccore.Log.{
  Level, pieces, Writer, outside, locked, printing, Stream, set_log_name, set_printer, lock, begin,
  print_piece, unlock, Step, locking, beginning, piece, unlocking, naming, redirecting, Reach, here,
  next, fresh,
}

abbrev holds : Writer → ℕ
holds outside = 0
holds (locked m) = 1
holds (printing ps) = 1

-- The pieces that a thread has yet to print.
abbrev pub left : Writer → List CString
left outside = []
left (locked m) = []
left (printing ps) = ps

abbrev pub all_left : List Writer → List CString
all_left [] = []
all_left (w ∷ ws) = left w ++ all_left ws

abbrev pub concat : List (List CString) → List CString
concat [] = []
concat (l ∷ ls) = l ++ concat ls

abbrev pub texts : List (ℕ × CString) → List CString
texts [] = []
texts ((printer, text) ∷ ps) = text ∷ texts ps

abbrev one_if : Bool → ℕ
one_if true = 1
one_if false = 0

pub record IsWhole (s : Stream) : Type 0 where
  -- The mutex is held by one thread, or by none.
  pub single : weigh holds s.writers ≡ one_if s.is_held
  -- What was printed and what its holder has left are the messages, whole, in the order of the locks.
  pub in_order : texts s.printed ++ all_left s.writers ≡ concat s.begun

nothing_left : (ws : List Writer) → weigh holds ws ≡ 0 → all_left ws ≡ []
nothing_left [] h = refl
nothing_left (outside ∷ ws) h = nothing_left ws (omega (arith, h))
nothing_left (locked m ∷ ws) h = absurd (omega (arith, h))
nothing_left (printing ps ∷ ws) h = absurd (omega (arith, h))

concat-append :
    (ls : List (List CString)) (l : List CString) → concat (ls ++ l ∷ []) ≡ concat ls ++ l
concat-append [] l = append-nil l
concat-append (k ∷ ls) l =
    ap (λ r. k ++ r) (concat-append ls l) ∙ sym (append_assoc k (concat ls) l)

texts-append :
    (ps : List (ℕ × CString)) (printer : ℕ) (text : CString)
    → texts (ps ++ (printer, text) ∷ []) ≡ texts ps ++ text ∷ []
texts-append [] printer text = refl
texts-append ((p, t) ∷ ps) printer text = ap (λ l. t ∷ l) (texts-append ps printer text)

-- Where one thread holds the mutex, the others have nothing left.
alone :
    (before : List Writer) (w : Writer) (after : List Writer)
    → weigh holds before ≡ 0
    → weigh holds after ≡ 0
    → all_left (before ++ w ∷ after) ≡ left w
alone [] w after p q = ap (λ l. left w ++ l) (nothing_left after q) ∙ append-nil (left w)
alone (outside ∷ before) w after p q = alone before w after (omega (arith, p)) q
alone (locked m ∷ before) w after p q = absurd (omega (arith, p))
alone (printing ps ∷ before) w after p q = absurd (omega (arith, p))

one_if_le : (b : Bool) → one_if b ≤ 1
one_if_le true = omega arith
one_if_le false = omega arith

module _ (s : Stream) (is : IsWhole s) (before : List Writer) (w : Writer) (after : List Writer)
    (at : s.writers ≡ before ++ w ∷ after) where
  total : weigh holds before + holds w + weigh holds after ≡ one_if s.is_held
  total = omega (arith, is.single, ap (weigh holds) at, weigh-append holds before w after)

  -- The change of a thread that holds the mutex, or takes it when nobody does.
  changed-IsWhole :
      (u : Stream) (v : Writer)
      → u.writers ≡ before ++ v ∷ after
      → weigh holds before ≡ 0
      → weigh holds after ≡ 0
      → holds v ≡ one_if u.is_held
      → (texts s.printed ++ left w ≡ concat s.begun → texts u.printed ++ left v ≡ concat u.begun)
      → IsWhole u
  changed-IsWhole u v at' none_before none_after held same =
      let was = ap all_left at ∙ alone before w after none_before none_after in
      let now = ap all_left at' ∙ alone before v after none_before none_after in
      record {
        single = omega (
          arith,
          ap (weigh holds) at',
          weigh-append holds before v after,
          none_before,
          none_after,
          held,
        );
        in_order =
            ap (λ l. texts u.printed ++ l) now
            ∙ same (ap (λ l. texts s.printed ++ l) (sym was) ∙ is.in_order);
      }

Step-IsWhole : {log_level : Level} {s u : Stream} → IsWhole s → Step log_level s u → IsWhole u
unfolding lock begin print_piece unlock set_log_name set_printer
Step-IsWhole {s = s} {u = u} is (locking before m after at free shown e) =
    let sum = total s is before outside after at in
    let none_held = ap one_if free in
    rw e (
      changed-IsWhole s is before outside after at (lock s before m after) (locked m) refl
        (omega (arith, sum, none_held)) (omega (arith, sum, none_held)) refl (λ h. h))
Step-IsWhole {s = s} {u = u} is (beginning before m after at e) =
    let sum = total s is before (locked m) after at in
    let most = one_if_le s.is_held in
    let ps = pieces s.log_name m in
    rw e (
      changed-IsWhole s is before (locked m) after at (begin s before m after) (printing ps) refl
        (omega (arith, sum, most)) (omega (arith, sum, most)) (omega (arith, sum, most))
        (λ h.
          ap (λ l. l ++ ps) (sym (append-nil (texts s.printed)) ∙ h)
          ∙ sym (concat-append s.begun ps)))
Step-IsWhole {s = s} {u = u} is (piece before text rest after at e) =
    let sum = total s is before (printing (text ∷ rest)) after at in
    let most = one_if_le s.is_held in
    rw e (
      changed-IsWhole s is before (printing (text ∷ rest)) after at
        (print_piece s before text rest after) (printing rest) refl (omega (arith, sum, most))
        (omega (arith, sum, most)) (omega (arith, sum, most))
        (λ h.
          ap (λ l. l ++ rest) (texts-append s.printed s.log_printer text)
          ∙ append_assoc (texts s.printed) (text ∷ []) rest
          ∙ h))
Step-IsWhole {s = s} {u = u} is (unlocking before after at e) =
    let sum = total s is before (printing []) after at in
    let most = one_if_le s.is_held in
    rw e (
      changed-IsWhole s is before (printing []) after at (unlock s before after) outside refl
        (omega (arith, sum, most)) (omega (arith, sum, most)) refl (λ h. h))
Step-IsWhole is (naming name e) = rw e (record { single = is.single; in_order = is.in_order })
Step-IsWhole is (redirecting printer e) =
    rw e (record { single = is.single; in_order = is.in_order })

all_outside : (n : ℕ) → weigh holds (replicate n outside) ≡ 0
all_outside zero = refl
all_outside (suc n) = omega (arith, all_outside n)

fresh-IsWhole :
    (name : CString) (printer n : ℕ) → IsWhole (fresh name printer (replicate n outside))
unfolding fresh
fresh-IsWhole name printer n = record {
  single = all_outside n;
  in_order = nothing_left (replicate n outside) (all_outside n);
}

-- However `n` threads interleave their calls of `cc_log`, `cc_printf` and `cc_print`, and whoever
-- changes the name and the printer meanwhile: one thread at most is between the lock and the unlock,
-- and what was printed, with what that thread has left, is the messages one after the other in the
-- order of their locks, each with all of its pieces together.
pub Reach-IsWhole :
    (log_level : Level) (name : CString) (printer n : ℕ) {s : Stream}
    → Reach log_level (fresh name printer (replicate n outside)) s
    → IsWhole s
Reach-IsWhole log_level name printer n here = fresh-IsWhole name printer n
Reach-IsWhole log_level name printer n (next r step) =
    Step-IsWhole (Reach-IsWhole log_level name printer n r) step
