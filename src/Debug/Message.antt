-- ===== src/Debug/Message.antt =====
-- src/debug.c: the message of `cc_print_stack` and its block.
use mathlib.Core.List.{append_assoc}
use ccore.Base.{
  ℕ, ◌+◌, ◌≤◌, ◌<◌, ◌≡◌, refl, ap, ◌∙◌, none, some, List, [], ◌∷◌, ◌++◌, lt→ltb, length,
  length-append, length-replicate, drop, replicate, arith,
}
use ccore.Base.Buffer.{store-append, length-drop}
use ccore.Base.CString.{CString}
use ccore.Base.Outcome.{ok, fault}
use ccore.Debug.{newline, backtrace_str, measured, filled, print_stack}

-- The lines of the frames.
abbrev pub lines : List CString → List ℕ
lines [] = []
lines (name ∷ names) = name ++ newline ∷ lines names

measured_lem : (names : List CString) (k : ℕ) → measured names k ≡ k + length (lines names)
unfolding measured
measured_lem [] k = omega arith
measured_lem (name ∷ names) k =
    omega (
      arith,
      measured_lem names (k + (length name + 1)),
      length-append name (newline ∷ lines names),
    )

regroup :
    (pre name rest : List ℕ)
    → pre ++ ((name ++ newline ∷ 0 ∷ []) ++ rest) ≡ (pre ++ (name ++ newline ∷ [])) ++ 0 ∷ rest
regroup pre name rest = simp append_assoc

regroup_lines :
    (pre name rest : List ℕ)
    → (pre ++ (name ++ newline ∷ [])) ++ (rest ++ 0 ∷ [])
      ≡ pre ++ ((name ++ newline ∷ rest) ++ 0 ∷ [])
regroup_lines pre name rest = simp append_assoc

filled_lem :
    (names : List CString) (pre rest : List ℕ)
    → length rest ≡ length (lines names)
    → filled names (length pre) (pre ++ 0 ∷ rest) ≡ ok (pre ++ (lines names ++ 0 ∷ []))
unfolding filled
filled_lem [] pre [] h = refl
filled_lem [] pre (b ∷ rest) h = absurd (omega (arith, h))
filled_lem (name ∷ names) pre rest h =
    let line = name ++ newline ∷ [] in
    let bytes = name ++ newline ∷ 0 ∷ [] in
    let left = drop (length bytes) (0 ∷ rest) in
    let wide : length bytes ≡ length name + 2 = length-append name (newline ∷ 0 ∷ []) in
    let room = length-append name (newline ∷ lines names) in
    let enough : length bytes ≤ length (0 ∷ rest) = omega (arith, wide, room, h) in
    let at : length pre + (length name + 1) ≡ length (pre ++ line) =
      omega (arith, length-append pre line, length-append name (newline ∷ [])) in
    let remain : length left ≡ length (lines names) =
      omega (arith, length-drop (length bytes) (0 ∷ rest) enough, wide, room, h) in
    rw (store-append pre (0 ∷ rest) bytes enough) (
      ap (λ m. filled names (length pre + (length name + 1)) m) (regroup pre name left)
      ∙ ap (λ k. filled names k ((pre ++ line) ++ 0 ∷ left)) at
      ∙ filled_lem names (pre ++ line) left remain
      ∙ ap ok (regroup_lines pre name (lines names)))

-- Where there are frames from the first that is asked for on: what is printed is the heading and a line for each frame from the first that is asked for on, in a
-- block of just that size: no write leaves it. Where `backtrace_symbols` fails, the loop reads
-- through NULL.
pub print_stack-lines :
    (garbage i sz : ℕ) (fnames : List CString)
    → i < sz
    → (print_stack garbage i sz (some fnames)
        ≡ ok (backtrace_str ++ (lines (drop i fnames) ++ 0 ∷ [])))
      × (print_stack garbage i sz none ≡ fault)
unfolding print_stack
print_stack-lines garbage i sz fnames h =
    let names = drop i fnames in
    let size = measured names (length backtrace_str) + 1 in
    let block = replicate size garbage in
    let heading = backtrace_str ++ 0 ∷ [] in
    let all : length block ≡ length backtrace_str + length (lines names) + 1 =
      omega (arith, length-replicate size garbage, measured_lem names (length backtrace_str)) in
    let enough : length heading ≤ length block = omega (arith, all) in
    let remain : length (drop (length heading) block) ≡ length (lines names) =
      omega (arith, length-drop (length heading) block enough, all) in
    (
      rw (store-append [] block heading enough)
          (filled_lem names backtrace_str (drop (length heading) block) remain),
      rw (lt→ltb i sz h) refl,
    )
