-- ===== src/Debug/Tests.antt =====
-- The message of a stack of three frames, and the symbols of a small module.
use ccore.Base.{ℕ, ◌≡◌, refl, false, Option, none, some, List, [], ◌∷◌, ◌++◌, arith}
use ccore.Base.CString.{CString, str_eq}
use ccore.Base.Outcome.{ok, fault, Returns}
use ccore.Debug.{newline, backtrace_str, print_stack}
use ccore.Debug.Message.{print_stack-lines}
use ccore.Debug.Symbols.{Statics, Line, image_base_name, directory, with_syms_txt, find_symbol}
use ccore.Debug.Symbols.Enclosing.{find_symbol-enclosing}

abbrev frames : List CString
frames = (b'a' ∷ []) ∷ (b'b' ∷ b'c' ∷ []) ∷ (b'd' ∷ []) ∷ []

print_stack-lines_example :
    (print_stack 0 1 3 (some frames)
      ≡ ok (backtrace_str ++ ((b'b' ∷ b'c' ∷ newline ∷ b'd' ∷ newline ∷ []) ++ 0 ∷ [])))
    × (print_stack 0 1 3 none ≡ fault)
print_stack-lines_example = print_stack-lines 0 1 3 frames (omega arith)

abbrev line : ℕ → ℕ → Line
line ptr c = record { ptr = ptr; sym = c ∷ [] }

-- `c\m` is a module whose symbols `f`, `g` and `h` stand behind a base of 100.
abbrev filename : CString
filename = b'c' ∷ b'\\' ∷ b'm' ∷ []

abbrev fopen : CString → Option (List Line)
fopen name = some (line 110 b'f' ∷ line 120 b'g' ∷ line 140 b'h' ∷ [])

-- What an earlier search in another module has left.
abbrev left : Statics
left = record { prevptr = 5000; image_base = 100 }

splits : directory filename ≡ some (b'c' ∷ [])
unfolding directory
splits = refl

names :
    with_syms_txt (b'c' ∷ [])
    ≡ ok (b'c' ∷ b'\\' ∷ b's' ∷ b'y' ∷ b'm' ∷ b's' ∷ b'.' ∷ b't' ∷ b'x' ∷ b't' ∷ [])
unfolding with_syms_txt
names = refl

other_names :
    (str_eq (b'f' ∷ []) image_base_name ≡ false)
    × (str_eq (b'g' ∷ []) image_base_name ≡ false)
    × (str_eq (b'h' ∷ []) image_base_name ≡ false)
unfolding str_eq
other_names = (refl, refl, refl)

find_symbol-enclosing_example :
    Returns
      (find_symbol fopen left filename 27)
      λ out. out.1 ≡ some (record { name = b'g' ∷ []; offset = 7 })
find_symbol-enclosing_example =
    find_symbol-enclosing fopen left filename 27 (line 110 b'f' ∷ []) (line 120 b'g')
      (line 140 b'h') [] splits names refl
      (
        other_names.0,
        omega arith,
        omega arith,
        omega arith,
        (other_names.1, omega arith, omega arith, omega arith, tt),
      )
      other_names.2 (omega arith) (omega arith)
