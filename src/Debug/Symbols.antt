-- ===== src/Debug/Symbols.antt =====
-- src/debug.c, on Windows: the search for the module and the symbol of an address. A module's range
-- and the lines of its `syms.txt` are arguments; addresses are 64-bit numbers.
pub mod Enclosing
use ccore.Base.{
  ℕ, ◌+◌, ◌-◌, ◌%◌, ◌^◌, Bool, true, false, ◌&&◌, Option, none, some, List, [], ◌∷◌, ◌++◌, ◌==◌,
  ltb, leb, if◌then◌else◌, length, take,
}
use ccore.Base.CString.{CString, str_eq}
use ccore.Base.Outcome.{Outcome, ok, fault, ◌>>=◌}
use ccore.Base.Words.{size_mod}

-- `MODULEINFO` and the handle in `modules`
pub record Module : Type 0 where
  pub base : ℕ
  pub size : ℕ
  pub handle : ℕ

-- `find_module`: the handle and `*module_base`.
unfoldable pub find_module : List Module → ℕ → Option ℕ × ℕ
find_module [] pc = (none, 0)
find_module (m ∷ ms) pc =
    if leb m.base pc && ltb pc ((m.base + m.size) % size_mod)
    then (some m.handle, m.base)
    else find_module ms pc

-- The static variables of `find_symbol` that it does not set before it reads them.
pub record Statics : Type 0 where
  pub prevptr : ℕ
  pub image_base : ℕ

-- A line that `fscanf` reads: an address and a name of at most 1023 bytes.
pub record Line : Type 0 where
  pub ptr : ℕ
  pub sym : CString

-- "__image_base__"
abbrev pub image_base_name : CString
image_base_name =
    b'_' ∷ b'_' ∷ b'i' ∷ b'm' ∷ b'a' ∷ b'g' ∷ b'e' ∷ b'_' ∷ b'b' ∷ b'a' ∷ b's' ∷ b'e' ∷ b'_' ∷ b'_'
    ∷ []

-- The name and the offset that are printed into `symname`.
pub record Symbol : Type 0 where
  pub name : CString
  pub offset : ℕ

-- `ptr - image_base`
abbrev pub relative : ℕ → ℕ → ℕ
relative ptr image_base = (ptr + size_mod - image_base) % size_mod

unfoldable pub scan_lines : Statics → ℕ → CString → List Line → Statics × Option Symbol
scan_lines s addr prevsym [] = (s, none)
scan_lines s addr prevsym (l ∷ ls) =
    let ptr = relative l.ptr s.image_base in
    let is_base = str_eq l.sym image_base_name in
    let rest =
      scan_lines (if is_base then record s { image_base = l.ptr } else record s { prevptr = ptr })
        addr (if is_base then prevsym else l.sym) ls in
    if is_base
    then rest
    else if leb s.prevptr addr && ltb addr ptr
    then (s, some (record { name = prevsym; offset = (addr - s.prevptr) % 2 ^ 32 }))
    else rest

-- What is before the last backslash.
unfoldable pub directory : CString → Option CString
directory [] = none
directory (c ∷ s) = elim (directory s) [
  | some d ↦ some (c ∷ d)
  | none ↦ if c == b'\\' then some [] else none
]

-- `"\\" "syms.txt"`
abbrev pub syms_txt : CString
syms_txt = b'\\' ∷ b's' ∷ b'y' ∷ b'm' ∷ b's' ∷ b'.' ∷ b't' ∷ b'x' ∷ b't' ∷ []

-- `MAX_PATH`
abbrev pub max_path : ℕ
max_path = 260

-- `strncat` appends to `symstxtname`, whose `max_path` bytes also hold a NUL.
unfoldable pub with_syms_txt : CString → Outcome CString
with_syms_txt dir =
    let name = take (max_path - 1) dir ++ syms_txt in
    if ltb (length name) max_path then ok name else fault

unfoldable pub scan_file : Statics → ℕ → Option (List Line) → Statics × Option Symbol
unfolding scan_lines
scan_file s addr none = (s, none)
scan_file s addr (some ls) = scan_lines s addr [] ls

-- `find_symbol`, where `fopen` is given the lines of a file.
unfoldable pub find_symbol :
    (CString → Option (List Line)) → Statics → CString → ℕ → Outcome (Statics × Option Symbol)
unfolding directory with_syms_txt scan_file
find_symbol fopen s filename addr = elim (directory filename) [
  | none ↦ ok (s, none)
  | some dir ↦ do name ← with_syms_txt dir; ok (scan_file s addr (fopen name))
]
