-- ===== src/Debug/Symbols/Enclosing.antt =====
-- Which symbol is found for an address.
use ccore.Base.{
  ℕ, ◌+◌, ◌-◌, ◌%◌, ◌^◌, ◌<◌, ◌≤◌, ◌≡◌, refl, ◌∙◌, ap, Bool, true, false, ◌&&◌, Option, some, List,
  [], ◌∷◌, ◌++◌, ltb, leb, arith,
}
use ccore.Base.CString.{CString, str_eq}
use ccore.Base.Words.{size_mod}
use ccore.Base.Outcome.{ok, Returns}
use ccore.Debug.Symbols.{
  Statics, Line, image_base_name, relative, scan_lines, directory, with_syms_txt, scan_file,
  find_symbol,
}

-- Symbols that lie between the image's base and an address: none is the base itself.
abbrev pub UpTo : ℕ → ℕ → List Line → Type 0
UpTo base addr [] = Unit {0}
UpTo base addr (l ∷ ls) =
    (str_eq l.sym image_base_name ≡ false)
    × (base ≤ l.ptr)
    × (l.ptr ≤ base + addr)
    × (l.ptr < size_mod)
    × UpTo base addr ls

relative_lem : (ptr base : ℕ) → base ≤ ptr → ptr < size_mod → relative ptr base ≡ ptr - base
relative_lem ptr base le small = omega arith

and_false : (b : Bool) → (b && false) ≡ false
and_false true = refl
and_false false = refl

-- A line up to the address is passed over, and remembered.
pass :
    (s : Statics) (addr : ℕ) (prevsym : CString) (l : Line) (ls : List Line)
    → str_eq l.sym image_base_name ≡ false
    → s.image_base ≤ l.ptr
    → l.ptr ≤ s.image_base + addr
    → l.ptr < size_mod
    → scan_lines s addr prevsym (l ∷ ls)
      ≡ scan_lines (record s { prevptr = l.ptr - s.image_base }) addr l.sym ls
unfolding scan_lines
pass s addr prevsym l ls plain from to small =
    let ptr = relative l.ptr s.image_base in
    let e : ptr ≡ l.ptr - s.image_base = relative_lem l.ptr s.image_base from small in
    let not_yet : ltb addr ptr ≡ false = ground arith in
    rw (plain, not_yet, and_false (leb s.prevptr addr))
      (ap (λ p. scan_lines (record s { prevptr = p }) addr l.sym ls) e)

-- The first line above the address ends the search at the line before it.
found :
    (s : Statics) (addr : ℕ) (prevsym : CString) (m : Line) (ls : List Line)
    → str_eq m.sym image_base_name ≡ false
    → s.image_base + addr < m.ptr
    → m.ptr < size_mod
    → s.prevptr ≤ addr
    → (scan_lines s addr prevsym (m ∷ ls)).1
      ≡ some (record { name = prevsym; offset = (addr - s.prevptr) % 2 ^ 32 })
unfolding scan_lines
found s addr prevsym m ls plain above small behind =
    let e : relative m.ptr s.image_base ≡ m.ptr - s.image_base =
      relative_lem m.ptr s.image_base (omega arith) small in
    let here : ltb addr (relative m.ptr s.image_base) ≡ true = ground arith in
    let seen : leb s.prevptr addr ≡ true = ground arith in rw (plain, here, seen) refl

-- For an address from a symbol `l` on and before the next symbol, in a file whose symbols before `l`
-- are all up to the address, the symbol that is found is `l`, with the distance from it, whatever
-- earlier calls have left in `prevptr`.
scan_lines-enclosing :
    (s : Statics) (addr : ℕ) (prevsym : CString) (pre : List Line) (l m : Line) (post : List Line)
    → UpTo s.image_base addr (pre ++ l ∷ [])
    → str_eq m.sym image_base_name ≡ false
    → s.image_base + addr < m.ptr
    → m.ptr < size_mod
    → (scan_lines s addr prevsym (pre ++ l ∷ m ∷ post)).1
      ≡ some (record { name = l.sym; offset = (s.image_base + addr - l.ptr) % 2 ^ 32 })
scan_lines-enclosing s addr prevsym [] l m post (plain, from, to, small, end) plain' above small' =
    let distance : addr - (l.ptr - s.image_base) ≡ s.image_base + addr - l.ptr = omega arith in
    ap (λ out. out.1) (pass s addr prevsym l (m ∷ post) plain from to small)
    ∙ found (record s { prevptr = l.ptr - s.image_base }) addr l.sym m post plain' above small'
        (omega arith)
    ∙ ap (λ k. some (record { name = l.sym; offset = k % 2 ^ 32 })) distance
scan_lines-enclosing s addr prevsym (k ∷ pre) l m post (plain, from, to, small, up) plain' above
      small' =
    ap (λ out. out.1) (pass s addr prevsym k (pre ++ l ∷ m ∷ post) plain from to small)
    ∙ scan_lines-enclosing (record s { prevptr = k.ptr - s.image_base }) addr k.sym pre l m post up
        plain' above small'

-- Where the module's directory fits the buffer and its `syms.txt` opens: for an address from a symbol
-- `l` on and before the next line `m`, in a file whose symbols up to `l` are between the image's base
-- and the address, and where neither these nor `m` are the line of the base, the symbol that
-- `find_symbol` finds is `l`, with the distance from it modulo `2^32`, whatever earlier calls have
-- left in `prevptr`. Addresses are 64-bit numbers.
pub find_symbol-enclosing :
    (fopen : CString → Option (List Line)) (s : Statics) (filename : CString) (addr : ℕ)
    {dir name : CString} (pre : List Line) (l m : Line) (post : List Line)
    → directory filename ≡ some dir
    → with_syms_txt dir ≡ ok name
    → fopen name ≡ some (pre ++ l ∷ m ∷ post)
    → UpTo s.image_base addr (pre ++ l ∷ [])
    → str_eq m.sym image_base_name ≡ false
    → s.image_base + addr < m.ptr
    → m.ptr < size_mod
    → Returns (find_symbol fopen s filename addr) λ out.
      out.1 ≡ some (record { name = l.sym; offset = (s.image_base + addr - l.ptr) % 2 ^ 32 })
unfolding find_symbol scan_file
find_symbol-enclosing fopen s filename addr pre l m post split named opened up plain above small = (
  scan_lines s addr [] (pre ++ l ∷ m ∷ post),
  rw (find_symbol, split, named, scan_file, opened) refl,
  scan_lines-enclosing s addr [] pre l m post up plain above small,
)
