-- ===== src/Config/Parser/RoundTrip.antt =====
-- Files written as `key: literal` lines are read back as what was written.
use ccore.Base.{
  ℕ, zero, suc, ◌+◌, ◌^◌, ◌<◌, ◌≡◌, refl, ◌∙◌, ap, Bool, true, false, none, some, List, [], ◌∷◌,
  ◌++◌, length, length-append, arith,
}
use ccore.Base.CString.{CString}
use ccore.Base.Floats.{Floats}
use ccore.Base.Outcome.{Outcome, ok, Returns}
use ccore.Config.Entries.{Cfg, store}
use ccore.Config.Entries.Lookup.{find_entry_or_add-IsOpened, IsAssigned, store-IsAssigned}
use ccore.Config.Entries.Search.{look, IsCfg}
use ccore.Config.Reader.{Line, read_line}
use ccore.Config.Reader.Text.{text_of, rest_of, is_last, read_line-text}
use ccore.Config.Values.{split_at}
use ccore.Config.Parser.{parse_entry, parse_line, parse_turn, parse_loop, feof, parse, empty, load}
use ccore.Config.Parser.Literals.{
  AreSettings, IsKey, IsLiteral, Literal, Visible-line_of, as_string-Visible, comment-line_of,
  line_of, parse_value-print, plain_key, print, print_file, read-Visible, settled, split_at-append,
  skip_spaces-line_of, trim_space, value_of,
}

module _ {D S : Type 0} (fl : Floats D S) where
  module _ (cfg : Cfg D) (key : List ℕ) (l : Literal) (is : IsCfg cfg)
      (small : length cfg.entries < 2 ^ 62) (k : IsKey key) (lit : IsLiteral fl l) where
    parse_entry-print :
        (cfg' : Cfg D) × (parse_entry fl cfg key (b' ' ∷ print l) ≡ ok (true, cfg'))
        × IsAssigned cfg cfg' key (some (value_of fl l))
    unfolding parse_entry
    parse_entry-print =
        let ((cfg', i), run, opened) = find_entry_or_add-IsOpened cfg key is small in
        (
          store cfg' i (some (value_of fl l)),
          rw (run, trim_space fl l lit, parse_value-print fl l lit),
          store-IsAssigned cfg cfg' key i (some (value_of fl l)) opened,
        )

    parse_line-print :
        parse_line fl cfg (line_of fl key l) ≡ parse_entry fl cfg key (b' ' ∷ print l)
    unfolding parse_line
    parse_line-print =
        let whole = as_string-Visible (line_of fl key l) (Visible-line_of fl key l k lit) in
        let parts =
          ap (split_at b':') whole ∙ split_at-append b':' key (b' ' ∷ print l) (plain_key key k) in
        rw (parts, parse_line)

    parse_turn-print :
        (next : Cfg D → Outcome (Bool × Cfg D))
        → (cfg' : Cfg D) × (parse_turn fl next cfg (line_of fl key l) ≡ next cfg')
          × IsAssigned cfg cfg' key (some (value_of fl l))
    unfolding parse_turn
    parse_turn-print next =
        let (cfg', run, a) = parse_entry-print in
        (cfg', rw (comment-line_of fl key l k, parse_line-print, run), a)

  parse_loop-eof :
      (fails : Bool) (fuel : ℕ) (cfg : Cfg D) (input : List ℕ) (capacity : ℕ)
      → parse_loop fl fails fuel cfg input true capacity ≡ ok (true, cfg)
  unfolding parse_loop
  parse_loop-eof fails zero cfg input capacity = refl
  parse_loop-eof fails (suc fuel) cfg input capacity = refl

  pub parse_loop-step :
      (fails : Bool) (fuel : ℕ) (cfg : Cfg D) (input : List ℕ) (capacity : ℕ) (l : Line)
      → read_line input capacity ≡ ok l
      → parse_loop fl fails (suc fuel) cfg input false capacity
        ≡ parse_turn fl
            (λ c. parse_loop fl fails fuel c l.rest (feof fails l.at_eof) l.capacity)
            cfg
            l.bytes
  unfolding parse_loop
  parse_loop-step fails fuel cfg input capacity l run = rw run

  -- What one call of `read_line` takes from a written file.
  read_line-print :
      (key : List ℕ) (l : Literal) (more : List ℕ) (capacity : ℕ)
      → IsKey key
      → IsLiteral fl l
      → length (line_of fl key l ++ b'\n' ∷ more) < 2 ^ 62
      → (room : ℕ) × (read_line (line_of fl key l ++ b'\n' ∷ more) capacity
          ≡ ok (record { bytes = line_of fl key l; capacity = room; rest = more; at_eof = false }))
  read_line-print key l more capacity k is small =
      let input = line_of fl key l ++ b'\n' ∷ more in
      let (r, run, taken) = read_line-text input capacity small in
      let kept = skip_spaces-line_of fl key l (b'\n' ∷ more) k in
      let (text, rest, going) =
        read-Visible (line_of fl key l) more (Visible-line_of fl key l k is) in
      let bytes = taken.bytes_eq ∙ ap text_of kept ∙ text in
      let left = taken.rest_eq ∙ ap rest_of kept ∙ rest in
      let at_eof = taken.eof_eq ∙ ap is_last kept ∙ going in
      (
        r.capacity,
        run
            ∙ ap ok (λ i. record {
              bytes = bytes i;
              capacity = r.capacity;
              rest = left i;
              at_eof = at_eof i;
            }),
      )

  pub read_line-nil :
      (capacity : ℕ)
      → read_line [] capacity
        ≡ ok (record { bytes = []; capacity = capacity; rest = []; at_eof = true })
  unfolding read_line
  read_line-nil capacity = refl

  pub parse_turn-nil :
      (next : Cfg D → Outcome (Bool × Cfg D)) (cfg : Cfg D) → parse_turn fl next cfg [] ≡ next cfg
  unfolding parse_turn
  parse_turn-nil next cfg = refl

  feof-false : (fails : Bool) → feof fails false ≡ false
  unfolding feof
  feof-false true = refl
  feof-false false = refl

  -- The round that reads the first setting of a written file.
  pub parse_loop-setting :
      (fails : Bool) (fuel : ℕ) (cfg : Cfg D) (key : List ℕ) (l : Literal)
      (rest : List (List ℕ × Literal)) (capacity : ℕ)
      → IsCfg cfg
      → IsKey key
      → IsLiteral fl l
      → length cfg.entries + length (print_file fl ((key, l) ∷ rest)) < 2 ^ 62
      → (cfg' : Cfg D) × (room : ℕ) × (parse_loop fl fails
            (suc fuel)
            cfg
            (print_file fl ((key, l) ∷ rest))
            false
            capacity
          ≡ parse_loop fl fails fuel cfg' (print_file fl rest) false room)
        × IsAssigned cfg cfg' key (some (value_of fl l))
        × (length cfg'.entries + length (print_file fl rest) < 2 ^ 62)
  parse_loop-setting fails fuel cfg key l rest capacity is k lit small =
      let sized = length-append (line_of fl key l) (b'\n' ∷ print_file fl rest) in
      let (room, run) =
        read_line-print key l (print_file fl rest) capacity k lit (omega (arith, sized)) in
      let (cfg', turn, a) =
        parse_turn-print cfg key l is (omega arith) k lit
          (λ c. parse_loop fl fails fuel c (print_file fl rest) (feof fails false) room) in
      (
        cfg',
        room,
        parse_loop-step fails fuel cfg _ capacity _ run
            ∙ turn
            ∙ ap (λ b. parse_loop fl fails fuel cfg' (print_file fl rest) b room)
                (feof-false fails),
        a,
        omega (arith, sized, a.longer),
      )

  parse_loop-print :
      (fuel : ℕ) (cfg : Cfg D) (ss : List (List ℕ × Literal)) (capacity : ℕ)
      → IsCfg cfg
      → AreSettings fl ss
      → length cfg.entries + length (print_file fl ss) < 2 ^ 62
      → length (print_file fl ss) < fuel
      → Returns (parse_loop fl false fuel cfg (print_file fl ss) false capacity) λ out.
        (out.0 ≡ true) × IsCfg out.1 × ((j : CString) → look out.1 j ≡ settled fl (look cfg j) j ss)
  unfolding feof
  parse_loop-print zero cfg ss capacity is are small room = absurd (omega arith)
  parse_loop-print (suc fuel) cfg [] capacity is are small room = (
    (true, cfg),
    parse_loop-step false fuel cfg [] capacity _ (read_line-nil capacity)
        ∙ parse_turn-nil (λ c. parse_loop fl false fuel c [] true capacity) cfg
        ∙ parse_loop-eof false fuel cfg [] capacity,
    (refl, is, λ j. refl),
  )
  parse_loop-print (suc fuel) cfg ((key, l) ∷ rest) capacity is (k, lit, are) small room =
      let sized = length-append (line_of fl key l) (b'\n' ∷ print_file fl rest) in
      let (cfg', roomy, turn, a, small') =
        parse_loop-setting false fuel cfg key l rest capacity is k lit small in
      let (out, runs, (good, is', reads)) =
        parse_loop-print fuel cfg' rest roomy a.valid are small' (omega (arith, sized)) in
      (out, turn ∙ runs, (good, is', λ j. reads j ∙ ap (λ old. settled fl old j rest) (a.reads j)))

  -- A file of less than `2^62` bytes that holds a line `key: literal` for each setting, and is read to
  -- its end, loads with no error. Then each key has the value that was last written for it, and no
  -- other key has one: a text in quotes is held as that text, `true` and `false` as 1 and 0, and
  -- digits as the `double` that `atof` makes of them and as the `int` of that, where it is in range.
  -- No text or key has a NUL or an end of line in it, no text a double quote, and no key a colon, and no
  -- key begins with white space, `#` or `/`.
  pub load-print :
      (ss : List (List ℕ × Literal))
      → AreSettings fl ss
      → length (print_file fl ss) < 2 ^ 62
      → Returns (load fl (some (print_file fl ss))) λ out.
        (cfg : Cfg D) × (out ≡ some cfg) × ((j : CString) → look cfg j ≡ settled fl none j ss)
  unfolding load parse
  load-print ss are small =
      let (out, run, (good, is, reads)) =
        parse_loop-print (length (print_file fl ss) + 1) (empty fl) ss 0
          (record { fits = omega arith; distinct = tt }) are (omega arith) (omega arith) in
      (some out.1, rw run, (out.1, refl, λ j. reads j ∙ (unfold look in refl)))
