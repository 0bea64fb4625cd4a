-- ===== src/Config/Parser/Total.antt =====
-- How `parse` and `cc_cfg_load` end on a file that can be read to its end.
use ccore.Base.{
  ℕ, zero, suc, ◌+◌, ◌^◌, ◌≤◌, ◌<◌, ◌≡◌, refl, sym, ◌∙◌, inl, inr, Bool, true, false, Option, some,
  List, length, arith, Bool-cases, Option-cases,
}
use ccore.Base.CString.{CString}
use ccore.Base.Floats.{Floats}
use ccore.Base.Outcome.{Outcome, ok}
use ccore.Config.Entries.{Cfg, Value}
use ccore.Config.Entries.Lookup.{written, find_entry_or_add-IsOpened, IsAssigned, store-IsAssigned}
use ccore.Config.Entries.Search.{look, held, IsCfg}
use ccore.Config.Reader.{line_is_comment, skip_spaces, trim}
use ccore.Config.Reader.Text.{text_of, rest_of, read_line-text, rest_of-lt}
use ccore.Config.Values.{split_at, Parsed, parse_value}
use ccore.Config.Parser.{
  as_string, parse_entry, parse_line, parse_turn, parse_loop, feof, parse, empty, load,
}
use ccore.Config.Parser.Within.{
  Within, Within-refl, Within-trans, skip_spaces-Within, as_string-Within, text_of-Within,
  rest_of-Within, split_at-Within,
}
use ccore.Config.Parser.Ends.{Ends, Ends-bind, Ends-Within, trim-Ends, parse_value-Ends}

module _ {D S : Type 0} (fl : Floats D S) where
  parse_entry-Ends :
      (cfg : Cfg D) (key after : CString)
      → IsCfg cfg
      → length cfg.entries < 2 ^ 62
      → Ends fl after
          (parse_entry fl cfg key after)
          λ out. (w : Option (Value D)) × IsAssigned cfg out.1 key w
  unfolding parse_entry
  parse_entry-Ends cfg key after is small =
      let ((cfg', i), run, opened) = find_entry_or_add-IsOpened cfg key is small in
      let assigned = λ (p : Parsed D). store-IsAssigned cfg cfg' key i p.value opened in
      rw run (
        Ends-bind fl after (trim after) _ (λ t. Within t after) _
          (trim-Ends fl after after (Within-refl after))
          (λ value within.
            Ends-bind fl after (parse_value fl value) _ (λ p. Within p.rest value) _
              (Ends-Within fl value after _ _ within (parse_value-Ends fl value))
              (λ p behind. elim (Bool-cases p.success) [
                | inl good ↦ rw good (
                    Ends-bind fl after (trim p.rest) _ (λ t. Within t after) _
                      (trim-Ends fl p.rest after (Within-trans p.rest value after behind within))
                      (λ rest v.
                        inl (_, refl, (written p.value (held (look cfg key)), assigned p))))
                | inr bad ↦
                    rw bad (inl (_, refl, (written p.value (held (look cfg key)), assigned p)))
              ])))

  -- A line leaves a well-formed configuration with at most one entry more.
  abbrev Grows : Cfg D → Bool × Cfg D → Type 0
  Grows cfg out = IsCfg out.1 × (length out.1.entries ≤ length cfg.entries + 1)

  parse_line-Ends :
      (cfg : Cfg D) (line : List ℕ)
      → IsCfg cfg
      → length cfg.entries < 2 ^ 62
      → Ends fl line (parse_line fl cfg line) (Grows cfg)
  unfolding parse_line
  parse_line-Ends cfg line is small = elim (Option-cases (split_at b':' (as_string line))) [
    | inl none_there ↦ rw (none_there, parse_line) (inl ((false, cfg), refl, (is, omega arith)))
    | inr ((key, after), there) ↦
        let within =
          Within-trans after (as_string line) line
            (split_at-Within b':' (as_string line) key after there) (as_string-Within line) in
        rw (there, parse_line)
          (elim (Ends-Within fl after line _ _ within (parse_entry-Ends cfg key after is small)) [
            | inl (out, run, (w, a)) ↦ inl (out, run, (a.valid, a.longer))
            | inr bad ↦ inr bad
          ])
  ]

  parse_turn-Ends :
      (next : Cfg D → Outcome (Bool × Cfg D)) (cfg : Cfg D) (line file : List ℕ)
      → Within line file
      → IsCfg cfg
      → length cfg.entries < 2 ^ 62
      → ((cfg' : Cfg D) → Grows cfg (true, cfg') → Ends fl file (next cfg') (λ out. IsCfg out.1))
      → Ends fl file (parse_turn fl next cfg line) (λ out. IsCfg out.1)
  unfolding parse_turn
  parse_turn-Ends next cfg line file within is small onwards =
      elim (Bool-cases (line_is_comment line)) [
        | inl comment ↦ rw comment (onwards cfg (is, omega arith))
        | inr entry ↦ rw entry (
            Ends-bind fl file (parse_line fl cfg line) _ (Grows cfg) _
              (Ends-Within fl line file _ _ within (parse_line-Ends cfg line is small))
              (λ out g. finish out g))
      ]
    where
      finish :
          (out : Bool × Cfg D)
          → Grows cfg out
          → Ends fl {A = Bool × Cfg D} file
              (elim out.0 [ true ↦ next out.1 | false ↦ ok (false, out.1) ])
              (λ o. IsCfg o.1)
      finish (true, cfg') g = onwards cfg' g
      finish (false, cfg') g = inl ((false, cfg'), refl, g.0)

  parse_loop-Ends :
      (fuel : ℕ) (cfg : Cfg D) (input : List ℕ) (at_eof : Bool) (capacity : ℕ)
      → IsCfg cfg
      → (at_eof ≡ false → length cfg.entries + length input < 2 ^ 62)
      → (at_eof ≡ false → length input < fuel)
      → Ends fl input (parse_loop fl false fuel cfg input at_eof capacity) (λ out. IsCfg out.1)
  unfolding parse_loop feof
  parse_loop-Ends zero cfg input true capacity is small room = inl ((true, cfg), refl, is)
  parse_loop-Ends (suc fuel) cfg input true capacity is small room = inl ((true, cfg), refl, is)
  parse_loop-Ends zero cfg input false capacity is small room = absurd (omega (arith, room refl))
  parse_loop-Ends (suc fuel) cfg input false capacity is small room =
      let (l, run, line) = read_line-text input capacity (omega (arith, small refl)) in
      let from = skip_spaces input in
      let shorter : l.at_eof ≡ false → length l.rest < length input =
        λ more. rw line.rest_eq (rest_of-lt input (sym line.eof_eq ∙ more)) in
      let read : Within l.bytes input =
        rw line.bytes_eq (
          Within-trans (text_of from) from input (text_of-Within from)
            (skip_spaces-Within input)) in
      let left : Within l.rest input =
        rw line.rest_eq (
          Within-trans (rest_of from) from input (rest_of-Within from)
            (skip_spaces-Within input)) in
      rw run (
        parse_turn-Ends (λ cfg'. parse_loop fl false fuel cfg' l.rest l.at_eof l.capacity) cfg
          l.bytes input read is (omega (arith, small refl))
          (λ cfg' g. Ends-Within fl l.rest input _ _ left (
            parse_loop-Ends fuel cfg' l.rest l.at_eof l.capacity g.0
              (λ more. omega (arith, shorter more, small refl, g.1))
              (λ more. omega (arith, shorter more, room refl)))))

  empty-IsCfg : IsCfg (empty fl)
  empty-IsCfg = record { fits = omega arith; distinct = tt }

  -- On every file of less than `2^62` bytes that can be read to its end, `cc_cfg_load` returns a
  -- configuration whose entries fit its array and have distinct keys; or it faults, and then `atof`
  -- makes of some bytes of the file, in their order, a number out of the range of `int`, or the file
  -- has a byte of 128 or more. In both cases one round more than the file has bytes is enough fuel
  -- for its loop, and no assertion fails.
  pub load_ends :
      (file : List ℕ)
      → length file < 2 ^ 62
      → Ends fl file (load fl (some file)) (λ out. (cfg : Cfg D) × (out ≡ some cfg) × IsCfg cfg)
  unfolding load parse
  load_ends file small =
      Ends-bind fl file (parse fl (empty fl) file) _ (λ out. IsCfg out.1) _
        (parse_loop-Ends (length file + 1) (empty fl) file false 0 empty-IsCfg (λ more. omega arith)
          (λ more. omega arith))
        (λ out is. inl (some out.1, refl, (out.1, refl, is)))
