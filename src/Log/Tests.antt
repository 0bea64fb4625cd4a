-- ===== src/Log/Tests.antt =====
-- A message of one thread while another changes the printer.
use ccore.Base.{◌≡◌, refl, [], ◌∷◌, replicate, take}
use ccore.Base.CString.{CString}
use ccore.Log.{
  debug, warn, rank, level_string, Message, log, pieces, is_shown, outside, Stream, set_printer,
  lock, begin, print_piece, locking, beginning, piece, redirecting, Reach, here, next, fresh,
}
use ccore.Log.Whole.{IsWhole, Reach-IsWhole}

abbrev start : Stream
start = fresh (b'c' ∷ []) 1 (replicate 2 outside)

abbrev message : Message
message = log warn (b'f' ∷ []) (b'h' ∷ b'i' ∷ [])

-- `[c warning] f(): `
abbrev heading : CString
heading =
    b'[' ∷ b'c' ∷ b' ' ∷ b'w' ∷ b'a' ∷ b'r' ∷ b'n' ∷ b'i' ∷ b'n' ∷ b'g' ∷ b']' ∷ b' ' ∷ b'f' ∷ b'('
    ∷ b')' ∷ b':' ∷ b' ' ∷ []

heading_lem : take 1 (pieces (b'c' ∷ []) message) ≡ heading ∷ []
unfolding pieces level_string
heading_lem = refl

-- The heading goes to printer 1 and the text to printer 2.
abbrev split : Stream
split =
    print_piece
      (set_printer
        (print_piece (begin (lock start (outside ∷ []) message []) (outside ∷ []) message [])
          (outside ∷ []) heading ((b'h' ∷ b'i' ∷ []) ∷ (10 ∷ []) ∷ []) [])
        2)
      (outside ∷ []) (b'h' ∷ b'i' ∷ []) ((10 ∷ []) ∷ []) []

split-Reach : Reach debug start split
unfolding fresh lock begin print_piece set_printer pieces level_string is_shown rank
split-Reach =
    next
      (next
        (next
          (next (next here (locking (outside ∷ []) message [] refl refl refl refl))
            (beginning (outside ∷ []) message [] refl refl))
          (piece (outside ∷ []) _ _ [] refl refl))
        (redirecting 2 refl))
      (piece (outside ∷ []) _ _ [] refl refl)

Reach-IsWhole_example : IsWhole split
Reach-IsWhole_example = Reach-IsWhole debug (b'c' ∷ []) 1 2 split-Reach
