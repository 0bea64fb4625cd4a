-- ===== src/Strings/Tests.antt =====
-- A copy of a string that is too long for its buffer.
use ccore.Base.{ℕ, List, [], ◌∷◌, replicate}

abbrev word : List ℕ
word = b'w' ∷ b'o' ∷ b'r' ∷ b'd' ∷ []

abbrev buffer : List ℕ
buffer = replicate 4 255
