-- ===== src/Paths/Join.antt =====
-- The text that `ccfs_path_concat` should leave in the buffer.
pub mod Concat
pub mod Rounds
use ccore.Base.{
  ℕ, zero, suc, ◌+◌, ◌%◌, ◌^◌, ◌<◌, ◌≤◌, ◌≡◌, refl, sym, ap, ◌∙◌, ◌⊎◌, inl, inr, true, false, List,
  [], ◌∷◌, ◌++◌, leb, if◌then◌else◌, length, length-append, take, drop, map, arith, Bool-cases,
}
use mathlib.Core.List.{append_assoc, append-nil}
use ccore.Base.Buffer.{store, store-append, store_after, length-drop}
use ccore.Base.CString.{CString}
use ccore.Base.Outcome.{ok, Returns}
use ccore.Base.Words.{size_mod}
use ccore.Paths.{
  is_path_sep, trimmed_from, path_component_length, path_bytes, pathcpy, concat_loop, path_concat,
}

trimmed_from-le : (comp : CString) (n : ℕ) → trimmed_from comp n ≤ n
unfolding trimmed_from
trimmed_from-le comp zero = omega arith
trimmed_from-le comp (suc i) = ground (arith, trimmed_from-le comp i)

pub component-le : (comp : CString) → path_component_length comp ≤ length comp
unfolding path_component_length
component-le comp = trimmed_from-le comp (length comp)

abbrev pub AreShort : List CString → Type 0
AreShort [] = Unit {0}
AreShort (c ∷ cs) = (length c < 2 ^ 62) × AreShort cs

-- Where the loop stops: the text is in front of the buffer, and either no component is left or the
-- next one would need `slack` bytes more than there are.
pub record IsJoined (size slack : ℕ) (pre rest : List ℕ) (text : List CString → List ℕ)
    (comps : List CString) (out : List ℕ × ℕ) : Type 0 where
  pub used : ℕ
  pub left : List ℕ
  pub out_eq : out.0 ≡ (pre ++ text (take used comps)) ++ left
  pub head_eq : out.1 ≡ length (pre ++ text (take used comps))
  pub same_length : length out.0 ≡ length pre + length rest
  pub fits : out.1 < size
  pub full :
      (take used comps ≡ comps) ⊎ (size ≤ length (pre ++ text (take (suc used) comps)) + slack)

module _ (path_sep : ℕ) where
  -- A component without the separators at its end, the others all the same.
  abbrev pub shown : CString → List ℕ
  shown comp =
      map (λ c. if is_path_sep c then path_sep else c) (take (path_component_length comp) comp)

  abbrev pub continued : List CString → List ℕ
  continued [] = []
  continued (c ∷ cs) = path_sep ∷ (shown c ++ continued cs)

  -- The components with separators between them.
  abbrev pub joined : List CString → List ℕ
  joined [] = []
  joined (c ∷ cs) = shown c ++ continued cs

  path_bytes-map :
      (comp : CString) (n : ℕ)
      → n ≤ length comp
      → (path_bytes path_sep comp n
          ≡ map (λ c. if is_path_sep c then path_sep else c) (take n comp))
        × (length (path_bytes path_sep comp n) ≡ n)
  unfolding path_bytes
  path_bytes-map comp zero h = (refl, refl)
  path_bytes-map [] (suc n) h = absurd (omega arith)
  path_bytes-map (c ∷ comp) (suc n) h =
      let (bytes, size) = path_bytes-map comp n (omega arith) in
      (ap (λ l. (if is_path_sep c then path_sep else c) ∷ l) bytes, ap suc size)

  path_bytes-shown :
      (comp : CString) → path_bytes path_sep comp (path_component_length comp) ≡ shown comp
  path_bytes-shown comp = (path_bytes-map comp (path_component_length comp) (component-le comp)).0

  pub length-shown : (comp : CString) → length (shown comp) ≡ path_component_length comp
  length-shown comp =
      sym (ap length (path_bytes-shown comp))
      ∙ (path_bytes-map comp (path_component_length comp) (component-le comp)).1

  pub copied :
      (pre rest : List ℕ) (comp : CString) (i : ℕ)
      → i ≡ length pre
      → path_component_length comp ≤ length rest
      → pathcpy path_sep (pre ++ rest) i comp (path_component_length comp)
        ≡ ok ((pre ++ shown comp) ++ drop (path_component_length comp) rest)
  unfolding pathcpy
  copied pre rest comp i at h =
      ap (store (pre ++ rest) i) (path_bytes-shown comp)
      ∙ store_after pre rest (shown comp) i at (omega (arith, length-shown comp))
      ∙ ap (λ n. ok ((pre ++ shown comp) ++ drop n rest)) (length-shown comp)

  pub regrouped :
      (pre s t : List ℕ) → ((pre ++ path_sep ∷ []) ++ s) ++ t ≡ pre ++ (path_sep ∷ (s ++ t))
  regrouped pre s t =
      append_assoc (pre ++ path_sep ∷ []) s t ∙ append_assoc pre (path_sep ∷ []) (s ++ t)
