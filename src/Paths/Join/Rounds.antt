-- ===== src/Paths/Join/Rounds.antt =====
-- One round of the loop of `ccfs_path_concat`.
use ccore.Base.{
  ℕ, suc, ◌+◌, ◌%◌, ◌<◌, ◌≤◌, ◌≡◌, refl, sym, ap, ◌∙◌, ◌⊎◌, inl, inr, true, false, List, [], ◌∷◌,
  ◌++◌, leb, length, length-append, take, drop, arith,
}
use mathlib.Core.List.{append-nil}
use ccore.Base.Buffer.{store_after, length-drop}
use ccore.Base.CString.{CString}
use ccore.Base.Words.{size_mod}
use ccore.Paths.{path_component_length, concat_loop}
use ccore.Paths.Join.{shown, continued, length-shown, copied, regrouped, IsJoined}

module _ (path_sep : ℕ) where
  module _ (size : ℕ) where
    pub next_round :
        (c : CString) (cs : List CString) (pre rest : List ℕ)
        → leb size (((length pre + path_component_length c) % size_mod + 1) % size_mod) ≡ false
        → path_component_length c + 1 ≤ length rest
        → length pre + path_component_length c + 1 < size_mod
        → concat_loop path_sep size (pre ++ rest) (length pre) false (c ∷ cs)
          ≡ concat_loop path_sep size
              (((pre ++ path_sep ∷ []) ++ shown path_sep c)
                ++ drop (path_component_length c) (drop 1 rest))
              (length ((pre ++ path_sep ∷ []) ++ shown path_sep c))
              false
              cs
    unfolding concat_loop
    next_round c cs pre rest goes enough few =
        let k = path_component_length c in
        let next : ((length pre + 1) % size_mod + k) % size_mod
            ≡ length ((pre ++ path_sep ∷ []) ++ shown path_sep c) =
          omega (
            arith,
            length-append (pre ++ path_sep ∷ []) (shown path_sep c),
            length-append pre (path_sep ∷ []),
            length-shown path_sep c,
          ) in
        rw
          (
            goes,
            store_after pre rest (path_sep ∷ []) (length pre) refl (omega arith),
            copied path_sep (pre ++ path_sep ∷ []) (drop 1 rest) c ((length pre + 1) % size_mod)
                (omega (arith, length-append pre (path_sep ∷ [])))
                (omega (arith, length-drop 1 rest (omega arith))),
          )
          (ap
            (λ i.
              concat_loop path_sep size
                (((pre ++ path_sep ∷ []) ++ shown path_sep c) ++ drop k (drop 1 rest)) i false cs)
            next)

    pub first_round :
        (c : CString) (cs : List CString) (out : List ℕ)
        → leb size (((0 + path_component_length c) % size_mod + 1) % size_mod) ≡ false
        → path_component_length c ≤ length out
        → path_component_length c < size_mod
        → concat_loop path_sep size out 0 true (c ∷ cs)
          ≡ concat_loop path_sep size
              (shown path_sep c ++ drop (path_component_length c) out)
              (length (shown path_sep c))
              false
              cs
    unfolding concat_loop
    first_round c cs out goes enough few =
        let k = path_component_length c in
        let next : (0 + k) % size_mod ≡ length (shown path_sep c) =
          omega (arith, length-shown path_sep c) in
        rw (goes, copied path_sep [] out c 0 refl enough)
          (ap (λ i. concat_loop path_sep size (shown path_sep c ++ drop k out) i false cs) next)

    -- The text of the later components behind that of one.
    pub IsJoined-next :
        (c : CString) (cs : List CString) (pre rest rest' : List ℕ) (out : List ℕ × ℕ)
        → length ((pre ++ path_sep ∷ []) ++ shown path_sep c) + length rest'
          ≡ length pre + length rest
        → IsJoined size 0
            ((pre ++ path_sep ∷ []) ++ shown path_sep c)
            rest'
            (continued path_sep)
            cs
            out
        → IsJoined size 0 pre rest (continued path_sep) (c ∷ cs) out
    IsJoined-next c cs pre rest rest' out sizes j =
        let text = continued path_sep (take j.used cs) in
        let moved = regrouped path_sep pre (shown path_sep c) in
        record {
          used = suc j.used;
          left = j.left;
          out_eq = j.out_eq ∙ ap (λ l. l ++ j.left) (moved text);
          head_eq = j.head_eq ∙ ap length (moved text);
          same_length = j.same_length ∙ sizes;
          fits = j.fits;
          full = elim j.full [
            | inl done ↦ inl (ap (λ l. c ∷ l) done)
            | inr tight ↦ inr (
                omega (arith, tight, ap length (moved (continued path_sep (take (suc j.used) cs)))))
          ];
        }

    -- The loop stops before any component.
    pub IsJoined-stop :
        (slack : ℕ) (pre rest : List ℕ) (text : List CString → List ℕ) (comps : List CString)
        → text [] ≡ []
        → length pre < size
        → (take 0 comps ≡ comps) ⊎ (size ≤ length (pre ++ text (take 1 comps)) + slack)
        → IsJoined size slack pre rest text comps (pre ++ rest, length pre)
    IsJoined-stop slack pre rest text comps nothing room full =
        let same : pre ≡ pre ++ text [] = sym (ap (λ l. pre ++ l) nothing ∙ append-nil pre) in
        record {
          used = 0;
          left = rest;
          out_eq = ap (λ l. l ++ rest) same;
          head_eq = ap length same;
          same_length = length-append pre rest;
          fits = room;
          full = full;
        }
