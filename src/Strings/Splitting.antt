-- ===== src/Strings/Splitting.antt =====
-- How lib/posix/c_lang_support_r/strtok_r.c splits a string.
use posix_next.Base.{
  ◌∙◌, sym, ◌⊎◌, ap, ℕ, zero, suc, ◌<◌, ◌≤◌, ◌≡◌, arith, false, Bool-cases, inl, inr, none, some,
  List, [], ◌∷◌, ◌++◌, if◌then◌else◌, CString, contains, length, refl,
}
use mathlib.Core.List.{append-nil, append_assoc}
use posix_next.Strings.Tokens.{skip, token, token_end, past, strtok_r, tokens}

-- The fields of a text: the longest runs of bytes that are no separators, the empty ones left
-- out. `run` is what has been read of the current one.
abbrev pub closed : CString → List CString → List CString
closed [] fs = fs
closed (c ∷ run) fs = (c ∷ run) ∷ fs

abbrev pub fields : CString → CString → CString → List CString
fields sep run [] = closed run []
fields sep run (c ∷ s) =
    if contains c sep then closed run (fields sep [] s) else fields sep (run ++ (c ∷ [])) s

fields-skip : (sep s : CString) → fields sep [] (skip sep s) ≡ fields sep [] s
unfolding skip
fields-skip sep [] = refl
fields-skip sep (c ∷ s) = elim (Bool-cases (contains c sep)) [
  | inl separator ↦ rw separator (fields-skip sep s)
  | inr other ↦ rw (other, other) refl
]

fields-token :
    (sep run s : CString)
    → fields sep run s ≡ closed (run ++ token sep s) (fields sep [] (past (token_end sep s)))
unfolding token token_end
fields-token sep run [] = ap (λ r. closed r []) (sym (append-nil run))
fields-token sep run (c ∷ s) = elim (Bool-cases (contains c sep)) [
  | inl separator ↦ rw separator (ap (λ r. closed r (fields sep [] s)) (sym (append-nil run)))
  | inr other ↦ rw other (
      fields-token sep (run ++ (c ∷ [])) s
      ∙ ap (λ r. closed r (fields sep [] (past (token_end sep s))))
          (append_assoc run (c ∷ []) (token sep s)))
]

length-skip : (sep s : CString) → length (skip sep s) ≤ length s
unfolding skip
length-skip sep [] = omega arith
length-skip sep (c ∷ s) = elim (Bool-cases (contains c sep)) [
  | inl separator ↦ rw separator (omega (arith, length-skip sep s))
  | inr other ↦ rw other (omega arith)
]

length-past : (s : CString) → length (past s) ≤ length s
length-past [] = omega arith
length-past (c ∷ s) = omega arith

length-token_end : (sep s : CString) → length (token_end sep s) ≤ length s
unfolding token_end
length-token_end sep [] = omega arith
length-token_end sep (c ∷ s) = elim (Bool-cases (contains c sep)) [
  | inl separator ↦ rw separator (omega arith)
  | inr other ↦ rw other (omega (arith, length-token_end sep s))
]

skip-cases :
    (sep s : CString)
    → (skip sep s ≡ [])
      ⊎ ((c : ℕ) × (t : CString) × (skip sep s ≡ c ∷ t) × (contains c sep ≡ false))
unfolding skip
skip-cases sep [] = inl refl
skip-cases sep (c ∷ s) = elim (Bool-cases (contains c sep)) [
  | inl separator ↦ rw separator (skip-cases sep s)
  | inr other ↦ rw other (inr (c, s, refl, other))
]

-- Some token: it is not empty, and what is left is shorter.
strtok_r-some :
    (sep s t : CString) (c : ℕ)
    → skip sep s ≡ c ∷ t
    → contains c sep ≡ false
    → (fields sep [] s ≡ (c ∷ token sep t) ∷ fields sep [] (past (token_end sep t)))
      × (strtok_r none sep s ≡ (some (c ∷ token sep t), past (token_end sep t)))
      × (length (past (token_end sep t)) < length s)
unfolding strtok_r token token_end
strtok_r-some sep s t c e h = (
  sym (fields-skip sep s) ∙ rw (e, fields-token sep [] (c ∷ t), h) refl,
  rw (e, h) refl,
  omega (
    arith,
    ap length e,
    length-skip sep s,
    length-token_end sep t,
    length-past (token_end sep t),
  ),
)

tokens-fields :
    (calls : ℕ) (sep s : CString)
    → length s < calls
    → tokens calls none sep s ≡ some (fields sep [] s)
unfolding tokens strtok_r
tokens-fields zero sep s h = absurd (omega arith)
tokens-fields (suc calls) sep s h = elim (skip-cases sep s) [
  | inl e ↦ rw (tokens, strtok_r, e) (ap some (ap (fields sep []) (sym e) ∙ fields-skip sep s))
  | inr (c, t, e, other) ↦
      let (f, r, l) = strtok_r-some sep s t c e other in
      rw (tokens, r, r, f, tokens-fields calls sep (past (token_end sep t)) (omega (arith, l, h)))
        refl
]

-- A program that calls strtok_r on a text, and on the saved state until it returns NULL, gets NULL
-- after at most one call more than the text has bytes; the tokens that it got are the fields of
-- the text, in their order.
pub strtok_r-fields :
    (sep s state : CString) (calls : ℕ)
    → length s < calls
    → tokens calls (some s) sep state ≡ some (fields sep [] s)
unfolding tokens strtok_r
strtok_r-fields sep s state zero h = absurd (omega arith)
strtok_r-fields sep s state (suc calls) h = tokens-fields (suc calls) sep s h
