-- ===== src/Strings/Tests.antt =====
-- The theorems on the string functions at concrete strings.
use posix_next.Base.{
  false, if◌then◌else◌, ◌==◌, negsuc, ℕ, ◌≡◌, refl, arith, some, [], ◌∷◌, ◌++◌, CString,
}
use posix_next.Strings.Comparing.{strcasecmp, strcasecmp-compare_text}
use posix_next.Strings.Tokens.{tokens}
use posix_next.Strings.Splitting.{strtok_r-fields}

abbrev text : CString
text = 97 ∷ 98 ∷ []

-- A tolower that knows the letter A alone.
abbrev tolower_a : ℕ → ℕ
tolower_a c = if c == 65 then 97 else c

strcasecmp-compare_text_example :
    strcasecmp tolower_a (text ++ (0 ∷ [])) ((65 ∷ 98 ∷ 98 ∷ []) ++ (0 ∷ [])) ≡ some (negsuc 0)
strcasecmp-compare_text_example =
    strcasecmp-compare_text tolower_a text (65 ∷ 98 ∷ 98 ∷ []) [] [] (refl, keeps_end) refl refl
  where
    keeps_end : (c : ℕ) → (c == 0) ≡ false → (tolower_a c == 0) ≡ false
    keeps_end c h = ground arith

-- `,a,,ab` at the commas.
strtok_r-fields_example :
    tokens 7 (some (44 ∷ 97 ∷ 44 ∷ 44 ∷ 97 ∷ 98 ∷ [])) (44 ∷ []) []
    ≡ some ((97 ∷ []) ∷ (97 ∷ 98 ∷ []) ∷ [])
strtok_r-fields_example =
    strtok_r-fields (44 ∷ []) (44 ∷ 97 ∷ 44 ∷ 44 ∷ 97 ∷ 98 ∷ []) [] 7 (omega arith)
