-- ===== src/Netdb/Words.antt =====
-- Words between blanks, as the parsers of lib/posix/options/networking/netdb_ent.c take them.
use posix_next.Passwd.Lines.{field-none}
use posix_next.Passwd.Lines.{field-append}
use posix_next.Netdb.Columns.{
  not_empty, last_column, aliases_of, is_blank, split_word, skip_ws, alias_loop,
}
use posix_next.Base.{
  contains-append, zero, suc, ◌≤◌, ℕ, Bool, true, false, none, some, List, [], ◌∷◌, ◌++◌, CString,
  contains, length, ◌≡◌, refl, ap, ◌∙◌, arith,
}
use mathlib.Core.List.{append-nil}

abbrev pub print_aliases : List CString → CString
print_aliases [] = []
print_aliases (a ∷ others) = b' ' ∷ (a ++ print_aliases others)

abbrev is_empty : CString → Bool
is_empty [] = true
is_empty (c ∷ s) = false

-- A word has bytes, and none of them is a blank or a newline.
abbrev pub IsWord : CString → Type 0
IsWord s =
    (is_empty s ≡ false)
    × (contains b' ' s ≡ false)
    × (contains b'\t' s ≡ false)
    × (contains b'\n' s ≡ false)

abbrev pub AreWords : List CString → Type 0
AreWords [] = Unit {0}
AreWords (a ∷ others) = IsWord a × AreWords others

-- A word is what is before the next blank.
pub skip_ws-word : (s rest : CString) → IsWord s → skip_ws (s ++ rest) ≡ s ++ rest
unfolding skip_ws
skip_ws-word [] rest (e, b, t, n) = cc
skip_ws-word (c ∷ s) rest (e, b, t, n) =
    let solid : is_blank c ≡ false = ground (arith, b, t) in rw solid refl

pub split_word-word :
    (s rest : CString) → contains b' ' s ≡ false → split_word (s ++ (b' ' ∷ rest)) ≡ some (s, rest)
unfolding split_word
split_word-word s rest h = rw (split_word, field-append b' ' s rest h) refl

pub split_word_last : (s : CString) → IsWord s → split_word s ≡ none
unfolding split_word
split_word_last s (e, b, t, n) = rw (split_word, field-none b' ' s b, field-none b'\t' s t) refl

alias_loop-print_aliases :
    (n : ℕ) (a : CString) (others : List CString)
    → AreWords (a ∷ others)
    → length (a ∷ others) ≤ n
    → alias_loop n (a ++ print_aliases others) ≡ a ∷ others
unfolding alias_loop
alias_loop-print_aliases zero a others h l = absurd (omega arith)
alias_loop-print_aliases (suc n) a [] (h, hs) l =
    ap (alias_loop (suc n)) (append-nil a) ∙ rw (alias_loop, split_word_last a h) refl
alias_loop-print_aliases (suc n) a (b ∷ others) (h, (h', hs)) l =
    let (e, blank, t, nl) = h in
    rw
      (
        alias_loop,
        split_word-word a (b ++ print_aliases others) blank,
        skip_ws-word b (print_aliases others) h',
        alias_loop-print_aliases n b others (h', hs) (omega (arith, l)),
      )
      refl

-- The text of the aliases, from the first one on.
abbrev pub alias_text : List CString → CString
alias_text [] = []
alias_text (a ∷ others) = a ++ print_aliases others

pub aliases_of-alias_text :
    (names : List CString)
    → AreWords names
    → length names ≤ 7
    → aliases_of (alias_text names) ≡ names
aliases_of-alias_text [] h l = refl
aliases_of-alias_text ([] ∷ others) ((e, _, _, _), hs) l = cc
aliases_of-alias_text ((c ∷ a) ∷ others) h l = alias_loop-print_aliases 7 (c ∷ a) others h l

pub last_column-print_aliases :
    (p : CString) (names : List CString)
    → IsWord p
    → AreWords names
    → last_column (p ++ print_aliases names) ≡ (p, alias_text names)
last_column-print_aliases p [] h hs =
    ap last_column (append-nil p) ∙ rw (last_column, split_word_last p h) refl
last_column-print_aliases p (a ∷ others) (e, blank, t, n) (h, hs) =
    rw
      (
        last_column,
        split_word-word p (a ++ print_aliases others) blank,
        skip_ws-word a (print_aliases others) h,
      )
      refl

pub not_empty-word :
    (s rest : CString) → is_empty s ≡ false → not_empty (s ++ rest) ≡ some (s ++ rest)
not_empty-word [] rest h = cc
not_empty-word (c ∷ s) rest h = refl

pub is_empty-append : (s t : CString) → is_empty s ≡ false → is_empty (s ++ t) ≡ false
is_empty-append [] t h = cc
is_empty-append (c ∷ s) t h = refl

pub contains-print_aliases :
    (names : List CString) → AreWords names → contains b'\n' (print_aliases names) ≡ false
contains-print_aliases [] h = refl
contains-print_aliases (a ∷ others) ((e, b, t, n), hs) =
    contains-append b'\n' a (print_aliases others) n (contains-print_aliases others hs)
