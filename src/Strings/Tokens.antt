-- ===== src/Strings/Tokens.antt =====
-- lib/posix/c_lang_support_r/strtok_r.c. A pointer is the string from it to its terminator. The
-- write of a terminator at `end` is what makes the token end there.
use posix_next.Base.{
  ℕ, zero, suc, Option, none, some, List, [], ◌∷◌, if◌then◌else◌, CString, contains,
}

-- `strchr(sep, c)` finds a byte of the separators; both loops have seen that `c` is no terminator.
unfoldable pub skip : CString → CString → CString
skip sep [] = []
skip sep (c ∷ s) = let rest = skip sep s in if contains c sep then rest else c ∷ s

-- What the second loop passes over, and where it ends.
unfoldable pub token : CString → CString → CString
token sep [] = []
token sep (c ∷ s) = let rest = token sep s in if contains c sep then [] else c ∷ rest

unfoldable pub token_end : CString → CString → CString
token_end sep [] = []
token_end sep (c ∷ s) = let rest = token_end sep s in if contains c sep then c ∷ s else rest

abbrev pub start_of : Option CString → CString → CString
start_of (some str) state = str
start_of none state = state

-- The state after the token that ends before `end`.
abbrev pub past : CString → CString
past [] = []
past (c ∷ end) = end

abbrev pub first_token : CString → CString → Option CString × CString
first_token sep [] = (none, [])
first_token sep (c ∷ start) = (some (token sep (c ∷ start)), past (token_end sep (c ∷ start)))

unfoldable pub strtok_r : Option CString → CString → CString → Option CString × CString
unfolding skip token token_end
strtok_r str sep state = first_token sep (skip sep (start_of str state))

-- The calls of a program that takes the tokens one after another until there is none; `none` when
-- they are more than the first argument.
abbrev pub prefixed : CString → Option (List CString) → Option (List CString)
prefixed t none = none
prefixed t (some ts) = some (t ∷ ts)

unfoldable pub tokens : ℕ → Option CString → CString → CString → Option (List CString)
unfolding strtok_r
tokens zero str sep state = none
tokens (suc calls) str sep state =
    let (found, s) = strtok_r str sep state in
    elim found [ none ↦ some [] | some t ↦ prefixed t (tokens calls none sep s) ]
