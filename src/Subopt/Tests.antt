-- ===== src/Subopt/Tests.antt =====
-- The theorem on lib/posix/c_lib_ext/getsubopt.c at a concrete list of suboptions.
use posix_next.Base.{◌≡◌, refl, none, some, List, [], ◌∷◌, map, length, CString}
use posix_next.Subopt.Parsing.{Item, print, calls, meaning, calls-print}

abbrev keys : List CString
keys = (114 ∷ 111 ∷ []) ∷ (115 ∷ []) ∷ []

-- "s=64", "ro" and "x", which is no key.
abbrev items : List Item
items =
    record { key = 115 ∷ []; value = some (54 ∷ 52 ∷ []) }
    ∷ record { key = 114 ∷ 111 ∷ []; value = none }
    ∷ record { key = 120 ∷ []; value = none }
    ∷ []

calls-print_example : calls keys (length items) (print items) ≡ map (meaning keys) items
calls-print_example =
    calls-print keys items
      ((refl, refl, refl, refl), ((refl, refl, refl, refl), ((refl, refl, refl, refl), tt)))
