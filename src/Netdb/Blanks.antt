-- ===== src/Netdb/Blanks.antt =====
-- Lines of lib/posix/options/networking/netdb_ent.c that have both spaces and tabs.
use mathlib.Core.List.{append-nil, append_assoc}
use posix_next.Base.{
  contains-append, ap, sym, ◌∙◌, ℕ, false, some, [], ◌∷◌, ◌++◌, CString, contains, ◌≡◌, refl,
}
use posix_next.Netdb.Columns.{
  last_column, not_empty, skip_ws, to_int, columns, parse_protocols_line,
}
use posix_next.Netdb.Words.{split_word_last, IsWord, skip_ws-word, split_word-word, not_empty-word}

skip_ws_alone : (s : CString) → IsWord s → skip_ws s ≡ s
skip_ws_alone s h = ap skip_ws (sym (append-nil s)) ∙ skip_ws-word s [] h ∙ append-nil s

not_empty_alone : (s : CString) → IsWord s → not_empty s ≡ some s
not_empty_alone [] (e, _, _, _) = cc
not_empty_alone (c ∷ s) h = refl

-- Where a tab separates the first two words of a line and a space comes later, the first column
-- of a protocol is not the first word: it goes on to the space, and what is read as the number is
-- the word after that.
pub parse_protocols_line_tab :
    (strtoul : CString → ℕ) (name number rest : CString)
    → IsWord name
    → contains b' ' number ≡ false
    → IsWord rest
    → (columns (name ++ (b'\t' ∷ (number ++ (b' ' ∷ rest))))
        ≡ some (name ++ (b'\t' ∷ number), rest, []))
      × (parse_protocols_line strtoul (name ++ (b'\t' ∷ (number ++ (b' ' ∷ rest))))
          ≡ some (record {
            name = name ++ (b'\t' ∷ number);
            aliases = [];
            proto = to_int (strtoul rest);
          }))
unfolding parse_protocols_line columns
parse_protocols_line_tab strtoul name number rest hn hm hr =
    (split, rw (parse_protocols_line, split) refl)
  where
    split :
        columns (name ++ (b'\t' ∷ (number ++ (b' ' ∷ rest))))
        ≡ some (name ++ (b'\t' ∷ number), rest, [])
    split =
        let first = name ++ (b'\t' ∷ number) in
        let whole : name ++ (b'\t' ∷ (number ++ (b' ' ∷ rest))) ≡ first ++ (b' ' ∷ rest) =
          sym (append_assoc name (b'\t' ∷ number) (b' ' ∷ rest)) in
        let (some_name, blank, tab, newline) = hn in
        rw
          (
            columns,
            skip_ws-word name (b'\t' ∷ (number ++ (b' ' ∷ rest))) hn,
            not_empty-word name (b'\t' ∷ (number ++ (b' ' ∷ rest))) some_name,
            whole,
            split_word-word first rest (contains-append b' ' name (b'\t' ∷ number) blank hm),
            skip_ws_alone rest hr,
            not_empty_alone rest hr,
            last_column,
            split_word_last rest hr,
          )
          refl
