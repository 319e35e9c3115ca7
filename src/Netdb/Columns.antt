-- ===== src/Netdb/Columns.antt =====
-- The lines of the files of lib/posix/options/networking/netdb_ent.c. A pointer into the line is
-- the string from it to its terminator; `inet_pton`, `strtoul` and `htons` are those of the C
-- library. The fields of a result are the strings that they point to in the line.
use posix_next.Base.{
  ℕ, zero, suc, ◌-◌, ◌%◌, Bool, true, ◌||◌, ◌==◌, ltb, Option, none, some, List, [], ◌∷◌,
  if◌then◌else◌, CString, ℤ, pos, negsuc, ◌>>=◌,
}
use posix_next.Passwd.{field}

pub record Hostent : Type 0 where
  pub name : CString
  pub aliases : List CString
  pub addr : CString

pub record Netent : Type 0 where
  pub name : CString
  pub aliases : List CString
  pub net : ℕ

pub record Protoent : Type 0 where
  pub name : CString
  pub aliases : List CString
  pub proto : ℤ

pub record Servent : Type 0 where
  pub name : CString
  pub aliases : List CString
  pub port : ℕ
  pub proto : CString

abbrev pub is_blank : ℕ → Bool
is_blank c = c == b' ' || c == b'\t'

unfoldable pub skip_ws : CString → CString
skip_ws [] = []
skip_ws (c ∷ p) = let rest = skip_ws p in if is_blank c then rest else c ∷ p

abbrev pub ends_line : CString → Bool
ends_line [] = true
ends_line (c ∷ p) = c == b'\n' || c == b'#'

unfoldable pub is_comment_or_blank : CString → Bool
unfolding skip_ws
is_comment_or_blank line = ends_line (skip_ws line)

abbrev before : CString → Option (CString × CString) → CString
before p none = p
before p (some (line, rest)) = line

unfoldable pub trim_newline : CString → CString
unfolding field
trim_newline p = before p (field b'\n' p)

-- `strchr(p, ' ')`, or else `strchr(p, '\t')`, with the terminator in its place.
unfoldable pub split_word : CString → Option (CString × CString)
unfolding field
split_word p = elim (field b' ' p) [ none ↦ field b'\t' p | some r ↦ some r ]

abbrev pub not_empty : CString → Option CString
not_empty [] = none
not_empty (c ∷ p) = some (c ∷ p)

-- The last column starts at `p`, and the aliases after it.
abbrev pub last_column : CString → CString × CString
last_column p = elim (split_word p) [ none ↦ (p, []) | some (word, rest) ↦ (word, skip_ws rest) ]

-- The columns of a line, and the text of the aliases: what the four parsers have in common.
unfoldable pub columns : CString → Option (CString × CString × CString)
unfolding skip_ws split_word
columns line = do
  first ← not_empty (skip_ws line)
  (first, rest) ← split_word first
  second ← not_empty (skip_ws rest)
  let (second, aliases) = last_column second
  some (first, second, aliases)

-- The loop over the aliases, with the rest of the places in their array.
unfoldable pub alias_loop : ℕ → CString → List CString
unfolding skip_ws split_word
alias_loop zero tok = []
alias_loop (suc n) tok = elim (split_word tok) [
  | none ↦ tok ∷ []
  | some (word, rest) ↦ word ∷ alias_loop n (skip_ws rest)
]

abbrev pub aliases_of : CString → List CString
aliases_of [] = []
aliases_of (c ∷ p) = alias_loop 7 (c ∷ p)

-- `(int)num`
abbrev pub to_int : ℕ → ℤ
to_int n = let b = n % 4294967296 in if ltb b 2147483648 then pos b else negsuc (4294967295 - b)

module _ (inet_pton : CString → Option CString) where
  unfoldable pub parse_hosts_line : CString → Option Hostent
  unfolding columns alias_loop
  parse_hosts_line line = do
    (addr, name, aliases) ← columns line
    bytes ← inet_pton addr
    some (record { name = name; aliases = aliases_of aliases; addr = bytes })

module _ (strtoul : CString → ℕ) where
  unfoldable pub parse_networks_line : CString → Option Netent
  unfolding columns alias_loop
  parse_networks_line line = do
    (name, netstr, aliases) ← columns line
    some (record { name = name; aliases = aliases_of aliases; net = strtoul netstr % 4294967296 })

  unfoldable pub parse_protocols_line : CString → Option Protoent
  unfolding columns alias_loop
  parse_protocols_line line = do
    (name, numstr, aliases) ← columns line
    some (record { name = name; aliases = aliases_of aliases; proto = to_int (strtoul numstr) })

  unfoldable pub parse_services_line : (ℕ → ℕ) → CString → Option Servent
  unfolding columns alias_loop field
  parse_services_line htons line = do
    (name, portproto, aliases) ← columns line
    (port, proto) ← field b'/' portproto
    some (record {
      name = name;
      aliases = aliases_of aliases;
      port = htons (strtoul port % 65536);
      proto = proto;
    })
