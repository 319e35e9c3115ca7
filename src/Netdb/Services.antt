-- ===== src/Netdb/Services.antt =====
-- The services of a file that has one line for each of them, in
-- lib/posix/options/networking/netdb_ent.c.
use posix_next.Netdb.Columns.{Servent}
use posix_next.Base.{
  ◌&&◌, negsuc, true, str_eq, pos, ℤ, ◌%◌, ◌<◌, ◌≤◌, ◌==◌, ℕ, Bool, false, Option, none, some, List,
  [], ◌∷◌, ◌++◌, CString, contains, length, ◌≡◌,
}
use posix_next.Passwd.{pieces}
use posix_next.Netdb.{Netdb, pieces}
use posix_next.Netdb.Words.{print_aliases, IsWord, AreWords}

-- A line, with the port others it is written.
pub record Line : Type 0 where
  pub name : CString
  pub port : CString
  pub proto : CString
  pub aliases : List CString

abbrev port_proto : Line → CString
port_proto l = l.port ++ (b'/' ∷ l.proto)

abbrev text : Line → CString
text l = l.name ++ (b' ' ∷ (port_proto l ++ print_aliases l.aliases))

abbrev pub print : List Line → CString
print [] = []
print (l ∷ ls) = text l ++ (b'\n' ∷ print ls)

abbrev starts_with : ℕ → CString → Bool
starts_with c [] = false
starts_with c (d ∷ s) = d == c

abbrev pub IsLine : Line → Type 0
IsLine l =
    IsWord l.name
    × (starts_with b'#' l.name ≡ false)
    × IsWord l.port
    × (contains b'/' l.port ≡ false)
    × IsWord l.proto
    × AreWords l.aliases
    × (length l.aliases ≤ 7)
    × (length (text l) < 255)

abbrev pub AreLines : List Line → Type 0
AreLines [] = Unit {0}
AreLines (l ∷ ls) = IsLine l × AreLines ls

-- Whether a service has a name, or a port, and the protocol where one is asked for.
abbrev pub has_proto : Option CString → Servent → Bool
has_proto none se = true
has_proto (some p) se = str_eq se.proto p

abbrev pub is_called : CString → Option CString → Servent → Bool
is_called name proto se = str_eq se.name name && has_proto proto se

abbrev pub is_on_port : ℤ → Option CString → Servent → Bool
is_on_port (pos n) proto se = (se.port == n) && has_proto proto se
is_on_port (negsuc n) proto se = false

module _ (strtoul : CString → ℕ) (htons : ℕ → ℕ) where
  abbrev pub service : Line → Servent
  service l = record {
    name = l.name;
    aliases = l.aliases;
    port = htons (strtoul l.port % 65536);
    proto = l.proto;
  }
