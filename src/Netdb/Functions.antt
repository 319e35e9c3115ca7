-- ===== src/Netdb/Functions.antt =====
-- The functions of lib/posix/options/networking/netdb_ent.c that go through a file, one for each of
-- the four files.
use posix_next.Base.{ℕ, Bool, Option, CString}
use posix_next.Netdb.{Db, hosts, networks, protocols, services, Netdb}
use posix_next.Netdb.Columns.{
  Hostent, Netent, Protoent, Servent, parse_hosts_line, parse_networks_line, parse_protocols_line,
  parse_services_line,
}
use posix_next.Netdb.Queries.{getent, setent, endent}

module _ (content : Db → Option CString) where
  abbrev pub gethostent : (CString → Option CString) → Netdb → Option Hostent × Netdb
  gethostent inet_pton = getent content (parse_hosts_line inet_pton) hosts

  abbrev pub getnetent : (CString → ℕ) → Netdb → Option Netent × Netdb
  getnetent strtoul = getent content (parse_networks_line strtoul) networks

  abbrev pub getprotoent : (CString → ℕ) → Netdb → Option Protoent × Netdb
  getprotoent strtoul = getent content (parse_protocols_line strtoul) protocols

  abbrev pub getservent : (CString → ℕ) → (ℕ → ℕ) → Netdb → Option Servent × Netdb
  getservent strtoul htons = getent content (parse_services_line strtoul htons) services

  abbrev pub sethostent : Bool → Netdb → Netdb
  sethostent = setent content hosts

  abbrev pub setnetent : Bool → Netdb → Netdb
  setnetent = setent content networks

  abbrev pub setprotoent : Bool → Netdb → Netdb
  setprotoent = setent content protocols

  abbrev pub setservent : Bool → Netdb → Netdb
  setservent = setent content services

abbrev pub endhostent : Netdb → Netdb
endhostent = endent hosts

abbrev pub endnetent : Netdb → Netdb
endnetent = endent networks

abbrev pub endprotoent : Netdb → Netdb
endprotoent = endent protocols

abbrev pub endservent : Netdb → Netdb
endservent = endent services
