-- ===== src/Netdb/Queries.antt =====
-- The functions of netdb.h in lib/posix/options/networking/netdb_ent.c. Each yields its result,
-- `none` for NULL, and the files after the call. The four copies of each loop in the source are one
-- function here, whose argument is the parser.
use posix_next.Base.{
  ℕ, Bool, true, false, ◌&&◌, ◌||◌, not, ◌==◌, Option, none, some, List, [], ◌∷◌, if◌then◌else◌,
  CString, str_eq, ℤ, pos, negsuc,
}
use posix_next.Netdb.{
  Db, networks, protocols, services, Netdb, is_open, set_fp, set_stayopen, netdb_release,
  netdb_open, netdb_close, netdb_rewind,
}
use posix_next.Netdb.Columns.{
  Netent, Protoent, Servent, is_comment_or_blank, trim_newline, parse_networks_line,
  parse_protocols_line, parse_services_line,
}

-- The loop over the lines, up to an entry that is accepted: the entry, and the lines after it.
unfoldable pub read_entry {ℓ} :
    {A : Type ℓ} → (CString → Option A) → (A → Bool) → List CString → Option A × List CString
unfolding is_comment_or_blank trim_newline
read_entry parse accept [] = (none, [])
read_entry parse accept (l ∷ ls) =
    let rest = read_entry parse accept ls in
    let line = trim_newline l in
    if is_comment_or_blank line
    then rest
    else elim (parse line) [ none ↦ rest | some e ↦ if accept e then (some e, ls) else rest ]

abbrev pub lines_left : Option (List CString) → List CString
lines_left none = []
lines_left (some ls) = ls

-- `if (!db->stayopen) { fclose(db->fp); db->fp = NULL; }`, after the lines up to `ls`.
abbrev pub leave_at : Db → List CString → Netdb → Netdb
leave_at db ls w = set_fp db (if (w.files db).stayopen then some ls else none) w

module _ {ℓ} {A : Type ℓ} (content : Db → Option CString) (parse : CString → Option A) where
  abbrev pub after_read : Db → Netdb → Option A × List CString → Option A × Netdb
  after_read db w (none, ls) = (none, netdb_close db (set_fp db (some ls) w))
  after_read db w (some e, ls) = (some e, leave_at db ls w)

  -- gethostent, getnetent, getprotoent and getservent.
  unfoldable pub getent : Db → Netdb → Option A × Netdb
  unfolding netdb_open netdb_close read_entry
  getent db w =
      let w' = netdb_open content db w in
      if not (is_open (w'.files db))
      then (none, w')
      else after_read db w' (read_entry parse (λ e. true) (lines_left (w'.files db).fp))

  -- scan_protocols, scan_services, and scan_networks up to its fallback.
  unfoldable pub scan : Db → (A → Bool) → Netdb → Option A × Netdb
  unfolding netdb_rewind read_entry
  scan db accept w =
      let w' = netdb_rewind content db w in
      if not (is_open (w'.files db))
      then (none, w')
      else (let (e, ls) = read_entry parse accept (lines_left (w'.files db).fp) in
          (e, leave_at db ls w'))

-- sethostent, setnetent, setprotoent and setservent.
unfoldable pub setent : (Db → Option CString) → Db → Bool → Netdb → Netdb
unfolding netdb_rewind
setent content db stayopen w = netdb_rewind content db (set_stayopen db stayopen w)

-- endhostent, endnetent, endprotoent and endservent.
unfoldable pub endent : Db → Netdb → Netdb
unfolding netdb_release
endent db w = set_stayopen db false (netdb_release db w)

-- `name != NULL && strcmp(s, name) != 0` does not hold.
abbrev pub named : Option CString → CString → Bool
named none s = true
named (some name) s = str_eq s name

abbrev pub no_name : Option CString → Bool
no_name none = true
no_name (some name) = false

abbrev pub same_int : ℤ → ℤ → Bool
same_int (pos a) (pos b) = a == b
same_int (pos a) (negsuc b) = false
same_int (negsuc a) (pos b) = false
same_int (negsuc a) (negsuc b) = a == b

abbrev loopback : Netent
loopback = record {
  name = b'l' ∷ b'o' ∷ b'o' ∷ b'p' ∷ b'b' ∷ b'a' ∷ b'c' ∷ b'k' ∷ [];
  aliases = [];
  net = 127;
}

abbrev pub wanted_network : Option CString → ℕ → Bool → Netent → Bool
wanted_network name net match_net ne = named name ne.name && (not match_net || ne.net == net)

unfoldable pub lookup_network_fallback : Option CString → ℕ → Bool → Option Netent
lookup_network_fallback name net match_net =
    if wanted_network name net match_net loopback then some loopback else none

abbrev or_fallback : Option Netent → Option Netent × Netdb → Option Netent × Netdb
or_fallback other (none, w) = (other, w)
or_fallback other (some e, w) = (some e, w)

abbrev pub wanted_protocol : Option CString → ℤ → Bool → Protoent → Bool
wanted_protocol name proto match_proto pe =
    named name pe.name && (not match_proto || same_int pe.proto proto)

abbrev pub wanted_service : Option CString → ℤ → Option CString → Servent → Bool
wanted_service name port proto se =
    named name se.name
    && (not (no_name name) || same_int (pos se.port) port)
    && named proto se.proto

module _ (content : Db → Option CString) (strtoul : CString → ℕ) (htons : ℕ → ℕ) where
  unfoldable pub scan_networks : Option CString → ℕ → Bool → Netdb → Option Netent × Netdb
  unfolding scan parse_networks_line lookup_network_fallback
  scan_networks name net match_net w =
      or_fallback (lookup_network_fallback name net match_net)
        (scan content (parse_networks_line strtoul) networks (wanted_network name net match_net) w)

  -- `inet` is `type == AF_INET`.
  unfoldable pub getnetbyaddr : ℕ → Bool → Netdb → Option Netent × Netdb
  unfolding scan_networks
  getnetbyaddr net inet w = if not inet then (none, w) else scan_networks none net true w

  unfoldable pub getnetbyname : Option CString → Netdb → Option Netent × Netdb
  unfolding scan_networks
  getnetbyname none w = (none, w)
  getnetbyname (some name) w = scan_networks (some name) 0 false w

  unfoldable pub scan_protocols : Option CString → ℤ → Bool → Netdb → Option Protoent × Netdb
  unfolding scan parse_protocols_line
  scan_protocols name proto match_proto w =
      scan content (parse_protocols_line strtoul) protocols (wanted_protocol name proto match_proto)
        w

  unfoldable pub getprotobyname : Option CString → Netdb → Option Protoent × Netdb
  unfolding scan_protocols
  getprotobyname none w = (none, w)
  getprotobyname (some name) w = scan_protocols (some name) (pos 0) false w

  unfoldable pub getprotobynumber : ℤ → Netdb → Option Protoent × Netdb
  unfolding scan_protocols
  getprotobynumber proto w = scan_protocols none proto true w

  unfoldable pub scan_services :
      Option CString → ℤ → Option CString → Netdb → Option Servent × Netdb
  unfolding scan parse_services_line
  scan_services name port proto w =
      scan content (parse_services_line strtoul htons) services (wanted_service name port proto) w

  unfoldable pub getservbyname : Option CString → Option CString → Netdb → Option Servent × Netdb
  unfolding scan_services
  getservbyname none proto w = (none, w)
  getservbyname (some name) proto w = scan_services (some name) (pos 0) proto w

  -- The port is compared as a 16-bit number in the order of the network.
  unfoldable pub getservbyport : ℤ → Option CString → Netdb → Option Servent × Netdb
  unfolding scan_services
  getservbyport port proto w = scan_services none port proto w
