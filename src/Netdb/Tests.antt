-- ===== src/Netdb/Tests.antt =====
-- The theorems on the network database at a file of two services.
use posix_next.Netdb.Searching.{scan-find, find}
use posix_next.Netdb.Blanks.{parse_protocols_line_tab}
use posix_next.Netdb.Enumerating.{getent-enumerates, first_entry, listing, calls, entries}
use posix_next.Base.{
  replicate, ◌++◌, List, ℕ, ◌+◌, ◌*◌, ◌/◌, ◌%◌, true, false, Option, none, some, [], ◌∷◌, CString,
  length, ◌≡◌, refl, pos,
}
use posix_next.Netdb.{is_open, Db, Netdb, lines_of}
use posix_next.Netdb.Columns.{parse_protocols_line, columns, parse_services_line}
use posix_next.Netdb.Queries.{setent, endent, scan, wanted_service}
use posix_next.Netdb.Services.{Line, print}

-- Stand-ins for strtoul and htons.
abbrev digits : CString → ℕ
digits s = length s

abbrev swap_bytes : ℕ → ℕ
swap_bytes n = n % 256 * 256 + n / 256

-- `a 1/t b` and `c 22/u`
abbrev two_services : List Line
two_services =
    record { name = b'a' ∷ []; port = b'1' ∷ []; proto = b't' ∷ []; aliases = (b'b' ∷ []) ∷ [] }
    ∷ record { name = b'c' ∷ []; port = b'2' ∷ b'2' ∷ []; proto = b'u' ∷ []; aliases = [] }
    ∷ []

abbrev a_file : Db → Option CString
a_file db = some (print two_services)

abbrev closed : Netdb
closed = record { files = λ db. record { fp = none; stayopen = false }; active = none }

getent-enumerates_example :
    let parse = parse_services_line digits swap_bytes in
    let es = entries parse (lines_of (print two_services)) in
    (calls a_file parse 3 Db.services (setent a_file Db.services true closed) ≡ listing 3 es)
    × (calls a_file parse 3 Db.services (endent Db.services closed) ≡ replicate 3 (first_entry es))
getent-enumerates_example =
    getent-enumerates a_file (parse_services_line digits swap_bytes) 3 Db.services closed
      (print two_services) refl

scan-find_example :
    let parse = parse_services_line digits swap_bytes in
    let wanted = wanted_service none (pos 256) none in
    ((scan a_file parse Db.services wanted closed).0
      ≡ find wanted (entries parse (lines_of (print two_services))))
    × (is_open ((scan a_file parse Db.services wanted closed).1.files Db.services) ≡ false)
scan-find_example =
    scan-find a_file (parse_services_line digits swap_bytes) Db.services
      (wanted_service none (pos 256) none) closed (print two_services) refl

-- `tcp`, a tab, `6`, a space and `TCP`
parse_protocols_line_tab_example :
    (columns
        ((b't' ∷ b'c' ∷ b'p' ∷ []) ++ (b'\t' ∷ ((b'6' ∷ []) ++ (b' ' ∷ b'T' ∷ b'C' ∷ b'P' ∷ []))))
      ≡ some (b't' ∷ b'c' ∷ b'p' ∷ b'\t' ∷ b'6' ∷ [], b'T' ∷ b'C' ∷ b'P' ∷ [], []))
    × (parse_protocols_line digits
          ((b't' ∷ b'c' ∷ b'p' ∷ []) ++ (b'\t' ∷ ((b'6' ∷ []) ++ (b' ' ∷ b'T' ∷ b'C' ∷ b'P' ∷ []))))
        ≡ some
            (record { name = b't' ∷ b'c' ∷ b'p' ∷ b'\t' ∷ b'6' ∷ []; aliases = []; proto = pos 3 }))
parse_protocols_line_tab_example =
    parse_protocols_line_tab digits (b't' ∷ b'c' ∷ b'p' ∷ []) (b'6' ∷ []) (b'T' ∷ b'C' ∷ b'P' ∷ [])
      (refl, refl, refl, refl) refl (refl, refl, refl, refl)
