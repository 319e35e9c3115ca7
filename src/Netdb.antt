-- ===== src/Netdb.antt =====
-- lib/posix/options/networking/netdb_ent.c: the four files of the network database, and which of
-- them are open. An open file is the lines that are still to be read from it, as fgets with the
-- buffer `line` reads them; `content` has the bytes of each file, `none` where fopen fails. The
-- children have the parsing of a line and the functions of netdb.h.
pub mod Columns
pub mod Queries
pub mod Functions
pub mod Files
pub mod Enumerating
pub mod Searching
pub mod Words
pub mod Services
pub mod Blanks
mod Tests
use posix_next.Base.{
  [], ℕ, Bool, true, false, ◌&&◌, not, ◌==◌, Option, none, some, List, if◌then◌else◌, CString,
}
use posix_next.Passwd.{pieces}

pub data Db : Type 0 where
  hosts networks protocols services : Db

abbrev index : Db → ℕ
index hosts = 0
index networks = 1
index protocols = 2
index services = 3

-- The comparison of two pointers to the files.
abbrev pub same : Db → Db → Bool
same a b = index a == index b

pub record File : Type 0 where
  pub fp : Option (List CString)
  pub stayopen : Bool

pub record Netdb : Type 0 where
  pub files : Db → File
  pub active : Option Db

abbrev pub is_open : File → Bool
is_open f = elim f.fp [ none ↦ false | some ls ↦ true ]

abbrev pub put : Db → File → Netdb → Netdb
put db f w = record w { files = λ d. if same d db then f else w.files d }

abbrev pub set_fp : Db → Option (List CString) → Netdb → Netdb
set_fp db fp w = put db (record { fp = fp; stayopen = (w.files db).stayopen }) w

abbrev pub set_stayopen : Db → Bool → Netdb → Netdb
set_stayopen db b w = put db (record { fp = (w.files db).fp; stayopen = b }) w

abbrev no_longer : Db → Option Db → Option Db
no_longer db none = none
no_longer db (some d) = if same d db then none else some d

unfoldable pub netdb_release : Db → Netdb → Netdb
netdb_release db w =
    let w' = if is_open (w.files db) then set_fp db none w else w in
    record w' { active = no_longer db w'.active }

abbrev pub release_other : Db → Db → Netdb → Netdb
release_other db other w =
    if is_open (w.files other) && not (same db other) && not (w.files other).stayopen
    then netdb_release other w
    else w

unfoldable pub netdb_release_others : Db → Netdb → Netdb
unfolding netdb_release
netdb_release_others db w =
    release_other db services
      (release_other db protocols (release_other db networks (release_other db hosts w)))

-- What is read from the start of a file with `char line[NETDB_LINE_MAX]`.
abbrev pub lines_of : CString → List CString
lines_of bytes = pieces 256 255 [] bytes

unfoldable pub netdb_close : Db → Netdb → Netdb
unfolding netdb_release
netdb_close db w =
    if is_open (w.files db) && not (w.files db).stayopen then netdb_release db w else w

module _ (content : Db → Option CString) where
  abbrev pub start_of : Db → Option (List CString)
  start_of db = elim (content db) [ none ↦ none | some bytes ↦ some (lines_of bytes) ]

  abbrev pub activate : Db → Netdb → Netdb
  activate db w = if is_open (w.files db) then record w { active = some db } else w

  unfoldable pub netdb_open : Db → Netdb → Netdb
  unfolding netdb_release_others
  netdb_open db w =
      if is_open (w.files db)
      then w
      else activate db (set_fp db (start_of db) (netdb_release_others db w))

  unfoldable pub netdb_rewind : Db → Netdb → Netdb
  unfolding netdb_open
  netdb_rewind db w =
      let w' = netdb_open db w in if is_open (w'.files db) then set_fp db (start_of db) w' else w'
