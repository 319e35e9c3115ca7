-- ===== src/Passwd/Tests.antt =====
-- The theorems on the user and the group database at files of two entries.
use posix_next.Passwd.GroupLookup.{
  z_getgr_r-first_group, group, print_groups, GroupEntry, AreGroups,
}
use posix_next.Passwd.Groups.{z_getgr_r}
use posix_next.Base.{
  false, Bool, ◌≡◌, ◌==◌, true, some, [], ◌∷◌, CString, length, ok, ℤ, pos, negsuc, arith, refl,
}
use posix_next.Passwd.{z_getpw_r}
use posix_next.Passwd.Lines.{Entry, print, AreEntries}
use posix_next.Passwd.Lookup.{user, z_getpw_r-first_wanted}

-- A stand-in for atoi, and the comparison of what it yields.
abbrev digits : CString → ℤ
digits s = pos (length s)

abbrev same_id : ℤ → ℤ → Bool
same_id (pos a) (pos b) = a == b
same_id (pos a) (negsuc b) = false
same_id (negsuc a) (pos b) = false
same_id (negsuc a) (negsuc b) = a == b

abbrev root_user : Entry
root_user = record {
  name = b'r' ∷ [];
  passwd = b'x' ∷ [];
  uid = b'0' ∷ [];
  gid = b'0' ∷ [];
  gecos = [];
  dir = b'/' ∷ [];
  shell = [];
}

abbrev other_user : Entry
other_user = record {
  name = b'u' ∷ [];
  passwd = b'x' ∷ [];
  uid = b'1' ∷ [];
  gid = b'1' ∷ [];
  gecos = [];
  dir = b'/' ∷ [];
  shell = [];
}

are_entries : AreEntries 20 (root_user ∷ other_user ∷ [])
are_entries = (
  (
    (refl, refl),
    (refl, refl),
    (refl, refl),
    (refl, refl),
    (refl, refl),
    (refl, refl),
    (refl, refl),
    omega arith,
  ),
  (
    (
      (refl, refl),
      (refl, refl),
      (refl, refl),
      (refl, refl),
      (refl, refl),
      (refl, refl),
      (refl, refl),
      omega arith,
    ),
    tt,
  ),
)

z_getpw_r-first_wanted_example :
    z_getpw_r digits same_id true
      (some (b'u' ∷ []))
      (negsuc 0)
      20
      (some (print (root_user ∷ other_user ∷ [])))
    ≡ ok (some (user digits same_id other_user))
z_getpw_r-first_wanted_example =
    z_getpw_r-first_wanted digits same_id (some (b'u' ∷ [])) (negsuc 0) 20
      (root_user ∷ other_user ∷ []) (omega arith) are_entries

abbrev root_group : GroupEntry
root_group = record { name = b'r' ∷ []; passwd = b'x' ∷ []; gid = b'0' ∷ []; members = [] }

abbrev other_group : GroupEntry
other_group = record {
  name = b'g' ∷ [];
  passwd = b'x' ∷ [];
  gid = b'1' ∷ [];
  members = (b'u' ∷ []) ∷ (b'v' ∷ b'w' ∷ []) ∷ [];
}

are_groups : AreGroups 4 60 (root_group ∷ other_group ∷ [])
are_groups = (
  ((refl, refl), (refl, refl), (refl, refl), tt, omega arith),
  (
    (
      (refl, refl),
      (refl, refl),
      (refl, refl),
      ((λ h. cc), refl, refl, ((λ h. cc), refl, refl, tt)),
      omega arith,
    ),
    tt,
  ),
)

z_getgr_r-first_group_example :
    z_getgr_r digits same_id 4 60 true
      (some (b'g' ∷ []))
      (negsuc 0)
      (some (print_groups (root_group ∷ other_group ∷ [])))
    ≡ ok (some (group digits same_id other_group))
z_getgr_r-first_group_example =
    z_getgr_r-first_group digits same_id 4 60 (some (b'g' ∷ [])) (negsuc 0)
      (root_group ∷ other_group ∷ []) (omega arith) are_groups
