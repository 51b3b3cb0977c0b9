-- ===== src/Osdetect/Laws.antt =====
-- Which systems are supported (internal/osdetect/osrelease.go).
use motekarindo_panel.Base.{◌≡◌, ◌↔◌, refl, true, none, List, [], ◌∷◌, ◌++◌, arith}
use motekarindo_panel.Base.Text.{Text, txt, same, same_iff}
use motekarindo_panel.Base.Error.{ok}
use motekarindo_panel.Osdetect.{OsRelease, read_lines, value_of, parse_os_release, check_support}

-- A release is supported exactly if its id is ubuntu and its version is 24.04.
pub check_support_lem :
    (release : OsRelease)
    → ((check_support release).supported ≡ true)
      ↔ ((release.id ≡ txt "ubuntu") × (release.version_id ≡ txt "24.04"))
unfolding check_support
check_support_lem release =
    ground (arith, same_iff release.id (txt "ubuntu"), same_iff release.version_id (txt "24.04"))

read_lines-append :
    (lines more : List Text) (values : List (Text × Text))
    → read_lines (lines ++ more) values ≡ read_lines more (read_lines lines values)
unfolding read_lines
read_lines-append [] more values = refl
read_lines-append (l ∷ lines) more values = read_lines-append lines more _

-- Later lines override earlier ones: whatever a file says before, it describes Ubuntu 24.04 if it
-- ends with the two lines of its id and its quoted version.
pub parse_os_release-last :
    (lines : List Text)
    → (release : OsRelease) × (parse_os_release
          (lines ++ txt "ID=ubuntu" ∷ txt "VERSION_ID=\"24.04\"" ∷ [])
          none
        ≡ ok release)
      × ((check_support release).supported ≡ true)
unfolding parse_os_release read_lines value_of check_support same
parse_os_release-last lines = (
  _,
  refl,
  rw (read_lines-append lines (txt "ID=ubuntu" ∷ txt "VERSION_ID=\"24.04\"" ∷ []) []) refl,
)
