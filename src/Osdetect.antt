-- ===== src/Osdetect.antt =====
-- internal/osdetect/osrelease.go: the parsing of os-release, and whether a system is supported.
pub mod Laws
use motekarindo_panel.Base.{
  ℕ, Bool, true, false, ◌&&◌, ◌||◌, Option, none, some, List, [], ◌∷◌, ◌++◌, ◌==◌, if◌then◌else◌,
}
use motekarindo_panel.Base.Text.{Text, txt, same, is_empty, starts_with, trim_space}
use motekarindo_panel.Base.Text.Split.{cut}
use motekarindo_panel.Base.Error.{Error, Result, ok, err}

pub record OsRelease : Type 0 where
  pub id : Text
  pub version_id : Text
  pub name : Text

pub record SupportStatus : Type 0 where
  pub supported : Bool
  pub reason : Text

-- strings.Trim(s, c) for one character
unfoldable pub trim_left_of : ℕ → Text → Text
trim_left_of c [] = []
trim_left_of c (d ∷ s) = if d == c then trim_left_of c s else d ∷ s

unfoldable pub cons_unless : ℕ → ℕ → Text → Text
cons_unless c d [] = if d == c then [] else d ∷ []
cons_unless c d (e ∷ s) = d ∷ e ∷ s

unfoldable pub trim_right_of : ℕ → Text → Text
unfolding cons_unless
trim_right_of c [] = []
trim_right_of c (d ∷ s) = cons_unless c d (trim_right_of c s)

unfoldable pub trim : ℕ → Text → Text
unfolding trim_left_of trim_right_of
trim c s = trim_right_of c (trim_left_of c s)

unfoldable pub clean_value : Text → Text
unfolding trim_space trim
clean_value s = trim b'\'' (trim b'"' (trim_space s))

-- A line's effect on the map of the values; the latest entry of a key stands first.
unfoldable pub read_line : Text → List (Text × Text) → List (Text × Text)
unfolding trim_space clean_value cut
read_line l values =
    let line = trim_space l in
    if is_empty line || starts_with b'#' line
    then values
    else elim (cut line) [ none ↦ values | some (key, v) ↦ (key, clean_value v) ∷ values ]

unfoldable pub read_lines : List Text → List (Text × Text) → List (Text × Text)
unfolding read_line
read_lines [] values = values
read_lines (l ∷ lines) values = read_lines lines (read_line l values)

-- values[key]
unfoldable pub value_of : Text → List (Text × Text) → Text
unfolding same
value_of key [] = []
value_of key ((k, v) ∷ values) = if same k key then v else value_of key values

-- The lines that the scanner gives, and its error, if any.
unfoldable pub parse_os_release : List Text → Option Error → Result OsRelease
parse_os_release lines (some e) = err e
parse_os_release lines none =
    let values = read_lines lines [] in
    ok (record {
      id = value_of (txt "ID") values;
      version_id = value_of (txt "VERSION_ID") values;
      name = value_of (txt "PRETTY_NAME") values;
    })

abbrev pub unsupported : Text → SupportStatus
unsupported reason = record { supported = false; reason = reason }

unfoldable pub check_support : OsRelease → SupportStatus
unfolding same
check_support release =
    if same release.id (txt "ubuntu") && same release.version_id (txt "24.04")
    then record { supported = true; reason = txt "Ubuntu 24.04 LTS is supported" }
    else if same release.id (txt "debian")
    then unsupported (txt "Debian support is planned after Ubuntu 24.04 LTS")
    else if same release.id (txt "rocky")
        || same release.id (txt "almalinux")
        || same release.id (txt "rhel")
    then unsupported (txt "RHEL-compatible support is planned after the OS adapter layer is stable")
    else if is_empty release.id || is_empty release.version_id
    then unsupported (txt "could not determine OS ID and VERSION_ID")
    else unsupported (
        release.id
        ++ (txt " "
            ++ (release.version_id ++ txt " is not supported by the first installer release")))
