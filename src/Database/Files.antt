-- ===== src/Database/Files.antt =====
-- `LoadMigrations` of internal/database/migration.go, over the entries of the directory.
pub mod Distinct
pub mod Sorted
use motekarindo_panel.Base.{
  ℕ, Bool, true, false, ◌&&◌, ◌||◌, not, Option, none, some, List, [], ◌∷◌, ◌++◌, all, ltb, leb,
  ◌==◌, if◌then◌else◌,
}
use motekarindo_panel.Base.Int.{ℤ, pos, negsuc}
use motekarindo_panel.Base.Sort.{sort_by}
use motekarindo_panel.Base.Text.{Text, txt, same, is_empty, trim_space}
use motekarindo_panel.Base.Text.Decimal.{atoi, decimal, is_digit}
use motekarindo_panel.Base.Error.{Error, plain, wrap, Result, ok, err, ◌>>=◌}
use motekarindo_panel.Database.{Migration}

pub record Entry : Type 0 where
  pub name : Text
  pub is_dir : Bool

-- [a-zA-Z0-9_-]
abbrev pub is_name_char : ℕ → Bool
is_name_char c =
    (leb b'a' c && leb c b'z')
    || ((leb b'A' c && leb c b'Z') || (is_digit c || ((c == b'_') || (c == b'-'))))

abbrev pub cons_name : ℕ → Option Text → Option Text
cons_name c none = none
cons_name c (some s) = some (c ∷ s)

abbrev pub cons_front : ℕ → Option (Text × Text) → Option (Text × Text)
cons_front c none = none
cons_front c (some (front, rest)) = some (c ∷ front, rest)

-- What stands before and behind the first underscore.
unfoldable pub at_underscore : Text → Option (Text × Text)
at_underscore [] = none
at_underscore (c ∷ s) =
    let rest = at_underscore s in if c == b'_' then some ([], s) else cons_front c rest

-- What stands before an ending .sql.
unfoldable pub stem : Text → Option Text
unfolding same
stem [] = none
stem (c ∷ s) = let rest = stem s in if same (c ∷ s) (txt ".sql") then some [] else cons_name c rest

abbrev pub named : Text → Option Text → Option (Text × Text)
named digits none = none
named digits (some name) =
    if is_empty digits || not (all is_digit digits) || is_empty name || not (all is_name_char name)
    then none
    else some (digits, name)

abbrev pub match_parts : Option (Text × Text) → Option (Text × Text)
match_parts none = none
match_parts (some (digits, rest)) = named digits (stem rest)

-- ^([0-9]+)_([a-zA-Z0-9_-]+)\.sql$, with the two groups: the digits end at the first underscore.
unfoldable pub match_name : Text → Option (Text × Text)
unfolding at_underscore stem
match_name name = match_parts (at_underscore name)

-- The number of digits, which have no sign.
abbrev pub version_of : Option ℤ → Option ℕ
version_of (some (pos n)) = some n
version_of _ = none

-- seen[version]
unfoldable pub seen_as : ℕ → List (ℕ × Text) → Option Text
seen_as version [] = none
seen_as version ((v, name) ∷ seen) =
    let rest = seen_as version seen in if v == version then some name else rest

abbrev pub put_first : Migration → Result (List Migration) → Result (List Migration)
put_first m (err e) = err e
put_first m (ok ms) = ok (m ∷ ms)

-- The groups of the name of a file.
abbrev pub script_name : Entry → Option (Text × Text)
script_name entry = if entry.is_dir then none else match_name entry.name

-- `quote` is %q of fmt, and `out_of_range` the error of strconv.Atoi; `read` is fs.ReadFile.
module _ (quote : Text → Text) (out_of_range : Text → Error) (read : Text → Result Text) where
  abbrev pub version_error : Text → Text → Error
  version_error name digits =
      wrap (txt "parse migration version " ++ quote name) (out_of_range digits)

  abbrev pub duplicate_error : ℕ → Text → Text → Error
  duplicate_error version previous name = plain (
      txt "duplicate migration version "
      ++ (decimal version ++ (txt " in " ++ (previous ++ (txt " and " ++ name)))))

  abbrev pub empty_error : Text → Error
  empty_error name = plain (txt "migration " ++ (name ++ txt " is empty"))

  -- The file is read, and the entries after it.
  abbrev pub after_read :
      Text → Text → ℕ → Result (List Migration) → Result Text → Result (List Migration)
  after_read name label version next (err e) = err e
  after_read name label version next (ok content) =
      if is_empty (trim_space content)
      then err (empty_error name)
      else put_first
          (record { version = version; name = label; path = name; sql = trim_space content }) next

  abbrev pub after_seen :
      Text → Text → ℕ → Result (List Migration) → Option Text → Result (List Migration)
  after_seen name label version next (some previous) = err (duplicate_error version previous name)
  after_seen name label version next none = after_read name label version next (read name)

  abbrev pub after_version :
      Text
      → Text
      → Text
      → List (ℕ × Text)
      → (ℕ → Result (List Migration))
      → Option ℕ
      → Result (List Migration)
  after_version name digits label seen next none = err (version_error name digits)
  after_version name digits label seen next (some version) =
      after_seen name label version (next version) (seen_as version seen)

  abbrev pub after_match :
      Text
      → List (ℕ × Text)
      → Result (List Migration)
      → (ℕ → Result (List Migration))
      → Option (Text × Text)
      → Result (List Migration)
  after_match name seen skipped next none = skipped
  after_match name seen skipped next (some (digits, label)) =
      after_version name digits label seen next (version_of (atoi digits))

  -- The loop over the entries, with the versions seen.
  unfoldable pub load_entries : List (ℕ × Text) → List Entry → Result (List Migration)
  unfolding match_name atoi seen_as trim_space decimal
  load_entries seen [] = ok []
  load_entries seen (entry ∷ entries) =
      after_match entry.name seen (load_entries seen entries)
        (λ version. load_entries ((version, entry.name) ∷ seen) entries) (script_name entry)

abbrev pub version_le : Migration → Migration → Bool
version_le a b = not (ltb b.version a.version)

abbrev pub sorted : Result (List Migration) → Result (List Migration)
sorted (err e) = err e
sorted (ok migrations) = ok (sort_by version_le migrations)

-- `entries` is what fs.ReadDir returns.
unfoldable pub load_migrations :
    (Text → Text)
    → (Text → Error)
    → (Text → Result Text)
    → Result (List Entry)
    → Result (List Migration)
unfolding load_entries sort_by
load_migrations quote out_of_range read (err e) = err e
load_migrations quote out_of_range read (ok entries) =
    sorted (load_entries quote out_of_range read [] entries)
