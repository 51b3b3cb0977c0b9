-- ===== src/Tests/Scripts.antt =====
-- Tests of the reading of the migrations' directory.
use motekarindo_panel.Base.{◌≡◌, refl, true, false, List, [], ◌∷◌}
use motekarindo_panel.Base.Sort.{Chain, sort_by}
use motekarindo_panel.Base.Text.{Text, txt}
use motekarindo_panel.Base.Error.{Error, plain, Result, ok}
use motekarindo_panel.Database.{Migration}
use motekarindo_panel.Database.Files.{Entry, version_le, load_migrations}
use motekarindo_panel.Database.Files.Distinct.{version_lt}
use motekarindo_panel.Database.Files.Sorted.{Loads, load_migrations-Chain}

abbrev file : Text → Entry
file name = record { name = name; is_dir = false }

-- Two scripts with numbers of different lengths, a text and a directory.
abbrev directory : List Entry
directory =
    file (txt "10_jobs.sql")
    ∷ file (txt "9_core.sql")
    ∷ file (txt "README.md")
    ∷ record { name = txt "1_old.sql"; is_dir = true }
    ∷ []

abbrev script_text : Text → Result Text
script_text name = ok (txt " SELECT 1 ")

abbrev range_error : Text → Error
range_error digits = plain (txt "value out of range")

abbrev script_of : Text → Text → Text → Migration
script_of path name sql = record { version = 9; name = name; path = path; sql = sql }

abbrev in_order : List Migration
in_order =
    script_of (txt "9_core.sql") (txt "core") (txt "SELECT 1")
    ∷ record (script_of (txt "10_jobs.sql") (txt "jobs") (txt "SELECT 1")) { version = 10 }
    ∷ []

directory-loads : load_migrations (λ s. s) range_error script_text (ok directory) ≡ ok in_order
unfolding load_migrations
directory-loads = refl

load_migrations-Chain_example :
    Chain version_lt in_order
    × ((found : List Migration) × Loads (λ s. s) range_error script_text directory found
        × (in_order ≡ sort_by version_le found))
load_migrations-Chain_example =
    load_migrations-Chain (λ s. s) range_error script_text directory in_order directory-loads
