-- ===== src/Preflight.antt =====
-- internal/preflight/preflight.go: the checks of a host before an installation.
pub mod Ready
use motekarindo_panel.Base.{
  ℕ, suc, ◌+◌, Bool, true, false, ◌&&◌, ◌||◌, not, List, [], ◌∷◌, ◌++◌, map, ltb, leb,
  if◌then◌else◌,
}
use motekarindo_panel.Base.Int.{ℤ, pos, negsuc}
use motekarindo_panel.Base.Sort.{sort_by}
use motekarindo_panel.Base.Text.{Text, txt, same, is_empty, trim_space, to_lower}
use motekarindo_panel.Base.Text.Decimal.{decimal}
use motekarindo_panel.Base.Error.{plain, Result, ok, err}
use motekarindo_panel.Osdetect.{OsRelease, check_support}

-- InstallProfile and PostgreSQLPlan are strings.
abbrev pub profile_shared_hosting : Text
profile_shared_hosting = txt "shared-hosting"

abbrev pub profile_single_user : Text
profile_single_user = txt "single-user"

abbrev pub plan_external : Text
plan_external = txt "external"

abbrev pub plan_install : Text
plan_install = txt "install"

unfoldable pub parse_install_profile : Text → Result Text
unfolding to_lower trim_space same
parse_install_profile value =
    let v = to_lower (trim_space value) in
    if is_empty v || same v profile_shared_hosting
    then ok profile_shared_hosting
    else if same v profile_single_user
    then ok profile_single_user
    else err (plain (txt "unsupported install profile"))

unfoldable pub parse_postgresql_plan : Text → Result Text
unfolding to_lower trim_space same
parse_postgresql_plan value =
    let v = to_lower (trim_space value) in
    if same v plan_install
    then ok plan_install
    else if same v plan_external
    then ok plan_external
    else err (plain (txt "unsupported PostgreSQL plan"))

-- `ports_available` is the map with each port once.
pub record SystemFacts : Type 0 where
  pub os : OsRelease
  pub profile : Text
  pub cpu_cores : ℤ
  pub ram_mb : ℤ
  pub disk_gb : ℤ
  pub swap_mb : ℤ
  pub is_root : Bool
  pub has_systemd : Bool
  pub ports_available : List (ℕ × Bool)
  pub postgresql_plan : Text

pub data CheckStatus : Type 0 where
  pass fail warn : CheckStatus

pub record Check : Type 0 where
  pub name : Text
  pub status : CheckStatus
  pub message : Text
  pub blocking : Bool

abbrev pub is_fail : CheckStatus → Bool
is_fail fail = true
is_fail _ = false

-- `BlockingFailures` of a report, which is its checks.
unfoldable pub blocking_failures : List Check → List Check
blocking_failures [] = []
blocking_failures (c ∷ checks) =
    let rest = blocking_failures checks in if c.blocking && is_fail c.status then c ∷ rest else rest

abbrev pub has_none : List Check → Bool
has_none [] = true
has_none (c ∷ checks) = false

unfoldable pub ready : List Check → Bool
unfolding blocking_failures
ready checks = has_none (blocking_failures checks)

abbrev pub status_of : Bool → CheckStatus
status_of true = pass
status_of false = fail

-- got >= want, for a want that is not negative
abbrev pub at_least : ℕ → ℤ → Bool
at_least want (pos got) = leb want got
at_least want (negsuc n) = false

abbrev pub signed_decimal : ℤ → Text
signed_decimal (pos n) = decimal n
signed_decimal (negsuc n) = b'-' ∷ decimal (suc n)

unfoldable pub minimum : Text → ℤ → ℕ → Text → Check
unfolding decimal
minimum name got want unit = record {
  name = name;
  status = status_of (at_least want got);
  message =
      txt "minimum "
      ++ (name
          ++ (txt " is "
              ++ (decimal want ++ (b' ' ∷ unit ++ (txt "; detected " ++ signed_decimal got)))));
  blocking = true;
}

unfoldable pub boolean : Text → Bool → Text → Check
boolean name good message = record {
  name = name;
  status = status_of good;
  message = message;
  blocking = true;
}

unfoldable pub normalize_profile : Text → Text
unfolding same
normalize_profile profile =
    if same profile profile_single_user then profile_single_user else profile_shared_hosting

-- A warning below the recommended size.
unfoldable pub warning : Text → ℕ → ℕ → Text → ℤ → Check
unfolding decimal
warning name least advised unit got = record {
  name = name;
  status = warn;
  message =
      txt "single-user profile can run with "
      ++ (decimal least
          ++ (b' ' ∷ unit
              ++ (txt ", but "
                  ++ (decimal advised
                      ++ (b' ' ∷ unit
                          ++ (txt " is recommended; detected " ++ signed_decimal got))))));
  blocking = false;
}

-- `checkMemory` and `checkSwap` below the size that the profile needs, and below the size advised.
unfoldable pub check_size : Text → Text → ℕ → ℕ → ℕ → Text → ℤ → Check
unfolding minimum warning same
check_size name profile single shared advised unit got =
    if same profile profile_single_user
    then if not (at_least single got)
      then minimum name got single unit
      else if not (at_least advised got)
      then warning name single advised unit got
      else minimum name got single unit
    else minimum name got shared unit

unfoldable pub check_memory : Text → ℤ → Check
unfolding check_size
check_memory profile got = check_size (txt "memory") profile 960 2048 2048 (txt "MB RAM") got

unfoldable pub check_swap : Text → ℤ → Check
unfolding check_size
check_swap profile got = check_size (txt "swap") profile 1024 1024 2048 (txt "MB swap") got

unfoldable pub check_disk : Text → ℤ → Check
unfolding minimum same
check_disk profile got =
    if same profile profile_single_user
    then minimum (txt "disk") got 15 (txt "GB disk")
    else minimum (txt "disk") got 20 (txt "GB disk")

unfoldable pub check_os : OsRelease → Check
unfolding check_support
check_os release =
    let support = check_support release in
    record {
      name = txt "os";
      status = status_of support.supported;
      message = support.reason;
      blocking = true;
    }

unfoldable pub check_postgresql_plan : Text → Check
unfolding same
check_postgresql_plan plan =
    if same plan plan_external || same plan plan_install
    then boolean (txt "postgresql") true (txt "PostgreSQL plan: " ++ plan)
    else boolean (txt "postgresql") false
        (txt "PostgreSQL must be installed by Motekar Panel or provided externally")

unfoldable pub check_port : ℕ × Bool → Check
unfolding boolean decimal
check_port (port, available) =
    boolean (txt "port:" ++ decimal port) available
      (txt "port " ++ (decimal port ++ txt " must be available"))

abbrev pub port_le : ℕ × Bool → ℕ × Bool → Bool
port_le p q = leb p.0 q.0

unfoldable pub run : SystemFacts → List Check
unfolding check_os minimum check_memory check_disk check_swap boolean check_postgresql_plan
    check_port
run facts =
    let profile = normalize_profile facts.profile in
    check_os facts.os
    ∷ minimum (txt "cpu") facts.cpu_cores 1 (txt "core(s)")
    ∷ check_memory profile facts.ram_mb
    ∷ check_disk profile facts.disk_gb
    ∷ check_swap profile facts.swap_mb
    ∷ boolean (txt "root") facts.is_root (txt "installer must run as root")
    ∷ boolean (txt "systemd") facts.has_systemd (txt "systemd is required")
    ∷ check_postgresql_plan facts.postgresql_plan
    ∷ map check_port (sort_by port_le facts.ports_available)
