-- ===== src/Auth/Password.antt =====
-- internal/auth/password.go: the hash of a password, its text, and the check of a password.
pub mod RoundTrip
use motekarindo_panel.Base.{
  ℕ, zero, suc, ◌%◌, ◌^◌, ◌*◌, Bool, true, false, ◌&&◌, ◌||◌, not, Option, none, some, List, [],
  ◌∷◌, ◌++◌, all, length, ◌==◌, if◌then◌else◌,
}
use motekarindo_panel.Base.Int.{ℤ, pos, negsuc}
use motekarindo_panel.Base.Text.{Text, txt, same}
use motekarindo_panel.Base.Text.Split.{split, cut}
use motekarindo_panel.Base.Text.Decimal.{decimal, atoi}
use motekarindo_panel.Base.Error.{
  Error, sentinel, plain, invalid_password_hash, Result, ok, err, refuse, ◌>>=◌, ◌>>◌,
}
use motekarindo_panel.Auth.{Toolkit}

abbrev pub password_hash_algorithm : Text
password_hash_algorithm = txt "argon2id"

pub record PasswordHashParams : Type 0 where
  pub memory_kb : ℕ
  pub iterations : ℕ
  pub parallelism : ℕ
  pub salt_length : ℕ
  pub key_length : ℕ

abbrev pub default_password_hash_params : PasswordHashParams
default_password_hash_params = record {
  memory_kb = 64 * 1024;
  iterations = 3;
  parallelism = 2;
  salt_length = 16;
  key_length = 32;
}

unfoldable pub has_zero : PasswordHashParams → Bool
has_zero p =
    (p.memory_kb == 0)
    || (p.iterations == 0)
    || (p.parallelism == 0)
    || (p.salt_length == 0)
    || (p.key_length == 0)

unfoldable pub validate_hash_params : PasswordHashParams → Result (Unit {0})
unfolding has_zero
validate_hash_params p = refuse (has_zero p) (plain (txt "password hash params must be non-zero"))

-- "m=%d,t=%d,p=%d"
unfoldable pub param_list : PasswordHashParams → Text
param_list p =
    txt "m="
    ++ (decimal p.memory_kb
        ++ (b',' ∷ txt "t="
            ++ (decimal p.iterations ++ (b',' ∷ txt "p=" ++ decimal p.parallelism))))

-- The text of a hash, "%s$v=19$m=%d,t=%d,p=%d$%s$%s".
unfoldable pub format_hash : PasswordHashParams → Text → Text → Text
format_hash p salt key =
    password_hash_algorithm
    ++ (b'$' ∷ txt "v=19" ++ (b'$' ∷ param_list p ++ (b'$' ∷ salt ++ (b'$' ∷ key))))

-- One part of the list of parameters, as an entry of the map.
unfoldable pub parse_param : Text → Result (Text × ℕ)
parse_param part = elim (cut part) [
  | none ↦ err (sentinel invalid_password_hash)
  | some (key, text) ↦ elim (atoi text) [
    | some (pos (suc n)) ↦ ok (key, suc n)
    | _ ↦ err (sentinel invalid_password_hash)
  ]
]

-- The loop over the parts; the latest entry of a key stands first.
unfoldable pub parse_params : List Text → List (Text × ℕ) → Result (List (Text × ℕ))
unfolding parse_param
parse_params [] out = ok out
parse_params (part ∷ parts) out = parse_param part >>= λ entry. parse_params parts (entry ∷ out)

-- out[key] of a Go map
unfoldable pub param : Text → List (Text × ℕ) → ℕ
unfolding same
param key [] = 0
param key ((k, n) ∷ out) = if same k key then n else param key out

unfoldable pub lacks_param : List (Text × ℕ) → Bool
unfolding param
lacks_param out =
    (param (txt "m") out == 0) || (param (txt "t") out == 0) || (param (txt "p") out == 0)

unfoldable pub parse_param_list : Text → Result (List (Text × ℕ))
unfolding parse_params lacks_param split
parse_param_list raw = do
  out ← parse_params (split b',' raw) []
  refuse (lacks_param out) (sentinel invalid_password_hash)
  ok out

abbrev pub or_invalid_hash : {A : Type 0} → Option A → Result A
or_invalid_hash none = err (sentinel invalid_password_hash)
or_invalid_hash (some a) = ok a

-- The conversions to uint32 and uint8 keep the lowest bits.
abbrev pub params_of : List (Text × ℕ) → List ℕ → List ℕ → PasswordHashParams
params_of out salt key = record {
  memory_kb = param (txt "m") out % 2 ^ 32;
  iterations = param (txt "t") out % 2 ^ 32;
  parallelism = param (txt "p") out % 2 ^ 8;
  salt_length = length salt % 2 ^ 32;
  key_length = length key % 2 ^ 32;
}

module _ (lib : Toolkit) where
  -- The five parts of a text, or another number of them.
  unfoldable pub decode_parts : List Text → Result (PasswordHashParams × List ℕ × List ℕ)
  unfolding has_zero same
  decode_parts (algorithm ∷ version ∷ params ∷ salt_text ∷ key_text ∷ []) = do
    refuse (not (same algorithm password_hash_algorithm) || not (same version (txt "v=19")))
        (sentinel invalid_password_hash)
    out ← parse_param_list params
    salt ← or_invalid_hash (lib.decode salt_text)
    key ← or_invalid_hash (lib.decode key_text)
    refuse (has_zero (params_of out salt key)) (sentinel invalid_password_hash)
    ok (params_of out salt key, salt, key)
  decode_parts _ = err (sentinel invalid_password_hash)

  unfoldable pub decode_password_hash : Text → Result (PasswordHashParams × List ℕ × List ℕ)
  unfolding decode_parts split
  decode_password_hash encoded = decode_parts (split b'$' encoded)

  unfoldable pub derive : Text → List ℕ → PasswordHashParams → List ℕ
  derive password salt p =
      lib.argon2_key password salt p.iterations p.memory_kb p.parallelism p.key_length

  -- `random` is what rand.Read puts into the salt, or its error.
  unfoldable pub hash_password : Text → PasswordHashParams → Result (List ℕ) → Result Text
  unfolding validate_hash_params format_hash derive
  hash_password password p random = do
    validate_hash_params p
    salt ← random
    ok (format_hash p (lib.encode salt) (lib.encode (derive password salt p)))

  unfoldable pub verify_password : Text → Text → Result Bool
  unfolding decode_password_hash derive same
  verify_password password encoded = do
    (p, salt, key) ← decode_password_hash encoded
    ok (same (derive password salt p) key)
