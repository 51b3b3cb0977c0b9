-- ===== src/Auth/Password/RoundTrip.antt =====
-- A password is accepted by the hash made of it (internal/auth/password.go).
use motekarindo_panel.Base.{
  ◌≡◌, refl, sym, ap, ◌∙◌, ℕ, zero, suc, ◌^◌, ◌<◌, true, false, some, List, [], ◌∷◌, ◌++◌, length,
  arith, ◌==◌,
}
use motekarindo_panel.Base.Text.{Text, txt, same}
use motekarindo_panel.Base.Text.Split.{split, cut, lacks, split-append, split-whole}
use motekarindo_panel.Base.Text.Decimal.{decimal, atoi-decimal, lacks-decimal}
use motekarindo_panel.Base.Error.{ok, ok-injective, refuse-eq-ok}
use motekarindo_panel.Jobs.SqlStore.Rows.Laws.{same_self}
use motekarindo_panel.Auth.{Toolkit}
use motekarindo_panel.Auth.Password.{
  PasswordHashParams, has_zero, validate_hash_params, param_list, format_hash, parse_param,
  parse_params, param, lacks_param, parse_param_list, params_of, decode_parts, decode_password_hash,
  derive, hash_password, verify_password,
}

-- What package argon2 and package base64 promise: a key has the length asked for, a decoder reads
-- what its encoder wrote, and the alphabet has no dollar sign.
pub record IsFaithful (lib : Toolkit) : Type 0 where
  pub decode-encode : (b : List ℕ) → lib.decode (lib.encode b) ≡ some b
  pub lacks-encode : (b : List ℕ) → lacks b'$' (lib.encode b) ≡ true
  pub length-argon2_key :
      (password : Text) (salt : List ℕ) (t m p n : ℕ)
      → length (lib.argon2_key password salt t m p n) ≡ n

-- The ranges of uint32 and uint8.
pub record Fits (p : PasswordHashParams) : Type 0 where
  pub memory : p.memory_kb < 2 ^ 32
  pub time : p.iterations < 2 ^ 32
  pub threads : p.parallelism < 2 ^ 8
  pub salt : p.salt_length < 2 ^ 32
  pub key : p.key_length < 2 ^ 32

lacks-append : (c : ℕ) (s t : Text) → lacks c s ≡ true → lacks c t ≡ true → lacks c (s ++ t) ≡ true
lacks-append c [] t h k = k
lacks-append c (d ∷ s) t h k = ground (arith, h, lacks-append c s t, k)

lacks-param_list : (p : PasswordHashParams) → lacks b'$' (param_list p) ≡ true
unfolding param_list
lacks-param_list p =
    lacks-append b'$' (decimal p.memory_kb) _ (lacks-decimal b'$' p.memory_kb refl) (
      lacks-append b'$' (decimal p.iterations) _ (lacks-decimal b'$' p.iterations refl)
        (lacks-decimal b'$' p.parallelism refl))

split-format_hash :
    (p : PasswordHashParams) (salt key : Text)
    → lacks b'$' salt ≡ true
    → lacks b'$' key ≡ true
    → split b'$' (format_hash p salt key)
      ≡ txt "argon2id" ∷ txt "v=19" ∷ param_list p ∷ salt ∷ key ∷ []
unfolding format_hash
split-format_hash p salt key h k =
    split-append b'$' (txt "argon2id") _ refl
    ∙ ap (λ x. txt "argon2id" ∷ x)
        (split-append b'$' (txt "v=19") _ refl
          ∙ ap (λ x. txt "v=19" ∷ x)
              (split-append b'$' (param_list p) _ (lacks-param_list p)
                ∙ ap (λ x. param_list p ∷ x)
                    (split-append b'$' salt key h ∙ ap (λ x. salt ∷ x) (split-whole b'$' key k))))

-- The three entries as they stand in the text.
entries : PasswordHashParams → List Text
entries p =
    (txt "m=" ++ decimal p.memory_kb)
    ∷ (txt "t=" ++ decimal p.iterations)
    ∷ (txt "p=" ++ decimal p.parallelism)
    ∷ []

split-param_list : (p : PasswordHashParams) → split b',' (param_list p) ≡ entries p
unfolding param_list entries
split-param_list p =
    split-append b',' (txt "m=" ++ decimal p.memory_kb) _ (lacks-decimal b',' p.memory_kb refl)
    ∙ ap (λ x. (txt "m=" ++ decimal p.memory_kb) ∷ x)
        (split-append b',' (txt "t=" ++ decimal p.iterations) _
            (lacks-decimal b',' p.iterations refl)
          ∙ ap (λ x. (txt "t=" ++ decimal p.iterations) ∷ x)
              (split-whole b',' (txt "p=" ++ decimal p.parallelism)
                (lacks-decimal b',' p.parallelism refl)))

cut-assign : (c : ℕ) (s : Text) → (c == b'=') ≡ false → cut (c ∷ b'=' ∷ s) ≡ some (c ∷ [], s)
unfolding cut
cut-assign c s h = rw h refl

parse_param-decimal :
    (c n : ℕ)
    → (c == b'=') ≡ false
    → (n == 0) ≡ false
    → n < 2 ^ 63
    → parse_param (c ∷ b'=' ∷ decimal n) ≡ ok (c ∷ [], n)
unfolding parse_param
parse_param-decimal c zero h k l = absurd (ground (arith, k))
parse_param-decimal c (suc n) h k l =
    rw (parse_param, cut-assign c (decimal (suc n)) h, atoi-decimal (suc n) l) refl

read : PasswordHashParams → List (Text × ℕ)
read p = (txt "p", p.parallelism) ∷ (txt "t", p.iterations) ∷ (txt "m", p.memory_kb) ∷ []

parse_param_list-param_list :
    (p : PasswordHashParams)
    → Fits p
    → has_zero p ≡ false
    → parse_param_list (param_list p) ≡ ok (read p)
unfolding parse_param_list parse_params has_zero read entries lacks_param param same
parse_param_list-param_list p f h =
    let m =
      parse_param-decimal b'm' p.memory_kb refl (ground (arith, h)) (omega (arith, f.memory)) in
    let t =
      parse_param-decimal b't' p.iterations refl (ground (arith, h)) (omega (arith, f.time)) in
    let u =
      parse_param-decimal b'p' p.parallelism refl (ground (arith, h)) (omega (arith, f.threads)) in
    rw (split-param_list p, m, t, u) (ground (arith, h))

module _ (lib : Toolkit) (laws : IsFaithful lib) (p : PasswordHashParams) (f : Fits p)
    (password : Text) (salt : List ℕ) (salted : length salt ≡ p.salt_length) where
  key : List ℕ
  unfolding derive
  key = derive lib password salt p

  length-key : length key ≡ p.key_length
  unfolding key derive
  length-key =
      laws.length-argon2_key password salt p.iterations p.memory_kb p.parallelism p.key_length

  params_of-read : params_of (read p) salt key ≡ p
  unfolding read param same
  params_of-read =
      rw (length-key, salted) (ground (arith, f.memory, f.time, f.threads, f.salt, f.key))

  decode_password_hash-format_hash :
      has_zero p ≡ false
      → decode_password_hash lib (format_hash p (lib.encode salt) (lib.encode key))
        ≡ ok (p, salt, key)
  unfolding decode_password_hash decode_parts
  decode_password_hash-format_hash filled =
      rw
        (
          split-format_hash p (lib.encode salt) (lib.encode key) (laws.lacks-encode salt)
              (laws.lacks-encode key),
          parse_param_list-param_list p f filled,
          laws.decode-encode salt,
          laws.decode-encode key,
          ap has_zero params_of-read ∙ filled,
          params_of-read,
        )
        refl

  hash_password-eq-ok :
      (text : Text)
      → hash_password lib password p (ok salt) ≡ ok text
      → (has_zero p ≡ false) × (text ≡ format_hash p (lib.encode salt) (lib.encode key))
  unfolding hash_password validate_hash_params key
  hash_password-eq-ok text h =
      let (filled, e) = refuse-eq-ok _ _ _ h in (filled, sym (ok-injective e))

  -- The check of a password against a hash that HashPassword made says whether its derived key is
  -- that of the password hashed, where the parameters fit their types and the salt has their length.
  pub verify_password-hash_password :
      (text guess : Text)
      → hash_password lib password p (ok salt) ≡ ok text
      → verify_password lib guess text
        ≡ ok (same (derive lib guess salt p) (derive lib password salt p))
  unfolding verify_password key
  verify_password-hash_password text guess h =
      let (filled, e) = hash_password-eq-ok text h in
      rw (e, decode_password_hash-format_hash filled) refl

  -- The password hashed is accepted.
  pub verify_password-same :
      (text : Text)
      → hash_password lib password p (ok salt) ≡ ok text
      → verify_password lib password text ≡ ok true
  verify_password-same text h =
      verify_password-hash_password text password h ∙ ap ok (same_self (derive lib password salt p))
