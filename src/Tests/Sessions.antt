-- ===== src/Tests/Sessions.antt =====
-- Tests of logging in and out and of the check of a session, on a toolkit made for them.
use motekarindo_panel.Base.{
  ◌/◌, ◌*◌, ◌≡◌, refl, ap, ℕ, zero, suc, ◌+◌, ◌-◌, Bool, true, false, none, some, List, [], ◌∷◌,
  ◌++◌, map, length, arith,
}
use motekarindo_panel.Base.Text.{Text, txt, same, is_empty, trim_space, to_lower}
use motekarindo_panel.Base.Text.Split.{lacks, cut}
use motekarindo_panel.Base.Text.Decimal.{decimal, atoi}
use motekarindo_panel.Base.Error.{Result, ok, err, sentinel, invalid_credentials}
use motekarindo_panel.Base.Act.{lift, attempt, ◌>>=◌}
use motekarindo_panel.Base.Sql.{Conn, exec, transaction}
use motekarindo_panel.Base.Sql.Unless.{transaction_unless}
use motekarindo_panel.Schema.{UserRow, Tables, no_tables}
use motekarindo_panel.Audit.{record_event, write, insert_event}
use motekarindo_panel.Audit.Check.{check_event, trim_event}
use motekarindo_panel.Auth.{Toolkit}
use motekarindo_panel.Auth.Password.{
  PasswordHashParams, hash_password, verify_password, derive, param_list, parse_param_list,
}
use motekarindo_panel.Auth.Password.RoundTrip.{IsFaithful, Fits, verify_password-hash_password}
use motekarindo_panel.Auth.Session.{
  Principal, LoginInput, LoginSession, LogoutInput, Draws, login, logout, validate, open_session,
  login_found, record_failed_login, default_session_duration,
}
use motekarindo_panel.Auth.Session.SqlStore.{
  ColumnTypes, sql_session_store, find_user_by_email, find_user, create_session, insert_session,
  record_audit, find_active_session, find_session, delete_session_by_token_hash,
}
use motekarindo_panel.Auth.Session.Opening.{Opened, login-Opened}
use motekarindo_panel.Auth.Session.RoundTrip.{HasMicroseconds, IsAnswered, validate-login}
use motekarindo_panel.Auth.Session.Lifetime.{IsAlive, validate-IsAlive}
use motekarindo_panel.Auth.Session.Closing.{IsClosed, logout-IsClosed}
use motekarindo_panel.Auth.Session.Failing.{HasSame, rows_of, login-failed}

-- The first n elements, filled up with zeros.
unfoldable pub pad : ℕ → List ℕ → List ℕ
pad zero s = []
pad (suc n) [] = 0 ∷ pad n []
pad (suc n) (c ∷ s) = c ∷ pad n s

abbrev pub tools : Toolkit
tools = record {
  lower = to_lower;
  parse_address = some;
  hash_session_token = λ token. b'h' ∷ token;
  argon2_key = λ password salt t m p n. pad n (password ++ salt);
  encode = map (λ n. n + 64);
  decode = λ s. some (map (λ n. n - 64) s);
}

decode_encoded : (b : List ℕ) → map (λ n. n - 64) (map (λ n. n + 64) b) ≡ b
decode_encoded [] = refl
decode_encoded (n ∷ b) = ground (arith, decode_encoded b)

lacks_encoded : (b : List ℕ) → lacks b'$' (map (λ n. n + 64) b) ≡ true
lacks_encoded [] = refl
lacks_encoded (n ∷ b) = ground (arith, lacks_encoded b)

length-pad : (n : ℕ) (s : List ℕ) → length (pad n s) ≡ n
unfolding pad
length-pad zero s = refl
length-pad (suc n) [] = omega (arith, length-pad n [])
length-pad (suc n) (c ∷ s) = omega (arith, length-pad n s)

pub tools-IsFaithful : IsFaithful tools
tools-IsFaithful = record {
  decode-encode = λ b. ap some (decode_encoded b);
  lacks-encode = lacks_encoded;
  length-argon2_key = λ password salt t m p n. length-pad n (password ++ salt);
}

abbrev pub small : PasswordHashParams
small = record { memory_kb = 8; iterations = 1; parallelism = 1; salt_length = 2; key_length = 3 }

pub small-Fits : Fits small
small-Fits = record {
  memory = omega arith;
  time = omega arith;
  threads = omega arith;
  salt = omega arith;
  key = omega arith;
}

abbrev pub secret : Text
secret = txt "correct horse battery"

-- The salt 1, 2 and the key in the encoding of the toolkit.
abbrev pub hashed_secret : Text
hashed_secret = txt "argon2id$v=19$m=8,t=1,p=1$AB$" ++ (163 ∷ 175 ∷ 178 ∷ [])

pub secret_hashed : hash_password tools secret small (ok (1 ∷ 2 ∷ [])) ≡ ok hashed_secret
unfolding hash_password pad param_list decimal
secret_hashed = refl

verify_password-hash_password_example :
    verify_password tools (txt "guess") hashed_secret
    ≡ ok (
        same
          (derive tools (txt "guess") (1 ∷ 2 ∷ []) small)
          (derive tools secret (1 ∷ 2 ∷ []) small))
verify_password-hash_password_example =
    verify_password-hash_password tools tools-IsFaithful small small-Fits secret (1 ∷ 2 ∷ []) refl
      hashed_secret (txt "guess") secret_hashed

abbrev pub alice : UserRow
alice = record {
  id = txt "u1";
  email = txt "a@b.c";
  password_hash = hashed_secret;
  display_name = txt "Alice";
  is_active = true;
}

abbrev pub anything : {A : Type 0} → A → Bool
anything a = true

-- Columns that take every address and cut instants to the microsecond.
abbrev pub columns : ColumnTypes
columns = record { is_inet = anything; kept = λ t. t / 1000 * 1000 }

columns-HasMicroseconds : HasMicroseconds columns
columns-HasMicroseconds = record {
  near = λ t. (omega arith, omega arith);
  apart = λ t later h. omega (arith, h);
}

abbrev pub event_id : Result Text
event_id = ok (txt "e1")

abbrev pub before_login : Conn Tables
before_login = record { tables = record no_tables { users = alice ∷ [] }; faults = [] }

abbrev pub drawn : Draws
drawn = record { slot = ok tt; id = ok (txt "s1"); token = ok (txt "t1"); now = 10 }

abbrev pub right_input : LoginInput
right_input = record {
  email = txt " A@B.C ";
  password = secret;
  ip_address = txt "10.0.0.1";
  user_agent = txt "test";
}

abbrev pub opened : LoginSession
opened = record { token = txt "t1"; expires_at = 10 + default_session_duration }

pub logs_in :
    (login (sql_session_store columns anything 5 event_id) tools drawn right_input before_login).0
    ≡ ok opened
unfolding login ◌>>=◌ lift attempt sql_session_store exec find_user_by_email find_user same to_lower
    trim_space login_found verify_password parse_param_list cut atoi pad open_session create_session
    transaction insert_session record_audit record_event check_event trim_event write insert_event
logs_in = refl

login-Opened_example :
    Opened columns anything 5 event_id tools drawn right_input before_login
      (login (sql_session_store columns anything 5 event_id) tools drawn right_input before_login).1
      opened
login-Opened_example =
    login-Opened columns anything 5 event_id tools drawn right_input before_login opened logs_in

token_filled : is_empty (trim_space (txt "t1")) ≡ false
unfolding trim_space
token_filled = refl

validate-login_example :
    IsAnswered
      (validate
        (sql_session_store columns anything 5 event_id)
        tools
        11
        (txt "t1")
        (login
          (sql_session_store columns anything 5 event_id)
          tools
          drawn
          right_input
          before_login).1).0
      (login-Opened columns anything 5 event_id tools drawn right_input before_login opened
        logs_in).user
      opened
validate-login_example =
    validate-login columns anything 5 event_id tools drawn right_input before_login opened 11
      columns-HasMicroseconds logs_in token_filled (omega arith)

abbrev wrong_input : LoginInput
wrong_input = record right_input { password = txt "guess" }

fails :
    (login (sql_session_store columns anything 5 event_id) tools drawn wrong_input before_login).0
    ≡ err (sentinel invalid_credentials)
unfolding login ◌>>=◌ lift attempt sql_session_store exec find_user_by_email find_user same to_lower
    trim_space login_found verify_password parse_param_list cut atoi pad record_failed_login
    record_audit record_event check_event trim_event write insert_event
fails = refl

login-failed_example :
    HasSame
      (rows_of before_login.tables)
      (login
        (sql_session_store columns anything 5 event_id)
        tools
        drawn
        wrong_input
        before_login).1.tables
login-failed_example =
    login-failed columns anything 5 event_id tools drawn wrong_input before_login
      (sentinel invalid_credentials) fails

abbrev pub open_tables : Conn Tables
open_tables = record {
  tables = record no_tables {
    users = alice ∷ [];
    sessions =
        record {
          id = txt "s1";
          user_id = txt "u1";
          token_hash = txt "ht1";
          ip_address = none;
          user_agent = [];
          expires_at = 100;
        }
        ∷ [];
  };
  faults = [];
}

abbrev pub alice_principal : Principal
alice_principal = record {
  user_id = txt "u1";
  email = txt "a@b.c";
  display_name = txt "Alice";
  expires_at = 100;
}

pub is_valid :
    (validate (sql_session_store columns anything 5 event_id) tools 11 (txt "t1") open_tables).0
    ≡ ok alice_principal
unfolding validate ◌>>=◌ lift attempt sql_session_store exec trim_space find_active_session
    find_session
is_valid = refl

validate-IsAlive_example : IsAlive (txt "ht1") 0 open_tables.tables alice_principal
validate-IsAlive_example =
    validate-IsAlive columns anything 5 event_id tools 11 (txt "t1") open_tables alice_principal
      is_valid

abbrev logout_input : LogoutInput
logout_input = record { token = txt "t1"; ip_address = []; user_agent = [] }

logs_out :
    (logout (sql_session_store columns anything 5 event_id) tools logout_input open_tables).0
    ≡ ok tt
unfolding logout ◌>>=◌ lift attempt sql_session_store exec delete_session_by_token_hash
    transaction_unless record_audit record_event check_event trim_event write insert_event
logs_out = refl

logout-IsClosed_example :
    IsClosed anything 5 event_id columns tools
      (txt "t1")
      open_tables
      (logout (sql_session_store columns anything 5 event_id) tools logout_input open_tables).1
logout-IsClosed_example =
    logout-IsClosed anything 5 event_id columns tools logout_input open_tables tt refl logs_out
