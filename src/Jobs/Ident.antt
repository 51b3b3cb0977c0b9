-- ===== src/Jobs/Ident.antt =====
-- `newUUID` and `validJobID` of internal/jobs/jobs.go.
pub mod Laws
use motekarindo_panel.Base.{
  ℕ, zero, suc, ◌+◌, ◌-◌, ◌/◌, ◌%◌, Bool, true, ◌&&◌, ◌||◌, [], ◌∷◌, ◌++◌, ltb, leb, ◌==◌,
  if◌then◌else◌,
}
use motekarindo_panel.Base.Text.{Text, byte_len}
use motekarindo_panel.Base.Error.{Result, ok, err}

unfoldable pub hex_digit : ℕ → ℕ
hex_digit d = if ltb d 10 then b'0' + d else b'a' + (d - 10)

-- %02x of each byte of b[i : i + n]
unfoldable pub hex_range : (ℕ → ℕ) → ℕ → ℕ → Text
unfolding hex_digit
hex_range b i zero = []
hex_range b i (suc n) = hex_digit (b i / 16) ∷ hex_digit (b i % 16) ∷ hex_range b (i + 1) n

-- `(x & 0x0f) | 0x40` and `(x & 0x3f) | 0x80` on a byte
abbrev pub stamp : (ℕ → ℕ) → ℕ → ℕ
stamp b i = if i == 6 then b i % 16 + 0x40 else if i == 8 then b i % 64 + 0x80 else b i

unfoldable pub format_uuid : (ℕ → ℕ) → Text
format_uuid b =
    hex_range b 0 4
    ++ (b'-' ∷ hex_range b 4 2
        ++ (b'-' ∷ hex_range b 6 2 ++ (b'-' ∷ hex_range b 8 2 ++ (b'-' ∷ hex_range b 10 6))))

-- The argument is what `rand.Read` puts into the 16 bytes, or its error.
unfoldable pub new_uuid : Result (ℕ → ℕ) → Result Text
unfolding format_uuid hex_range
new_uuid (err e) = err e
new_uuid (ok b) = ok (format_uuid (stamp b))

unfoldable pub is_hex : ℕ → Bool
is_hex c = (leb b'0' c && leb c b'9') || (leb b'a' c && leb c b'f') || (leb b'A' c && leb c b'F')

unfoldable pub is_dash_place : ℕ → Bool
is_dash_place index = (index == 8) || (index == 13) || (index == 18) || (index == 23)

unfoldable pub valid_from : ℕ → Text → Bool
unfolding is_hex is_dash_place
valid_from index [] = true
valid_from index (value ∷ id) =
    (if is_dash_place index then value == b'-' else is_hex value) && valid_from (index + 1) id

unfoldable pub valid_job_id : Text → Bool
unfolding byte_len valid_from
valid_job_id id = (byte_len id == 36) && valid_from 0 id
