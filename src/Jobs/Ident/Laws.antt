-- ===== src/Jobs/Ident/Laws.antt =====
-- `newUUID` of internal/jobs/jobs.go against `validJobID` of the same file.
use motekarindo_panel.Base.{
  ℕ, zero, suc, ◌+◌, ◌*◌, ◌/◌, ◌%◌, ◌<◌, ◌≡◌, refl, subst, Bool, true, ◌&&◌, not, some, [], ◌∷◌,
  ◌++◌, append-nil, get_elem?, arith,
}
use motekarindo_panel.Base.Text.{Text, rune_len, byte_len}
use motekarindo_panel.Base.Error.{ok, ok-injective}
use motekarindo_panel.Jobs.Ident.{
  hex_digit, hex_range, stamp, format_uuid, new_uuid, is_hex, is_dash_place, valid_from,
  valid_job_id,
}

is_hex-hex_digit : (d : ℕ) → d < 16 → is_hex (hex_digit d) ≡ true
unfolding is_hex hex_digit
is_hex-hex_digit d h = ground arith

rune_len-hex_digit : (d : ℕ) → d < 16 → rune_len (hex_digit d) ≡ 1
unfolding rune_len hex_digit
rune_len-hex_digit d h = ground arith

-- No dash belongs at the next places, two for each of so many bytes.
abbrev clear_pairs : ℕ → ℕ → Bool
clear_pairs j zero = true
clear_pairs j (suc n) =
    not (is_dash_place j) && (not (is_dash_place (j + 1)) && clear_pairs (j + 1 + 1) n)

abbrev after_pairs : ℕ → ℕ → ℕ
after_pairs j zero = j
after_pairs j (suc n) = after_pairs (j + 1 + 1) n

valid_from-digit :
    (j d : ℕ) (s : Text)
    → d < 16
    → not (is_dash_place j) ≡ true
    → valid_from (j + 1) s ≡ true
    → valid_from j (hex_digit d ∷ s) ≡ true
unfolding valid_from is_dash_place
valid_from-digit j d s h p q = ground (arith, is_hex-hex_digit d)

valid_from-dash :
    (j : ℕ) (s : Text)
    → is_dash_place j ≡ true
    → valid_from (j + 1) s ≡ true
    → valid_from j (b'-' ∷ s) ≡ true
unfolding valid_from
valid_from-dash j s h p = rw h p

valid_from-nil : (j : ℕ) → valid_from j [] ≡ true
unfolding valid_from
valid_from-nil j = refl

byte_len-dash : (s : Text) → byte_len (b'-' ∷ s) ≡ 1 + byte_len s
unfolding byte_len
byte_len-dash s = refl

byte_len-nil : byte_len [] ≡ 0
unfolding byte_len
byte_len-nil = refl

module _ (b : ℕ → ℕ) (is_byte : (i : ℕ) → b i < 256) where
  valid_from-hex_range :
      (i j n : ℕ) (s : Text)
      → clear_pairs j n ≡ true
      → valid_from (after_pairs j n) s ≡ true
      → valid_from j (hex_range b i n ++ s) ≡ true
  unfolding hex_range
  valid_from-hex_range i j zero s p q = q
  valid_from-hex_range i j (suc n) s p q =
      valid_from-digit j (b i / 16) _ (omega (arith, is_byte i)) (ground arith) (
        valid_from-digit (j + 1) (b i % 16) _ (omega arith) (ground arith)
          (valid_from-hex_range (i + 1) (j + 1 + 1) n s (ground arith) q))

  byte_len-hex_range : (i n : ℕ) (s : Text) → byte_len (hex_range b i n ++ s) ≡ 2 * n + byte_len s
  unfolding hex_range byte_len
  byte_len-hex_range i zero s = omega arith
  byte_len-hex_range i (suc n) s = omega (
    arith,
    is_byte i,
    rune_len-hex_digit (b i / 16) (omega (arith, is_byte i)),
    rune_len-hex_digit (b i % 16) (omega arith),
    byte_len-hex_range (i + 1) n s,
  )

  valid_from-format_uuid : valid_from 0 (format_uuid b) ≡ true
  unfolding format_uuid is_dash_place
  valid_from-format_uuid = valid_from-hex_range 0 0 4 _ refl (
      valid_from-dash 8 _ refl (
        valid_from-hex_range 4 9 2 _ refl (
          valid_from-dash 13 _ refl (
            valid_from-hex_range 6 14 2 _ refl (
              valid_from-dash 18 _ refl (
                valid_from-hex_range 8 19 2 _ refl (
                  valid_from-dash 23 _ refl (
                    rw (← append-nil (hex_range b 10 6))
                      (valid_from-hex_range 10 24 6 [] refl (valid_from-nil 36))))))))))

  byte_len-format_uuid : byte_len (format_uuid b) ≡ 36
  unfolding format_uuid
  byte_len-format_uuid =
      rw (← append-nil (hex_range b 10 6)) (simp (byte_len-hex_range, byte_len-dash, byte_len-nil))

  valid_job_id-format_uuid : valid_job_id (format_uuid b) ≡ true
  unfolding valid_job_id
  valid_job_id-format_uuid = rw (byte_len-format_uuid, valid_from-format_uuid)

abbrev Accepted : Text → Type 0
Accepted id = (valid_job_id id ≡ true) × (get_elem? id 14 ≡ some b'4')

version-format_uuid : (b : ℕ → ℕ) → get_elem? (format_uuid (stamp b)) 14 ≡ some b'4'
unfolding format_uuid hex_range hex_digit
version-format_uuid b = ground arith

stamp-lt : (b : ℕ → ℕ) → ((i : ℕ) → b i < 256) → (i : ℕ) → stamp b i < 256
stamp-lt b h i = ground (arith, h i)

-- Whatever 16 bytes `rand.Read` gives, the id made of them is one that `validJobID` accepts, and
-- its 15th character is the version, 4.
pub valid_job_id-new_uuid :
    (b : ℕ → ℕ) (id : Text)
    → ((i : ℕ) → b i < 256)
    → new_uuid (ok b) ≡ ok id
    → (valid_job_id id ≡ true) × (get_elem? id 14 ≡ some b'4')
unfolding new_uuid
valid_job_id-new_uuid b id is_byte h =
    subst Accepted (ok-injective h)
      (valid_job_id-format_uuid (stamp b) (stamp-lt b is_byte), version-format_uuid b)
