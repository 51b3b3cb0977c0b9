-- ===== src/Agent/Tokens.antt =====
-- `rejectDuplicateJSONKeys` of internal/agent/actions.go over the tokens of json.Decoder.
pub mod Document
pub mod Unique
use motekarindo_panel.Base.{
  ℕ, zero, suc, Bool, true, false, not, List, [], ◌∷◌, any, length, if◌then◌else◌,
}
use motekarindo_panel.Base.Text.{Text, txt, same, is_empty}
use motekarindo_panel.Base.Error.{
  Error, plain, sentinel, invalid_payload, Result, ok, err, refuse, ◌>>=◌, ◌>>◌,
}

-- What `Token` returns: a delimiter, a string, another scalar, or an error that the syntax of the
-- document gives. The end of the list is io.EOF.
pub data Token : Type 0 where
  open_object close_object open_array close_array : Token
  word : Text → Token
  scalar : Token
  broken : Token

-- A decoder is what it has left.
abbrev pub Decoder : Type 0
Decoder = List Token

-- decoder.More()
abbrev pub more : Decoder → Bool
more [] = false
more (close_object ∷ ts) = false
more (close_array ∷ ts) = false
more (_ ∷ ts) = true

-- decoder.Token(), with the value ignored
abbrev pub skip : Decoder → Result Decoder
skip [] = err (plain (txt "EOF"))
skip (broken ∷ ts) = err (plain (txt "syntax error"))
skip (_ ∷ ts) = ok ts

-- The key of a member, which must be a string that is new, and what follows it.
abbrev pub new_key : List Text → Decoder → Result (Text × Decoder)
new_key seen (word k ∷ ts) =
    if any (λ s. same s k) seen then err (sentinel invalid_payload) else ok (k, ts)
new_key seen (broken ∷ ts) = err (plain (txt "syntax error"))
new_key seen [] = err (plain (txt "EOF"))
new_key seen (_ ∷ ts) = err (sentinel invalid_payload)

abbrev pub out_of_fuel : Error
out_of_fuel = plain (txt "out of fuel")

-- `readUniqueJSONValue`, with the decoder that it leaves. Fuel above the number of tokens is enough.
unfoldable mutual
  unfolding same

  pub read_value : ℕ → Decoder → Result Decoder
  read_value zero ts = err out_of_fuel
  read_value (suc fuel) [] = err (plain (txt "EOF"))
  read_value (suc fuel) (broken ∷ ts) = err (plain (txt "syntax error"))
  read_value (suc fuel) (word s ∷ ts) = ok ts
  read_value (suc fuel) (scalar ∷ ts) = ok ts
  read_value (suc fuel) (open_object ∷ ts) = read_members fuel [] ts
  read_value (suc fuel) (open_array ∷ ts) = read_elements fuel ts
  read_value (suc fuel) (close_object ∷ ts) = err (sentinel invalid_payload)
  read_value (suc fuel) (close_array ∷ ts) = err (sentinel invalid_payload)

  pub read_members : ℕ → List Text → Decoder → Result Decoder
  read_members zero seen ts = err out_of_fuel
  read_members (suc fuel) seen ts = elim (more ts) [
    | false ↦ skip ts
    | true ↦ new_key seen ts >>= λ entry.
        read_value fuel entry.1 >>= λ rest. read_members fuel (entry.0 ∷ seen) rest
  ]

  pub read_elements : ℕ → Decoder → Result Decoder
  read_elements zero ts = err out_of_fuel
  read_elements (suc fuel) ts = elim (more ts) [
    | false ↦ skip ts
    | true ↦ read_value fuel ts >>= λ rest. read_elements fuel rest
  ]

abbrev pub at_end : Decoder → Result (Unit {0})
at_end [] = ok tt
at_end (t ∷ ts) = err (sentinel invalid_payload)

unfoldable pub reject_duplicate_json_keys : Decoder → Result (Unit {0})
unfolding read_value
reject_duplicate_json_keys ts = read_value (suc (length ts)) ts >>= at_end
