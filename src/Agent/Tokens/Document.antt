-- ===== src/Agent/Tokens/Document.antt =====
-- The tokens of a JSON document, for `rejectDuplicateJSONKeys` of internal/agent/actions.go.
use motekarindo_panel.Base.{
  ◌≡◌, ℕ, suc, ◌+◌, Bool, true, ◌&&◌, not, List, [], ◌∷◌, any, length, arith,
}
use motekarindo_panel.Base.Text.{Text, same}
use motekarindo_panel.Json.{
  Value, null, boolean, number, string, array, object, Items, nil, cons, Fields, end, field,
}
use motekarindo_panel.Agent.Tokens.{
  Decoder, open_object, close_object, open_array, close_array, word, scalar,
}

-- The tokens of a value in front of others.
unfoldable mutual
  pub tokens : Value → Decoder → Decoder
  tokens null ts = scalar ∷ ts
  tokens (boolean b) ts = scalar ∷ ts
  tokens (number n) ts = scalar ∷ ts
  tokens (string s) ts = word s ∷ ts
  tokens (array xs) ts = open_array ∷ tokens_of_items xs (close_array ∷ ts)
  tokens (object fs) ts = open_object ∷ tokens_of_fields fs (close_object ∷ ts)

  pub tokens_of_items : Items → Decoder → Decoder
  tokens_of_items nil ts = ts
  tokens_of_items (cons v xs) ts = tokens v (tokens_of_items xs ts)

  pub tokens_of_fields : Fields → Decoder → Decoder
  tokens_of_fields end ts = ts
  tokens_of_fields (field k v fs) ts = word k ∷ tokens v (tokens_of_fields fs ts)

unfoldable pub keys : Fields → List Text
keys end = []
keys (field k v fs) = k ∷ keys fs

unfoldable pub is_distinct : List Text → Bool
is_distinct [] = true
is_distinct (k ∷ ks) = not (any (same k) ks) && is_distinct ks

-- No object in the value has a key twice.
unfoldable mutual
  unfolding keys is_distinct

  pub has_unique_keys : Value → Bool
  has_unique_keys (array xs) = items_unique xs
  has_unique_keys (object fs) = is_distinct (keys fs) && fields_unique fs
  has_unique_keys _ = true

  pub items_unique : Items → Bool
  items_unique nil = true
  items_unique (cons v xs) = has_unique_keys v && items_unique xs

  pub fields_unique : Fields → Bool
  fields_unique end = true
  fields_unique (field k v fs) = has_unique_keys v && fields_unique fs

-- The number of tokens, with the closing delimiter.
unfoldable mutual
  pub count : Value → ℕ
  count (array xs) = suc (count_items xs)
  count (object fs) = suc (count_fields fs)
  count _ = 1

  pub count_items : Items → ℕ
  count_items nil = 1
  count_items (cons v xs) = count v + count_items xs

  pub count_fields : Fields → ℕ
  count_fields end = 1
  count_fields (field k v fs) = suc (count v + count_fields fs)

mutual
  unfolding tokens count

  pub length-tokens : (v : Value) (ts : Decoder) → length (tokens v ts) ≡ count v + length ts
  length-tokens null ts = omega arith
  length-tokens (boolean b) ts = omega arith
  length-tokens (number n) ts = omega arith
  length-tokens (string s) ts = omega arith
  length-tokens (array xs) ts = omega (arith, length-tokens_of_items xs ts)
  length-tokens (object fs) ts = omega (arith, length-tokens_of_fields fs ts)

  pub length-tokens_of_items :
      (xs : Items) (ts : Decoder)
      → length (tokens_of_items xs (close_array ∷ ts)) ≡ count_items xs + length ts
  length-tokens_of_items nil ts = omega arith
  length-tokens_of_items (cons v xs) ts =
      omega (
        arith,
        length-tokens v (tokens_of_items xs (close_array ∷ ts)),
        length-tokens_of_items xs ts,
      )

  pub length-tokens_of_fields :
      (fs : Fields) (ts : Decoder)
      → length (tokens_of_fields fs (close_object ∷ ts)) ≡ count_fields fs + length ts
  length-tokens_of_fields end ts = omega arith
  length-tokens_of_fields (field k v fs) ts = omega (
    arith,
    length-tokens v (tokens_of_fields fs (close_object ∷ ts)),
    length-tokens_of_fields fs ts,
  )
