-- ===== src/Agent/Tokens/Unique.antt =====
-- `rejectDuplicateJSONKeys` refuses exactly the documents with an object that has a key twice
-- (internal/agent/actions.go).
use motekarindo_panel.Base.{
  ◌≡◌, refl, ap, ◌∙◌, ℕ, zero, suc, ◌≤◌, Bool, true, false, ◌&&◌, not, List, [], ◌∷◌, any, all,
  length, arith, inl, inr, Bool-cases, if◌then◌else◌,
}
use motekarindo_panel.Base.Text.{Text, same}
use motekarindo_panel.Base.Error.{sentinel, invalid_payload, Result, ok, err, refuse, ◌>>=◌}
use motekarindo_panel.Json.{
  Value, null, boolean, number, string, array, object, Items, nil, cons, Fields, end, field,
}
use motekarindo_panel.Agent.Tokens.{
  Decoder, open_object, close_object, open_array, close_array, word, scalar, broken, read_value,
  read_members, read_elements, reject_duplicate_json_keys, more, at_end,
}
use motekarindo_panel.Agent.Tokens.Document.{
  tokens, tokens_of_items, tokens_of_fields, keys, is_distinct, has_unique_keys, items_unique,
  fields_unique, count, count_items, count_fields, length-tokens,
}

-- No key of the second list is in the first.
are_new : List Text → List Text → Bool
are_new seen ks = all (λ k. not (any (λ s. same s k) seen)) ks

abbrev pub verdict : Bool → Decoder → Result Decoder
verdict true ts = ok ts
verdict false ts = err (sentinel invalid_payload)

are_new-cons :
    (k : Text) (seen ks : List Text)
    → are_new (k ∷ seen) ks ≡ (not (any (same k) ks) && are_new seen ks)
unfolding are_new
are_new-cons k seen [] = refl
are_new-cons k seen (j ∷ ks) = ground (arith, are_new-cons k seen ks)

more-tokens : (v : Value) (ts : Decoder) → more (tokens v ts) ≡ true
unfolding tokens
more-tokens null ts = refl
more-tokens (boolean b) ts = refl
more-tokens (number n) ts = refl
more-tokens (string s) ts = refl
more-tokens (array xs) ts = refl
more-tokens (object fs) ts = refl

count-pos : (v : Value) → 1 ≤ count v
unfolding count
count-pos (array xs) = omega arith
count-pos (object fs) = omega arith
count-pos null = omega arith
count-pos (boolean b) = omega arith
count-pos (number n) = omega arith
count-pos (string s) = omega arith

count_items-pos : (xs : Items) → 1 ≤ count_items xs
unfolding count
count_items-pos nil = omega arith
count_items-pos (cons v xs) = omega (arith, count-pos v)

elements_step :
    (b : Bool) (xs : Items) (fuel : ℕ) (ts : Decoder)
    → read_elements fuel (tokens_of_items xs (close_array ∷ ts)) ≡ verdict (items_unique xs) ts
    → (verdict b (tokens_of_items xs (close_array ∷ ts)) >>= λ rest. read_elements fuel rest)
      ≡ verdict (b && items_unique xs) ts
elements_step true xs fuel ts h = h
elements_step false xs fuel ts h = refl

members_step :
    (b : Bool) (fuel : ℕ) (seen : List Text) (left : Decoder) (c : Bool) (ts : Decoder)
    → read_members fuel seen left ≡ verdict c ts
    → (verdict b left >>= λ rest. read_members fuel seen rest) ≡ verdict (b && c) ts
members_step true fuel seen left c ts h = h
members_step false fuel seen left c ts h = refl

ended : (b : Bool) → (verdict b [] >>= at_end) ≡ refuse (not b) (sentinel invalid_payload)
ended true = refl
ended false = refl

refused_too :
    (s a r : Bool) (ts : Decoder)
    → s ≡ true
    → err (sentinel invalid_payload) ≡ verdict ((not s && a) && r) ts
refused_too true a r ts h = refl
refused_too false a r ts h = cc

together :
    (s n a d u f x : Bool)
    → s ≡ false
    → x ≡ (not n && a)
    → (u && (x && (d && f))) ≡ ((not s && a) && ((not n && d) && (u && f)))
together s n a d u f x h k = ground (arith, h, k)

are_new-nil : (ks : List Text) → are_new [] ks ≡ true
unfolding are_new
are_new-nil [] = refl
are_new-nil (k ∷ ks) = are_new-nil ks

-- One round of each loop, where there is more.
elements_round :
    (fuel : ℕ) (ts : Decoder)
    → more ts ≡ true
    → read_elements (suc fuel) ts ≡ (read_value fuel ts >>= λ rest. read_elements fuel rest)
unfolding read_value
elements_round fuel [] h = cc
elements_round fuel (close_object ∷ ts) h = cc
elements_round fuel (close_array ∷ ts) h = cc
elements_round fuel (open_object ∷ ts) h = refl
elements_round fuel (open_array ∷ ts) h = refl
elements_round fuel (word s ∷ ts) h = refl
elements_round fuel (scalar ∷ ts) h = refl
elements_round fuel (broken ∷ ts) h = refl

members_round :
    (fuel : ℕ) (seen : List Text) (k : Text) (ts : Decoder) (b : Bool) (left : Decoder)
    → any (λ s. same s k) seen ≡ false
    → read_value fuel ts ≡ verdict b left
    → read_members (suc fuel) seen (word k ∷ ts)
      ≡ (verdict b left >>= λ rest. read_members fuel (k ∷ seen) rest)
unfolding read_value
members_round fuel seen k ts b left h e =
    ap (λ r. (if r then err (sentinel invalid_payload) else ok (k, ts)) >>= after) h
    ∙ ap (λ r. r >>= next) e
  where
    next : Decoder → Result Decoder
    next rest = read_members fuel (k ∷ seen) rest

    after : Text × Decoder → Result Decoder
    after entry = read_value fuel entry.1 >>= λ rest. read_members fuel (entry.0 ∷ seen) rest

members_refused :
    (fuel : ℕ) (seen : List Text) (k : Text) (ts : Decoder)
    → any (λ s. same s k) seen ≡ true
    → read_members (suc fuel) seen (word k ∷ ts) ≡ err (sentinel invalid_payload)
unfolding read_value
members_refused fuel seen k ts h =
    ap (λ r. (if r then err (sentinel invalid_payload) else ok (k, ts)) >>= after) h
  where
    after : Text × Decoder → Result Decoder
    after entry = read_value fuel entry.1 >>= λ rest. read_members fuel (entry.0 ∷ seen) rest

mutual
  unfolding tokens count has_unique_keys read_value are_new

  read_value-tokens :
      (v : Value) (fuel : ℕ) (ts : Decoder)
      → count v ≤ fuel
      → read_value fuel (tokens v ts) ≡ verdict (has_unique_keys v) ts
  read_value-tokens v zero ts h = absurd (ground (arith, count-pos v, h))
  read_value-tokens null (suc fuel) ts h = refl
  read_value-tokens (boolean b) (suc fuel) ts h = refl
  read_value-tokens (number n) (suc fuel) ts h = refl
  read_value-tokens (string s) (suc fuel) ts h = refl
  read_value-tokens (array xs) (suc fuel) ts h = read_elements-tokens xs fuel ts (omega (arith, h))
  read_value-tokens (object fs) (suc fuel) ts h =
      read_members-tokens fs fuel [] ts (omega (arith, h))
      ∙ ap (λ b. verdict (b && (is_distinct (keys fs) && fields_unique fs)) ts)
          (are_new-nil (keys fs))

  read_elements-tokens :
      (xs : Items) (fuel : ℕ) (ts : Decoder)
      → count_items xs ≤ fuel
      → read_elements fuel (tokens_of_items xs (close_array ∷ ts)) ≡ verdict (items_unique xs) ts
  read_elements-tokens nil zero ts h = absurd (ground (arith, h))
  read_elements-tokens nil (suc fuel) ts h = refl
  read_elements-tokens (cons v xs) zero ts h = absurd (ground (arith, count-pos v, h))
  read_elements-tokens (cons v xs) (suc fuel) ts h =
      let left = tokens_of_items xs (close_array ∷ ts) in
      elements_round fuel (tokens v left) (more-tokens v left)
      ∙ ap (λ r. r >>= λ rest. read_elements fuel rest)
          (read_value-tokens v fuel left (omega (arith, h, count_items-pos xs)))
      ∙ (elements_step (has_unique_keys v) xs fuel ts
          (read_elements-tokens xs fuel ts (omega (arith, h, count-pos v))))

  read_members-tokens :
      (fs : Fields) (fuel : ℕ) (seen : List Text) (ts : Decoder)
      → count_fields fs ≤ fuel
      → read_members fuel seen (tokens_of_fields fs (close_object ∷ ts))
        ≡ verdict (are_new seen (keys fs) && (is_distinct (keys fs) && fields_unique fs)) ts
  read_members-tokens end zero seen ts h = absurd (ground (arith, h))
  read_members-tokens end (suc fuel) seen ts h = refl
  read_members-tokens (field k v fs) zero seen ts h = absurd (ground (arith, h))
  read_members-tokens (field k v fs) (suc fuel) seen ts h =
      let left = tokens_of_fields fs (close_object ∷ ts) in
      let rest = read_members-tokens fs fuel (k ∷ seen) ts (omega (arith, h, count-pos v)) in
      let first = read_value-tokens v fuel left (omega (arith, h)) in
      elim (Bool-cases (any (λ s. same s k) seen)) [
        | inl e ↦
            members_refused fuel seen k (tokens v left) e
            ∙ refused_too (any (λ s. same s k) seen) _ _ ts e
        | inr e ↦
            members_round fuel seen k (tokens v left) (has_unique_keys v) left e first
            ∙ members_step (has_unique_keys v) fuel (k ∷ seen) left _ ts rest
            ∙ ap (λ b. verdict b ts)
                (together (any (λ s. same s k) seen) (any (same k) (keys fs))
                  (are_new seen (keys fs)) (is_distinct (keys fs)) (has_unique_keys v)
                  (fields_unique fs) (are_new (k ∷ seen) (keys fs)) e
                  (are_new-cons k seen (keys fs)))
      ]

-- The documents that `rejectDuplicateJSONKeys` passes are those of the values in which no object has
-- a key twice; every other document's error is ErrInvalidPayload.
pub reject_duplicate_json_keys-tokens :
    (v : Value)
    → reject_duplicate_json_keys (tokens v [])
      ≡ refuse (not (has_unique_keys v)) (sentinel invalid_payload)
unfolding reject_duplicate_json_keys
reject_duplicate_json_keys-tokens v =
    ap (λ r. r >>= at_end)
      (read_value-tokens v (suc (length (tokens v []))) [] (omega (arith, length-tokens v [])))
    ∙ ended (has_unique_keys v)
