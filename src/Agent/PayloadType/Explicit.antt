-- ===== src/Agent/PayloadType/Explicit.antt =====
-- What a payload type that `validatePayloadType` passes cannot have, at any depth
-- (internal/agent/actions.go).
use motekarindo_panel.Base.{
  ◌≡◌, ◌⊎◌, refl, Bool, true, false, ◌&&◌, ◌||◌, not, List, [], ◌∷◌, arith, inl, inr, and-eq-true,
  if◌then◌else◌,
}
use motekarindo_panel.Base.Text.{Text, txt, is_empty, contains}
use motekarindo_panel.Base.Error.{ok, refuse, sentinel, invalid_action}
use motekarindo_panel.Agent.PayloadType.{
  StructField, PayloadType, pointer, struct, slice, array, uint8, string, scalar, open_kind,
  StructFields, end, field, json_field_name, is_string_list, semantic_name,
  rejects_raw_command_field, is_uint8, passes, fields_pass, validate_payload_type,
}

-- The fields of a type at any depth, with their types: through pointers, elements and the fields that
-- JSON reads.
mutual
  pub data Reaches : PayloadType → StructField → PayloadType → Type 0 where
    by_pointer :
        {t : PayloadType} {f : StructField} {u : PayloadType}
        → Reaches t f u
        → Reaches (pointer t) f u
    by_slice :
        {t : PayloadType} {f : StructField} {u : PayloadType}
        → Reaches t f u
        → Reaches (slice t) f u
    by_array :
        {t : PayloadType} {f : StructField} {u : PayloadType}
        → Reaches t f u
        → Reaches (array t) f u
    by_struct :
        {fs : StructFields} {f : StructField} {u : PayloadType}
        → Among fs f u
        → Reaches (struct fs) f u

  pub data Among : StructFields → StructField → PayloadType → Type 0 where
    here :
        {f : StructField} {u : PayloadType} {fs : StructFields}
        → is_empty (json_field_name f) ≡ false
        → Among (field f u fs) f u
    inside :
        {g : StructField} {t : PayloadType} {fs : StructFields} {f : StructField} {u : PayloadType}
        → is_empty (json_field_name g) ≡ false
        → Reaches t f u
        → Among (field g t fs) f u
    later :
        {g : StructField} {t : PayloadType} {fs : StructFields} {f : StructField} {u : PayloadType}
        → Among fs f u
        → Among (field g t fs) f u

-- A field that is read by its own name, is not named after a shell or a script, and is a list of
-- strings if it is named after a command; its type is not one that leaves the schema open.
pub record IsExplicit (f : StructField) (u : PayloadType) : Type 0 where
  pub is_plain : (f.is_exported ≡ true) × (f.is_anonymous ≡ false)
  pub no_shell : contains (semantic_name f (json_field_name f)) (txt "shell") ≡ false
  pub no_script : contains (semantic_name f (json_field_name f)) (txt "script") ≡ false
  pub no_command :
      (contains (semantic_name f (json_field_name f)) (txt "command") ≡ false)
      ⊎ (is_string_list u ≡ true)
  pub is_closed : passes u ≡ true

accepted_names :
    (shell script command strings : Bool)
    → (if shell || script then true else if not command then false else not strings) ≡ false
    → (shell ≡ false) × (script ≡ false) × ((command ≡ false) ⊎ (strings ≡ true))
accepted_names true script command strings h = cc
accepted_names false true command strings h = cc
accepted_names false false false strings h = (refl, refl, inl refl)
accepted_names false false true true h = (refl, refl, inr refl)
accepted_names false false true false h = cc

IsExplicit-of :
    (f : StructField) (u : PayloadType)
    → f.is_exported ≡ true
    → f.is_anonymous ≡ false
    → rejects_raw_command_field f u (json_field_name f) ≡ false
    → passes u ≡ true
    → IsExplicit f u
unfolding rejects_raw_command_field
IsExplicit-of f u e a h p =
    let name = semantic_name f (json_field_name f) in
    let (shell, script, command) =
      accepted_names (contains name (txt "shell")) (contains name (txt "script"))
        (contains name (txt "command")) (is_string_list u) h in
    record {
      is_plain = (e, a);
      no_shell = shell;
      no_script = script;
      no_command = command;
      is_closed = p;
    }

-- What one field and the others have passed.
field_passed :
    (exported anonymous empty seen rejected passed rest skipped : Bool)
    → (if not exported || anonymous
        then false
        else if empty
        then skipped
        else not seen && (not rejected && (passed && rest)))
      ≡ true
    → empty ≡ false
    → (exported ≡ true) × (anonymous ≡ false) × (rejected ≡ false) × (passed ≡ true) × (rest ≡ true)
field_passed exported anonymous empty seen rejected passed rest skipped h k = ground (arith, h, k)

others_passed :
    (exported anonymous empty seen rejected passed rest skipped : Bool)
    → (if not exported || anonymous
        then false
        else if empty
        then skipped
        else not seen && (not rejected && (passed && rest)))
      ≡ true
    → (rest ≡ true) ⊎ (skipped ≡ true)
others_passed true false true seen rejected passed rest skipped h = inr h
others_passed true false false seen rejected passed rest skipped h = inl (ground (arith, h))
others_passed true true empty seen rejected passed rest skipped h = cc
others_passed false anonymous empty seen rejected passed rest skipped h = cc

mutual
  unfolding passes

  passes-IsExplicit :
      (t : PayloadType) {f : StructField} {u : PayloadType}
      → passes t ≡ true
      → Reaches t f u
      → IsExplicit f u
  passes-IsExplicit (pointer t) h (by_pointer r) = passes-IsExplicit t h r
  passes-IsExplicit (slice t) h (by_slice r) =
      passes-IsExplicit t (and-eq-true (not (is_uint8 t)) (passes t) h).1 r
  passes-IsExplicit (array t) h (by_array r) =
      passes-IsExplicit t (and-eq-true (not (is_uint8 t)) (passes t) h).1 r
  passes-IsExplicit (struct fs) h (by_struct r) = fields_pass-IsExplicit [] fs h r
  passes-IsExplicit uint8 h r = elim r [ ]
  passes-IsExplicit string h r = elim r [ ]
  passes-IsExplicit scalar h r = elim r [ ]
  passes-IsExplicit open_kind h r = elim r [ ]

  fields_pass-IsExplicit :
      (seen : List Text) (fs : StructFields) {f : StructField} {u : PayloadType}
      → fields_pass seen fs ≡ true
      → Among fs f u
      → IsExplicit f u
  fields_pass-IsExplicit seen end h r = elim r [ ]
  fields_pass-IsExplicit seen (field g t fs) h (here n) =
      let (e, a, r, p, _) =
        field_passed g.is_exported g.is_anonymous (is_empty (json_field_name g)) _ _ (passes t) _ _
          h n in
      IsExplicit-of g t e a r p
  fields_pass-IsExplicit seen (field g t fs) h (inside n r) =
      let (_, _, _, p, _) =
        field_passed g.is_exported g.is_anonymous (is_empty (json_field_name g)) _ _ (passes t) _ _
          h n in
      passes-IsExplicit t p r
  fields_pass-IsExplicit seen (field g t fs) h (later r) =
      elim (others_passed g.is_exported g.is_anonymous (is_empty (json_field_name g)) _ _ (passes t)
        _ _ h) [
          | inl k ↦ fields_pass-IsExplicit (json_field_name g ∷ seen) fs k r
          | inr k ↦ fields_pass-IsExplicit seen fs k r
        ]

passed_of : (b : Bool) (u : Unit {0}) → refuse (not b) (sentinel invalid_action) ≡ ok u → b ≡ true
passed_of true u h = refl
passed_of false u h = ground arith

-- A payload type that `validatePayloadType` passes is a struct, and each of its fields that JSON
-- reads, at any depth, is exported, not embedded, not named after a shell or a script, a list of
-- strings if named after a command, and of a type that passes too, so of no map or interface.
pub validate_payload_type-IsExplicit :
    (t : PayloadType) (u : Unit {0})
    → validate_payload_type t ≡ ok u
    → (fs : StructFields) × (t ≡ struct fs)
      × ((f : StructField) (v : PayloadType) → Reaches t f v → IsExplicit f v)
unfolding validate_payload_type
validate_payload_type-IsExplicit (struct fs) u h =
    (fs, refl, λ f v r. passes-IsExplicit (struct fs) (passed_of (fields_pass [] fs) u h) r)
validate_payload_type-IsExplicit (pointer t) u h = ground (arith, h)
validate_payload_type-IsExplicit (slice t) u h = ground (arith, h)
validate_payload_type-IsExplicit (array t) u h = ground (arith, h)
validate_payload_type-IsExplicit uint8 u h = ground (arith, h)
validate_payload_type-IsExplicit string u h = ground (arith, h)
validate_payload_type-IsExplicit scalar u h = ground (arith, h)
validate_payload_type-IsExplicit open_kind u h = ground (arith, h)
