-- ===== src/Agent/PayloadType.antt =====
-- The Go types of action payloads, as package reflect describes them, with `validatePayloadType`,
-- `rejectsRawCommandField`, `jsonFieldName` and `validateJSONFieldNames` of internal/agent/actions.go.
pub mod Explicit
use motekarindo_panel.Base.{
  Bool, true, false, ◌&&◌, ◌||◌, not, Option, none, some, List, [], ◌∷◌, ◌++◌, any, all, ◌==◌,
  if◌then◌else◌,
}
use motekarindo_panel.Base.Text.{Text, txt, same, is_empty, trim_space, to_lower, contains}
use motekarindo_panel.Base.Error.{
  Error, sentinel, invalid_action, Result, ok, err, refuse, ◌>>=◌, ◌>>◌,
}

-- A field of a struct, without its type; `tag` is the value of the key json.
pub record StructField : Type 0 where
  pub name : Text
  pub tag : Text
  pub is_exported : Bool
  pub is_anonymous : Bool

-- A type by its kind. `scalar` is a Boolean, a number other than uint8, or the like; `open_kind` is a
-- map, an interface, a function, a channel or an unsafe pointer. A type is a finite tree.
mutual
  pub data PayloadType : Type 0 where
    pointer : PayloadType → PayloadType
    struct : StructFields → PayloadType
    slice : PayloadType → PayloadType
    array : PayloadType → PayloadType
    uint8 string scalar open_kind : PayloadType

  pub data StructFields : Type 0 where
    end : StructFields
    field : StructField → PayloadType → StructFields → StructFields

-- strings.Cut(tag, ",")
unfoldable pub before_comma : Text → Text
before_comma [] = []
before_comma (c ∷ s) = let rest = before_comma s in if c == b',' then [] else c ∷ rest

unfoldable pub json_field_name : StructField → Text
unfolding before_comma same
json_field_name f =
    let name = before_comma f.tag in
    if same name (txt "-") then [] else if is_empty name then f.name else name

abbrev pub is_string : PayloadType → Bool
is_string string = true
is_string _ = false

-- The type under its pointers is a slice of strings.
unfoldable pub is_string_list : PayloadType → Bool
is_string_list (pointer t) = is_string_list t
is_string_list (slice t) = is_string t
is_string_list _ = false

unfoldable pub semantic_name : StructField → Text → Text
unfolding to_lower
semantic_name f json_name = to_lower (f.name ++ (b' ' ∷ json_name))

unfoldable pub rejects_raw_command_field : StructField → PayloadType → Text → Bool
unfolding semantic_name contains is_string_list
rejects_raw_command_field f t json_name =
    let name = semantic_name f json_name in
    if contains name (txt "shell") || contains name (txt "script")
    then true
    else if not (contains name (txt "command"))
    then false
    else not (is_string_list t)

abbrev pub is_uint8 : PayloadType → Bool
is_uint8 uint8 = true
is_uint8 _ = false

-- Whether a type passes below the root, and the fields of a struct given the names seen.
unfoldable mutual
  unfolding json_field_name rejects_raw_command_field same

  pub passes : PayloadType → Bool
  passes (pointer t) = passes t
  passes (struct fs) = fields_pass [] fs
  passes (slice t) = not (is_uint8 t) && passes t
  passes (array t) = not (is_uint8 t) && passes t
  passes open_kind = false
  passes _ = true

  pub fields_pass : List Text → StructFields → Bool
  fields_pass seen end = true
  fields_pass seen (field f t fs) =
      let name = json_field_name f in
      let rest = fields_pass (name ∷ seen) fs in
      let skipped = fields_pass seen fs in
      if not f.is_exported || f.is_anonymous
      then false
      else if is_empty name
      then skipped
      else not (any (λ s. same s name) seen)
        && (not (rejects_raw_command_field f t name) && (passes t && rest))

-- `validatePayloadType` with its root: a struct, not behind a pointer.
unfoldable pub validate_payload_type : PayloadType → Result (Unit {0})
unfolding passes
validate_payload_type (struct fs) = refuse (not (fields_pass [] fs)) (sentinel invalid_action)
validate_payload_type t = err (sentinel invalid_action)

-- json.Unmarshal of a document into a map[string]json.RawMessage and a []json.RawMessage; `none` is an
-- error.
pub record Reader : Type 0 where
  pub members : Text → Option (List (Text × Text))
  pub elements : Text → Option (List Text)

abbrev pub is_null : Text → Bool
is_null raw = same (trim_space raw) (txt "null")

unfoldable pub is_field : Text → StructFields → Bool
unfolding json_field_name same
is_field name end = false
is_field name (field f t fs) = same (json_field_name f) name || is_field name fs

unfoldable pub all_of : {A : Type 0} → Option (List A) → (A → Bool) → Bool
all_of none p = false
all_of (some xs) p = all p xs

-- `validateJSONFieldNames`: whether it returns no error. The map `fields` has, for a name that is not
-- empty, the type of the last field of the name.
module _ (reader : Reader) where
  unfoldable mutual
    unfolding is_field all_of same trim_space json_field_name

    pub field_names_match : PayloadType → Text → Bool
    field_names_match (pointer t) raw = is_null raw || field_names_match t raw
    field_names_match (struct fs) raw =
        not (is_null raw) && all_of (reader.members raw) (λ m. member_matches fs m.0 m.1)
    field_names_match (slice t) raw =
        is_null raw || all_of (reader.elements raw) (λ e. field_names_match t e)
    field_names_match (array t) raw =
        is_null raw || all_of (reader.elements raw) (λ e. field_names_match t e)
    field_names_match _ raw = true

    pub member_matches : StructFields → Text → Text → Bool
    member_matches end name value = false
    member_matches (field f t fs) name value =
        let later = member_matches fs name value in
        let here = field_names_match t value in
        if not (is_empty name) && is_field name fs
        then later
        else not (is_empty name) && (same (json_field_name f) name && here)
