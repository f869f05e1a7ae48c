-- ===== src/OpenApi/Schema.antt =====
-- The types of k8s.io/kube-openapi that pkg/generated/openapi/zz_generated.openapi.go fills, with
-- the fields that it sets. Descriptions are left out. The functions return data, so a call of a
-- library's function in it is written down and not run: the result of `ref` on a model name, the
-- name of a Go type's model, and what a Go type says of its own schema.
use Prim.Native.String.{String}
use text.Mathlib.Text.{◌==◌}
use text.Mathlib.TextEquality.{eq_iff}
use simple_api_server.Prelude.{
  ℕ, ◌≡◌, ap, ◌↔◌, Bool, true, false, List, [], ◌∷◌, ◌++◌, Option, none,
}

-- A literal name, or `T{}.OpenAPIModelName()` for the Go type T.
pub data ModelName : Type 0 where
  declared : String → ModelName
  model_of : String → ModelName

pub data Types : Type 0 where
  types : List String → Types
  -- T{}.OpenAPISchemaType()
  types_of : String → Types

pub data Format : Type 0 where
  format : String → Format
  -- T{}.OpenAPISchemaFormat()
  format_of : String → Format

pub data Default : Type 0 where
  no_default : Default
  default_text : String → Default
  default_number : ℕ → Default
  default_bool : Bool → Default
  -- map[string]interface{}{}
  default_empty : Default

pub data Extension : Type 0 where
  extension_text : String → Extension
  extension_list : List String → Extension

-- spec.SchemaProps and spec.VendorExtensible, but for the parts that hold schemas.
pub record Props : Type 0 where
  pub schema_type : Types
  pub schema_format : Format
  pub default_value : Default
  pub required : List String
  pub extensions : List (String × Extension)
  -- GenerateOpenAPIV3OneOfSchema(T{}.OpenAPIV3OneOfTypes())
  pub one_of : Option String

-- The zero value.
abbrev pub plain : Props
plain = record {
  schema_type = types [];
  schema_format = format "";
  default_value = Default.no_default;
  required = [];
  extensions = [];
  one_of = none;
}

infixr 4 ◌⨾◌
mutual
  pub data Schema : Type 0 where
    schema : Props → Content → Schema

  -- The part that holds schemas: none, Ref, Items, AdditionalProperties or Properties.
  pub data Content : Type 0 where
    leaf : Content
    reference : ModelName → Content
    items : Schema → Content
    additional : Schema → Content
    properties : Fields → Content

  pub data Fields : Type 0 where
    no_more : Fields
    ◌⨾◌ : Field → Fields → Fields

  pub data Field : Type 0 where
    field : String → Schema → Field

-- Shapes that occur often.
abbrev pub string_schema : Schema
string_schema =
    schema (record plain { schema_type = types ("string" ∷ []); schema_format = format "" }) leaf

abbrev pub default_string_schema : Schema
default_string_schema =
    schema
      (record plain {
        schema_type = types ("string" ∷ []);
        schema_format = format "";
        default_value = default_text "";
      })
      leaf

abbrev pub reference_schema : ModelName → Schema
reference_schema m = schema (record plain { default_value = default_empty }) (reference m)

-- common.OpenAPIDefinition: a schema and its dependencies; or one embedded into the extension of
-- another for clients of OpenAPI v2.
pub data Definition : Type 0 where
  definition : Schema → List ModelName → Definition
  embed : Definition → Definition → Definition

unfoldable mutual
  -- The names that a schema refers to.
  pub schema_references : Schema → List ModelName
  schema_references (schema _ content) = content_references content

  pub content_references : Content → List ModelName
  content_references leaf = []
  content_references (reference m) = m ∷ []
  content_references (items s) = schema_references s
  content_references (additional s) = schema_references s
  content_references (properties fields) = field_references fields

  pub field_references : Fields → List ModelName
  field_references no_more = []
  field_references (field _ s ⨾ fields) = schema_references s ++ field_references fields

unfoldable pub references : Definition → List ModelName
unfolding schema_references content_references field_references
references (definition s _) = schema_references s
references (embed d e) = references d ++ references e

unfoldable pub dependencies : Definition → List ModelName
dependencies (definition _ names) = names
dependencies (embed d e) = dependencies d ++ dependencies e

abbrev pub field_names : Fields → List String
field_names no_more = []
field_names (field name _ ⨾ fields) = name ∷ field_names fields

-- The names of the properties of a schema, and the required ones.
abbrev pub property_names : Schema → List String
property_names (schema _ (properties fields)) = field_names fields
property_names (schema _ _) = []

abbrev pub required_names : Schema → List String
required_names (schema props _) = props.required

abbrev pub main_schema : Definition → Schema
main_schema (definition s _) = s
main_schema (embed d _) = main_schema d

unfoldable pub model_eq : ModelName → ModelName → Bool
model_eq (declared a) (declared b) = a == b
model_eq (model_of a) (model_of b) = a == b
model_eq _ _ = false

pub model_eq_iff : (a b : ModelName) → (model_eq a b ≡ true) ↔ (a ≡ b)
unfolding model_eq
model_eq_iff (declared a) (declared b) = (
  λ h. ap declared ((eq_iff a b).0 h),
  λ e. (eq_iff a b).1 (ap (λ m. elim m [ declared x ↦ x | model_of x ↦ x ]) e),
)
model_eq_iff (model_of a) (model_of b) = (
  λ h. ap model_of ((eq_iff a b).0 h),
  λ e. (eq_iff a b).1 (ap (λ m. elim m [ declared x ↦ x | model_of x ↦ x ]) e),
)
model_eq_iff (declared a) (model_of b) = (λ h. cc, λ h. cc)
model_eq_iff (model_of a) (declared b) = (λ h. cc, λ h. cc)
