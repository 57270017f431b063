-- ===== src/Schemas.antt =====
-- doc-search/app/schemas/document.py: the validation of the body of `POST /documents`, up to the value
-- that reaches the service. pydantic has checked the JSON types and calls the two field validators.
pub mod Bounds
use distributed_document_sea.Prelude.{
  ℕ, ◌+◌, ◌≤◌, ◌≡◌, Text, text, length, filter, map, any, Dict, if◌then◌else◌, leb, ltb, Bool, true,
  false, not, ◌&&◌, ◌||◌, List, [], ◌∷◌, Option, none, some,
}
use distributed_document_sea.Errors.{Result}
use distributed_document_sea.Keys.{strip}
use distributed_document_sea.Documents.{MetadataValue}
use distributed_document_sea.DocumentService.{DocumentCreate}

abbrev pub is_empty : Text → Bool
is_empty [] = true
is_empty (_ ∷ _) = false

-- `_validate_tags`: stripped, the empty ones left out; none if one is too long.
abbrev cleaned : List Text → List Text
cleaned tags = filter (λ t. not (is_empty t)) (map strip tags)

unfoldable pub validate_tags : List Text → Option (List Text)
validate_tags tags =
    if any (λ t. ltb 64 (length t)) (cleaned tags) then none else some (cleaned tags)

-- Whether a key and a value pass the loop of `_validate_metadata`.
unfoldable pub is_valid_entry : Text × MetadataValue → Bool
is_valid_entry (key, value) = leb (length key) 64 && (elim value [
  | MetadataValue.str s ↦ leb (length s) 1024
  | MetadataValue.compound ↦ false
  | _ ↦ true
])

-- `_validate_metadata`
unfoldable pub validate_metadata : Dict MetadataValue → Option (Dict MetadataValue)
unfolding is_valid_entry
validate_metadata metadata =
    if ltb 50 (length metadata)
    then none
    else if any (λ e. not (is_valid_entry e)) metadata
    then none
    else some metadata

abbrev within : ℕ → ℕ → ℕ → Bool
within low high n = leb low n && leb n high

abbrev pub both :
    DocumentCreate → Option (List Text) → Option (Dict MetadataValue) → Option DocumentCreate
both p (some tags) (some metadata) = some (record p { tags = tags; metadata = metadata })
both p _ _ = none

-- `DocumentCreate` for a body with fields of the right types: the bounds of the fields, and the two
-- validators; none is a validation error.
unfoldable pub validate_document : DocumentCreate → Option DocumentCreate
unfolding validate_tags validate_metadata
validate_document p =
    if within 1 512 (length p.title)
      && within 1 1000000 (length p.content)
      && leb (length p.content_type) 64
      && leb (length p.tags) 32
    then both p (validate_tags p.tags) (validate_metadata p.metadata)
    else none
