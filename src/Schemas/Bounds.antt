-- ===== src/Schemas/Bounds.antt =====
-- What the service can rely on in a body that was accepted.
use mathlib.Core.Path.{subst}
use distributed_document_sea.Prelude.{
  ◌≤◌, ◌≡◌, refl, sym, Text, length, filter, map, any, Dict, ltb, true, false, not, List, [], ◌∷◌,
  Option, none, some, arith, All, Bool-cases, inl, inr,
}
use distributed_document_sea.Keys.{strip}
use distributed_document_sea.Documents.{MetadataValue, compound}
use distributed_document_sea.DocumentService.{DocumentCreate}
use distributed_document_sea.Schemas.{
  validate_tags, validate_metadata, validate_document, is_valid_entry, is_empty, both,
}

-- A tag is one to 64 characters long.
abbrev pub IsTag : Text → Type 0
IsTag t = (1 ≤ length t) × (length t ≤ 64)

-- A key of at most 64 characters with a scalar, a string of at most 1024.
abbrev pub IsScalarEntry : Text × MetadataValue → Type 0
IsScalarEntry (key, MetadataValue.str s) = (length key ≤ 64) × (length s ≤ 1024)
IsScalarEntry (key, compound) = ⊥
IsScalarEntry (key, _) = length key ≤ 64

pub record IsAcceptable (d : DocumentCreate) : Type 0 where
  pub title : (1 ≤ length d.title) × (length d.title ≤ 512)
  pub content : (1 ≤ length d.content) × (length d.content ≤ 1000000)
  pub content_type : length d.content_type ≤ 64
  pub tag_count : length d.tags ≤ 32
  pub tags : All IsTag d.tags
  pub entry_count : length d.metadata ≤ 50
  pub entries : All IsScalarEntry d.metadata

valid_entry : (e : Text × MetadataValue) → is_valid_entry e ≡ true → IsScalarEntry e
unfolding is_valid_entry
valid_entry (key, MetadataValue.str s) h = ground arith
valid_entry (key, MetadataValue.number s) h = ground arith
valid_entry (key, MetadataValue.boolean b) h = ground arith
valid_entry (key, MetadataValue.null) h = ground arith
valid_entry (key, compound) h = ground arith

valid_entries :
    (m : Dict MetadataValue) → any (λ e. not (is_valid_entry e)) m ≡ false → All IsScalarEntry m
valid_entries [] h = tt
valid_entries (e ∷ m) h = elim (Bool-cases (is_valid_entry e)) [
  | inl t ↦ (valid_entry e t, valid_entries m (ground (arith, t)))
  | inr f ↦ absurd (ground (arith, f))
]

cleaned_tags :
    (tags : List Text)
    → any (λ t. ltb 64 (length t)) (filter (λ t. not (is_empty t)) tags) ≡ false
    → All IsTag (filter (λ t. not (is_empty t)) tags)
      × (length (filter (λ t. not (is_empty t)) tags) ≤ length tags)
unfolding filter
cleaned_tags [] h = (tt, ground arith)
cleaned_tags ([] ∷ tags) h = let (a, l) = cleaned_tags tags h in (a, omega (arith, l))
cleaned_tags ((x ∷ t) ∷ tags) h =
    let (a, l) = cleaned_tags tags (ground arith) in ((ground arith, a), omega (arith, l))

length-map : (tags : List Text) → length (map strip tags) ≡ length tags
length-map [] = refl
length-map (t ∷ tags) = ground (arith, length-map tags)

valid_tags :
    (tags cleaned : List Text)
    → validate_tags tags ≡ some cleaned
    → All IsTag cleaned × (length cleaned ≤ length tags)
unfolding validate_tags
valid_tags tags cleaned h =
    let few : any (λ t. ltb 64 (length t)) (filter (λ t. not (is_empty t)) (map strip tags))
        ≡ false =
      ground arith in
    let same : filter (λ t. not (is_empty t)) (map strip tags) ≡ cleaned = ground arith in
    let (a, l) = cleaned_tags (map strip tags) few in
    rw (sym same) (a, omega (arith, l, length-map tags))

valid_metadata :
    (m m' : Dict MetadataValue)
    → validate_metadata m ≡ some m'
    → (m ≡ m') × All IsScalarEntry m × (length m ≤ 50)
unfolding validate_metadata
valid_metadata m m' h = (ground arith, valid_entries m (ground arith), ground arith)

both_parts :
    (p d : DocumentCreate) (tags : Option (List Text)) (metadata : Option (Dict MetadataValue))
    → both p tags metadata ≡ some d
    → (ts : List Text) × (m : Dict MetadataValue) × (tags ≡ some ts)
      × (metadata ≡ some m)
      × (record p { tags = ts; metadata = m } ≡ d)
both_parts p d (some ts) (some m) h = (ts, m, refl, refl, ground arith)
both_parts p d (some ts) none h = absurd (ground arith)
both_parts p d none m h = absurd (ground arith)

-- A document body that is accepted keeps every bound of the schema: the lengths of title, content
-- and content type, at most 32 tags of one to 64 characters, and at most 50 scalar metadata entries
-- with their lengths.
pub accepted-IsAcceptable : (p d : DocumentCreate) → validate_document p ≡ some d → IsAcceptable d
unfolding validate_document
accepted-IsAcceptable p d h =
    let (tags, metadata, ht, hm, e) =
      both_parts p d (validate_tags p.tags) (validate_metadata p.metadata) (ground arith) in
    let (tag, tag_count) = valid_tags p.tags tags ht in
    let (same, entries, entry_count) = valid_metadata p.metadata metadata hm in
    subst IsAcceptable e (record {
      title = (ground arith, ground arith);
      content = (ground arith, ground arith);
      content_type = ground arith;
      tag_count = ground arith;
      tags = tag;
      entry_count = rw (sym same) entry_count;
      entries = rw (sym same) entries;
    })
