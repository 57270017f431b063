-- ===== src/Config.antt =====
-- doc-search/app/core/config.py: the list of tenants that are seeded. The other settings are arguments
-- of the definitions that use them.
pub mod RoundTrip
use distributed_document_sea.Prelude.{
  ℕ, ◌==◌, Text, if◌then◌else◌, Bool, true, false, List, [], ◌∷◌, Option, none, some,
}
use distributed_document_sea.Keys.{strip}

-- A symbol before the first of some pieces.
abbrev pub onto_first : ℕ → List Text → List Text
onto_first ch [] = (ch ∷ []) ∷ []
onto_first ch (piece ∷ pieces) = (ch ∷ piece) ∷ pieces

-- `str.split` at one symbol
unfoldable pub split : ℕ → Text → List Text
split separator [] = [] ∷ []
split separator (ch ∷ s) =
    let rest = split separator s in if ch == separator then [] ∷ rest else onto_first ch rest

abbrev pub onto_left : ℕ → Option (Text × Text) → Option (Text × Text)
onto_left ch none = none
onto_left ch (some (left, right)) = some (ch ∷ left, right)

-- `split(separator, 1)` where the separator is in the text
unfoldable pub split_once : ℕ → Text → Option (Text × Text)
split_once separator [] = none
split_once separator (ch ∷ s) =
    let rest = split_once separator s in if ch == separator then some ([], s) else onto_left ch rest

abbrev pub stripped_pair : Option (Text × Text) → List (Text × Text) → List (Text × Text)
stripped_pair none pairs = pairs
stripped_pair (some (tenant_id, api_key)) pairs = (strip tenant_id, strip api_key) ∷ pairs

-- The loop over the pieces; an empty piece has no colon.
unfoldable pub pairs_of : List Text → List (Text × Text)
unfolding split_once
pairs_of [] = []
pairs_of (raw ∷ pieces) = stripped_pair (split_once b':' (strip raw)) (pairs_of pieces)

-- `Settings.seeded_tenants`
unfoldable pub seeded_tenants : Text → List (Text × Text)
unfolding split pairs_of
seeded_tenants seed_tenants = pairs_of (split b',' seed_tenants)
