-- ===== src/Keys.antt =====
-- doc-search/app/services/cache_keys.py: the keys of the shared cache.
pub mod Isolation
use distributed_document_sea.Prelude.{
  ℕ, Text, text, Bool, true, false, List, [], ◌∷◌, ◌++◌, if◌then◌else◌, leb, ltb, ◌==◌, ◌&&◌, ◌||◌,
  ◌+◌, take, decimal,
}

-- `str.isspace` and `\s` over the characters below 128.
unfoldable pub is_space : ℕ → Bool
is_space c = (leb 9 c && leb c 13) || (leb 28 c && leb c 32)

-- `str.lower` over the characters below 128.
unfoldable pub lower : ℕ → ℕ
lower c = if leb 65 c && leb c 90 then c + 32 else c

unfoldable pub lstrip : Text → Text
unfolding is_space
lstrip [] = []
lstrip (c ∷ s) = let rest = lstrip s in if is_space c then rest else c ∷ s

abbrev strip_before : ℕ → Text → Text
strip_before c [] = if is_space c then [] else c ∷ []
strip_before c (d ∷ s) = c ∷ d ∷ s

unfoldable pub rstrip : Text → Text
unfolding is_space
rstrip [] = []
rstrip (c ∷ s) = strip_before c (rstrip s)

-- `str.strip`
unfoldable pub strip : Text → Text
unfolding lstrip rstrip
strip s = rstrip (lstrip s)

-- `re.sub(r"\s+", " ", s)`; the flag says that the run it stands in has been replaced.
unfoldable pub sub_spaces : Bool → Text → Text
unfolding is_space
sub_spaces b [] = []
sub_spaces b (c ∷ s) =
    let rest = sub_spaces (is_space c) s in
    if is_space c then (if b then rest else 32 ∷ rest) else c ∷ rest

unfoldable pub map_lower : Text → Text
unfolding lower
map_lower [] = []
map_lower (c ∷ s) = lower c ∷ map_lower s

-- `normalize_query`
unfoldable pub normalize_query : Text → Text
unfolding strip sub_spaces map_lower
normalize_query s = sub_spaces false (map_lower (strip s))

unfoldable pub search_generation_key : Text → Text
search_generation_key tenant_id = text "t:" ++ (tenant_id ++ text ":search:gen")

abbrev flag : Bool → ℕ
flag true = b'1'
flag false = b'0'

-- The text that `search_key` hashes.
unfoldable pub canonical : Text → ℕ → ℕ → Bool → Bool → Bool → Text
unfolding normalize_query
canonical query page size fuzzy highlight facets =
    normalize_query query
    ++ (text "|p="
        ++ (decimal page
            ++ (text "|s="
                ++ (decimal size
                    ++ (text "|f="
                        ++ (flag fuzzy
                            ∷ (text "|h="
                                ++ (flag highlight ∷ (text "|a=" ++ (flag facets ∷ []))))))))))

-- `search_key`; `sha256` is the hexadecimal digest of the standard library.
unfoldable pub search_key : (Text → Text) → Text → ℕ → Text → ℕ → ℕ → Bool → Bool → Bool → Text
unfolding canonical
search_key sha256 tenant_id generation query page size fuzzy highlight facets =
    text "t:"
    ++ (tenant_id
        ++ (text ":search:g"
            ++ (decimal generation
                ++ (text ":"
                    ++ take 24 (sha256 (canonical query page size fuzzy highlight facets))))))

unfoldable pub document_key : Text → Text → Text
document_key tenant_id document_id = text "t:" ++ (tenant_id ++ (text ":doc:" ++ document_id))

unfoldable pub tenant_key : Text → Text
tenant_key api_key_hash = text "auth:key:" ++ api_key_hash

unfoldable pub rate_limit_key : Text → Text → Text
rate_limit_key tenant_id bucket = text "rl:" ++ (tenant_id ++ (text ":" ++ bucket))
