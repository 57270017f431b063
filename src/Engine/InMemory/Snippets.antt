-- ===== src/Engine/InMemory/Snippets.antt =====
-- doc-search/app/clients/inmemory_engine.py: `_to_hit`, the snippet of a hit and its highlights.
use distributed_document_sea.Prelude.{
  ℕ, zero, suc, ◌+◌, ◌-◌, ◌==◌, Text, text, length, take, drop, if◌then◌else◌, Bool, true, false,
  ◌&&◌, List, [], ◌∷◌, ◌++◌, Option, none, some,
}
use distributed_document_sea.Keys.{map_lower}
use distributed_document_sea.Engine.{EngineHit}
use distributed_document_sea.Engine.InMemory.{StoredDoc}

-- `s.startswith(p)`
unfoldable pub starts_with : Text → Text → Bool
starts_with [] s = true
starts_with (x ∷ p) [] = false
starts_with (x ∷ p) (y ∷ s) = x == y && starts_with p s

-- `s.find(term)` from position `at` on
unfoldable pub find : (term s : Text) → (at : ℕ) → Option ℕ
unfolding starts_with
find term [] at = if starts_with term [] then some at else none
find term (c ∷ s) at =
    let rest = find term s (at + 1) in if starts_with term (c ∷ s) then some at else rest

abbrev pub open_mark : Text
open_mark = text "<em>"

abbrev pub close_mark : Text
close_mark = text "</em>"

-- `re.sub` of the term, whatever the case, by itself in marks; `left` is how much of an occurrence
-- is still to come.
unfoldable pub emphasise : Text → ℕ → Text → Text
unfolding starts_with
emphasise term left [] = []
emphasise term zero (c ∷ s) =
    let apart = emphasise term 0 s in
    let inside = emphasise term (length term - 1) s in
    if starts_with term (map_lower (c ∷ s))
    then (if length term == 1
        then open_mark ++ (c ∷ (close_mark ++ apart))
        else open_mark ++ c ∷ inside)
    else c ∷ apart
emphasise term (suc zero) (c ∷ s) = c ∷ (close_mark ++ emphasise term 0 s)
emphasise term (suc (suc left)) (c ∷ s) = c ∷ emphasise term (suc left) s

-- The fragment round the first term that occurs, or the start of the content.
unfoldable pub highlighted : Text → List Text → Text
unfolding find emphasise
highlighted content [] = take 160 content
highlighted content (term ∷ terms) =
    let rest = highlighted content terms in
    elim (find term (map_lower content) 0) [
      | none ↦ rest
      | some position ↦ emphasise term 0 (take 160 (drop (position - 60) content))
    ]

unfoldable pub snippet_of : Bool → List Text → Text → Text
unfolding highlighted
snippet_of false terms content = take 160 content
snippet_of true terms content = highlighted content terms

-- `_to_hit`; the stored times are ISO texts of datetimes, which `_dt` reads back.
unfoldable pub to_hit : (ℕ → ℕ) → List Text → Bool → ℕ → StoredDoc → EngineHit
unfolding snippet_of
to_hit rounded terms highlight score d = record {
  document_id = d.document_id;
  score = rounded score;
  title = d.source.title;
  snippet = some (snippet_of highlight terms d.source.content);
  content_type = some d.source.content_type;
  tags = d.source.tags;
  metadata = d.source.metadata;
  created_at = some d.source.created_at;
  updated_at = some d.source.updated_at;
}
