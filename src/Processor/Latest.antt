-- ===== src/Processor/Latest.antt =====
-- doc-search/app/workers/processor.py: which event of a document a batch keeps.
use native.Mathlib.Nat.{le_refl}
use distributed_document_sea.Prelude.{
  ◌≤◌, ◌≡◌, ◌≢◌, ◌⊎◌, inl, inr, Text, text_eq, text_eq_iff, text_eq_refl, Dict, lookup, insert,
  keys, lookup-insert, leb, List, [], ◌∷◌, some, arith, All, All-imp, Any, Bool-cases, Option-cases,
  ap, sym, ◌∙◌, Distinct,
}
use distributed_document_sea.Events.{DocumentEvent}
use distributed_document_sea.Processor.{note, collapse, supersedes}

-- An event of the same document, at least as new.
pub record Covers (latest : Dict DocumentEvent) (e : DocumentEvent) : Type 0 where
  pub newest : DocumentEvent
  pub kept : lookup e.document_id latest ≡ some newest
  pub newer : e.version ≤ newest.version

note-Covers_self : (e : DocumentEvent) (latest : Dict DocumentEvent) → Covers (note e latest) e
unfolding note
note-Covers_self e latest = elim (Option-cases (lookup e.document_id latest)) [
  | inl new ↦ record {
    newest = e;
    kept =
        ground
          (arith, lookup-insert e.document_id e.document_id e latest, text_eq_refl e.document_id);
    newer = le_refl e.version;
  }
  | inr (old, found) ↦ elim (Bool-cases (leb old.version e.version)) [
    | inl take ↦ record {
      newest = e;
      kept =
          ground
            (arith, lookup-insert e.document_id e.document_id e latest, text_eq_refl e.document_id);
      newer = le_refl e.version;
    }
    | inr keep ↦ record { newest = old; kept = ground arith; newer = ground arith }
  ]
]

note-Covers :
    (e f : DocumentEvent) (latest : Dict DocumentEvent) → Covers latest f → Covers (note e latest) f
unfolding note
note-Covers e f latest c = elim (Bool-cases (supersedes e (lookup e.document_id latest))) [
  | inr keep ↦ rw keep c
  | inl take ↦ elim (Bool-cases (text_eq e.document_id f.document_id)) [
    | inl same ↦ record {
      newest = e;
      kept = ground (arith, lookup-insert e.document_id f.document_id e latest);
      newer = ground (arith, c.kept, c.newer, text_eq_iff e.document_id f.document_id);
    }
    | inr other ↦ record {
      newest = c.newest;
      kept = ground (arith, lookup-insert e.document_id f.document_id e latest, c.kept);
      newer = c.newer;
    }
  ]
]

collapse-Covers :
    (es : List DocumentEvent) (latest : Dict DocumentEvent) (f : DocumentEvent)
    → Covers latest f
    → Covers (collapse es latest) f
unfolding collapse
collapse-Covers [] latest f c = c
collapse-Covers (e ∷ es) latest f c =
    collapse-Covers es (note e latest) f (note-Covers e f latest c)

pub collapse-Covers' :
    (es : List DocumentEvent) (latest : Dict DocumentEvent) → All (Covers (collapse es latest)) es
unfolding collapse
collapse-Covers' [] latest = tt
collapse-Covers' (e ∷ es) latest = (
  collapse-Covers es (note e latest) e (note-Covers_self e latest),
  collapse-Covers' es (note e latest),
)

-- What is kept under a document came in a batch, and is an event of that document.
abbrev pub CameFrom : List DocumentEvent → Text → DocumentEvent → Type 0
CameFrom es i e = (e.document_id ≡ i) × Any (λ f. f ≡ e) es

inserted :
    (f : DocumentEvent) (es : List DocumentEvent) (latest : Dict DocumentEvent) (i : Text)
    (e : DocumentEvent)
    → lookup i (insert f.document_id f latest) ≡ some e
    → (lookup i latest ≡ some e) ⊎ CameFrom (f ∷ es) i e
inserted f es latest i e h = elim (Bool-cases (text_eq f.document_id i)) [
  | inr other ↦ inl (ground (arith, lookup-insert f.document_id i f latest))
  | inl same ↦
      let is_f : f ≡ e = ground (arith, lookup-insert f.document_id i f latest) in
      inr (ap (λ x. x.document_id) (sym is_f) ∙ (text_eq_iff f.document_id i).0 same, inl is_f)
]

collapse_came :
    (es : List DocumentEvent) (latest : Dict DocumentEvent) (i : Text) (e : DocumentEvent)
    → lookup i (collapse es latest) ≡ some e
    → (lookup i latest ≡ some e) ⊎ CameFrom es i e
unfolding collapse note
collapse_came [] latest i e h = inl h
collapse_came (f ∷ es) latest i e h = elim (collapse_came es (note f latest) i e h) [
  | inr (same, some_f) ↦ inr (same, inr some_f)
  | inl there ↦ elim (Bool-cases (supersedes f (lookup f.document_id latest))) [
    | inr keep ↦ inl (rw keep at there)
    | inl take ↦ inserted f es latest i e (rw take at there)
  ]
]

older :
    (latest : Dict DocumentEvent) (i : Text) (e : DocumentEvent)
    → lookup i latest ≡ some e
    → (f : DocumentEvent) → Covers latest f
    → (f.document_id ≢ i) ⊎ (f.version ≤ e.version)
older latest i e h f c = elim (Bool-cases (text_eq f.document_id i)) [
  | inl same ↦ inr (ground (arith, c.kept, c.newer, text_eq_iff f.document_id i))
  | inr other ↦ inl (ground (arith, text_eq_iff f.document_id i))
]

-- The event that a batch keeps of a document is one of the batch, names that document, and has the
-- highest version of all events of the batch that name it.
pub kept_newest :
    (es : List DocumentEvent) (i : Text) (e : DocumentEvent)
    → lookup i (collapse es []) ≡ some e
    → (e.document_id ≡ i)
      × Any (λ f. f ≡ e) es
      × All (λ f. (f.document_id ≢ i) ⊎ (f.version ≤ e.version)) es
kept_newest es i e h = elim (collapse_came es [] i e h) [
  | inl none_there ↦ absurd (unfold lookup in cc)
  | inr (same, there) ↦
      (same, there, All-imp _ _ (older (collapse es []) i e h) es (collapse-Covers' es []))
]

keys-insert_all :
    (P : Text → Type 0) (k : Text) (e : DocumentEvent) (d : Dict DocumentEvent)
    → P k
    → All P (keys d)
    → All P (keys (insert k e d))
unfolding insert
keys-insert_all P k e [] p h = (p, tt)
keys-insert_all P k e ((j, f) ∷ d) p h = elim (Bool-cases (text_eq j k)) [
  | inl same ↦ rw same (p, h.1)
  | inr other ↦ rw other (h.0, keys-insert_all P k e d p h.1)
]

insert-Distinct :
    (k : Text) (e : DocumentEvent) (d : Dict DocumentEvent)
    → Distinct (keys d)
    → Distinct (keys (insert k e d))
unfolding insert
insert-Distinct k e [] h = (tt, tt)
insert-Distinct k e ((j, f) ∷ d) h = elim (Bool-cases (text_eq j k)) [
  | inl same ↦ rw same (rw (sym ((text_eq_iff j k).0 same)) h)
  | inr other ↦ rw other (
    keys-insert_all (λ i. j ≢ i) k e d (λ p. ground (arith, text_eq_iff j k)) h.0,
    insert-Distinct k e d h.1,
  )
]

pub collapse-Distinct :
    (es : List DocumentEvent) (latest : Dict DocumentEvent)
    → Distinct (keys latest)
    → Distinct (keys (collapse es latest))
unfolding collapse note
collapse-Distinct [] latest h = h
collapse-Distinct (e ∷ es) latest h =
    elim (Bool-cases (supersedes e (lookup e.document_id latest))) [
      | inl take ↦ rw take (
          collapse-Distinct es (insert e.document_id e latest)
            (insert-Distinct e.document_id e latest h))
      | inr keep ↦ rw keep (collapse-Distinct es latest h)
    ]
