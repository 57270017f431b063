-- ===== src/Processor/Outcomes.antt =====
-- doc-search/app/workers/processor.py: what a batch reports of each of its events.
use distributed_document_sea.Prelude.{
  ◌≡◌, ◌⊎◌, inl, inr, refl, Text, text_eq_iff, Dict, lookup, keys, Bool, true, not, ◌&&◌, ◌||◌,
  List, [], ◌∷◌, ◌++◌, map, filter, some, arith, All, All-imp, Bool-cases,
}
use distributed_document_sea.Errors.{Exn, Result, ok, err}
use distributed_document_sea.Cache.{Codec}
use distributed_document_sea.Documents.{Rows, get_many, listed}
use distributed_document_sea.Events.{DocumentEvent}
use distributed_document_sea.Engine.{Operation, BulkResult, SearchEngine}
use distributed_document_sea.Processor.{
  ProcessOutcome, no_outcome, collapse, Plan, plan, outcome_of, Worker, settle, submit, well_formed,
  malformed, process,
}
use distributed_document_sea.Processor.Latest.{Covers, collapse-Covers'}

pub listed-filter :
    (p : Text → Bool) (xs : List Text) (i : Text) → listed (filter p xs) i ≡ (listed xs i && p i)
unfolding listed filter
listed-filter p [] i = refl
listed-filter p (x ∷ xs) i = ground (arith, listed-filter p xs i, text_eq_iff x i)

pub listed-append :
    (xs ys : List Text) (i : Text) → listed (xs ++ ys) i ≡ (listed xs i || listed ys i)
unfolding listed
listed-append [] ys i = refl
listed-append (x ∷ xs) ys i = ground (arith, listed-append xs ys i)

pub listed_of_lookup :
    (d : Dict DocumentEvent) (i : Text) (e : DocumentEvent)
    → lookup i d ≡ some e
    → listed (keys d) i ≡ true
unfolding lookup listed
listed_of_lookup [] i e h = cc
listed_of_lookup ((j, f) ∷ d) i e h = ground (arith, listed_of_lookup d i e)

-- The parts of a plan that an id may stand in.
pub plan-listed :
    (ids : List Text) (rows : Rows) (i : Text)
    → listed ids i ≡ true
    → (listed (plan ids rows).index_ids i
        || (listed (plan ids rows).delete_ids i || listed (plan ids rows).missing i))
      ≡ true
unfolding plan listed
plan-listed [] rows i h = cc
plan-listed (j ∷ ids) rows i h = ground (arith, plan-listed ids rows i)

plan_idle :
    (ids : List Text) (rows : Rows)
    → (plan ids rows).operations ≡ []
    → ((plan ids rows).index_ids ≡ []) × ((plan ids rows).delete_ids ≡ [])
unfolding plan
plan_idle [] rows h = (refl, refl)
plan_idle (j ∷ ids) rows h = ground (arith, plan_idle ids rows)

abbrev pub Accounted : ProcessOutcome → Text → Type 0
Accounted o i =
    (listed o.indexed i || (listed o.deleted i || (listed o.failed i || listed o.skipped i))) ≡ true

-- A batch that was processed, with the document accounted for.
abbrev pub Accounts : Result ProcessOutcome → Text → Type 0
Accounts (ok o) i = Accounted o i
Accounts (err e) i = ⊥

-- An outcome that reports a document both ways.
abbrev pub FailedAndSkipped : Result ProcessOutcome → Text → Type 0
FailedAndSkipped (ok o) i = (listed o.failed i ≡ true) × (listed o.skipped i ≡ true)
FailedAndSkipped (err e) i = ⊥

-- The operations that a batch plans over the rows.
abbrev pub planned : (Text → Text) → (Text → Bool) → List DocumentEvent → Rows → List Operation
planned canonical is_uuid es rows =
    let ids = well_formed is_uuid (collapse es []) in
    (plan ids (get_many (map canonical ids) rows)).operations

pub List-cases :
    (l : List Operation) → (l ≡ []) ⊎ ((x : Operation) × (r : List Operation) × (l ≡ x ∷ r))
List-cases [] = inl refl
List-cases (x ∷ r) = inr (x, r, refl)

module _ (c : Codec) (engine : SearchEngine) (is_uuid : Text → Bool) (canonical : Text → Text) where
  settle-Accounts :
      (latest : Dict DocumentEvent) (p : Plan) (r : Result BulkResult × engine.State)
      (skipped : List Text) (w : Worker c engine) (i : Text)
      → listed (keys latest) i ≡ true
      → (listed p.index_ids i || (listed p.delete_ids i || listed skipped i)) ≡ true
      → Accounts (settle c engine is_uuid canonical latest skipped p r w).0 i
  settle-Accounts latest p (err e, s) skipped w i k h = ground arith
  settle-Accounts latest p (ok result, s) skipped w i k h =
      unfold outcome_of in
      ground (
        arith,
        listed-filter (listed result.succeeded) p.index_ids i,
        listed-filter (listed result.succeeded) p.delete_ids i,
        listed-filter (λ j. not (listed result.succeeded j)) (p.index_ids ++ p.delete_ids) i,
        listed-append p.index_ids p.delete_ids i,
      )

  pub submit_idle :
      (latest : Dict DocumentEvent) (skipped : List Text) (p : Plan) (w : Worker c engine)
      → p.operations ≡ []
      → submit c engine is_uuid canonical latest skipped p w
        ≡ (ok (record no_outcome { skipped = skipped }), w)
  submit_idle latest skipped p w e = ground arith

  pub submit_busy :
      (latest : Dict DocumentEvent) (skipped : List Text) (p : Plan) (w : Worker c engine)
      (op : Operation) (ops : List Operation)
      → p.operations ≡ op ∷ ops
      → submit c engine is_uuid canonical latest skipped p w
        ≡ settle c engine is_uuid canonical latest skipped p
            (engine.bulk p.operations w.engine_state)
            w
  submit_busy latest skipped p w op ops e = ground arith

  submit-Accounts :
      (latest : Dict DocumentEvent) (ids skipped : List Text) (rows : Rows) (w : Worker c engine)
      (i : Text)
      → listed (keys latest) i ≡ true
      → (listed ids i || listed skipped i) ≡ true
      → Accounts
          (submit c engine is_uuid canonical latest
            (skipped ++ (plan ids rows).missing)
            (plan ids rows)
            w).0
          i
  submit-Accounts latest ids skipped rows w i k h =
      let p = plan ids rows in
      let parts : (listed p.index_ids i
            || (listed p.delete_ids i || listed (skipped ++ p.missing) i))
          ≡ true =
        ground (arith, plan-listed ids rows i, listed-append skipped p.missing i) in
      elim (List-cases p.operations) [
        | inl idle ↦
            rw (submit_idle latest (skipped ++ p.missing) p w idle)
              (unfold listed in ground (arith, plan_idle ids rows idle))
        | inr (op, ops, busy) ↦ rw (submit_busy latest (skipped ++ p.missing) p w op ops busy) (
            settle-Accounts latest p (engine.bulk p.operations w.engine_state)
              (skipped ++ p.missing) w i k parts)
      ]

  pub process_reached :
      (e : DocumentEvent) (es : List DocumentEvent) (w : Worker c engine)
      → w.db.reachable ≡ true
      → let latest = collapse (e ∷ es) [] in
        let ids = well_formed is_uuid latest in
        let p = plan ids (get_many (map canonical ids) w.db.rows) in
        process c engine is_uuid canonical (e ∷ es) w
        ≡ submit c engine is_uuid canonical latest (malformed is_uuid latest ++ p.missing) p w
  unfolding process
  process_reached e es w r = simp r

  Accounts-one :
      (e : DocumentEvent) (es : List DocumentEvent) (w : Worker c engine)
      → w.db.reachable ≡ true
      → (f : DocumentEvent) → Covers (collapse (e ∷ es) []) f
      → Accounts (process c engine is_uuid canonical (e ∷ es) w).0 f.document_id
  Accounts-one e es w r f cover =
      let latest = collapse (e ∷ es) [] in
      let ids = well_formed is_uuid latest in
      let there = listed_of_lookup latest f.document_id cover.newest cover.kept in
      rw (process_reached e es w r) (
        submit-Accounts latest ids (malformed is_uuid latest)
          (get_many (map canonical ids) w.db.rows) w f.document_id there
          (ground (
            arith,
            there,
            listed-filter is_uuid (keys latest) f.document_id,
            listed-filter (λ i. not (is_uuid i)) (keys latest) f.document_id,
          )))

  -- Whatever the engine answers or raises, with the database up every event of a batch is accounted
  -- for: its document is reported as indexed, deleted, failed or skipped.
  pub process-Accounts :
      (e : DocumentEvent) (es : List DocumentEvent) (w : Worker c engine)
      → w.db.reachable ≡ true
      → All (λ f. Accounts (process c engine is_uuid canonical (e ∷ es) w).0 f.document_id) (e ∷ es)
  process-Accounts e es w r =
      All-imp _ _ (Accounts-one e es w r) (e ∷ es) (collapse-Covers' (e ∷ es) [])

  poisoned_one :
      (e : DocumentEvent) (es : List DocumentEvent) (w : Worker c engine) (op : Operation)
      (ops : List Operation) (x : Exn) (s : engine.State)
      → w.db.reachable ≡ true
      → planned canonical is_uuid (e ∷ es) w.db.rows ≡ op ∷ ops
      → engine.bulk (op ∷ ops) w.engine_state ≡ (err x, s)
      → (f : DocumentEvent) → Covers (collapse (e ∷ es) []) f
      → (is_uuid f.document_id ≡ true)
        ⊎ FailedAndSkipped (process c engine is_uuid canonical (e ∷ es) w).0 f.document_id
  poisoned_one e es w op ops x s r busy down f cover = elim (Bool-cases (is_uuid f.document_id)) [
    | inl good ↦ inl good
    | inr bad ↦
        let latest = collapse (e ∷ es) [] in
        let there = listed_of_lookup latest f.document_id cover.newest cover.kept in
        let p =
          plan (well_formed is_uuid latest)
            (get_many (map canonical (well_formed is_uuid latest)) w.db.rows) in
        inr (
          rw (process_reached e es w r) (
            rw
              (
                submit_busy latest (malformed is_uuid latest ++ p.missing) p w op ops busy,
                busy,
                down,
              )
              (
                there,
                rw listed-append (
                    ground (
                      arith,
                      there,
                      listed-filter (λ i. not (is_uuid i)) (keys latest) f.document_id,
                    )),
              )))
  ]

  -- With the database up, if the engine raises on a batch that planned an operation, every event of
  -- the batch whose id is no uuid is reported as failed and as skipped.
  pub malformed_retried_on_outage :
      (e : DocumentEvent) (es : List DocumentEvent) (w : Worker c engine) (op : Operation)
      (ops : List Operation) (x : Exn) (s : engine.State)
      → w.db.reachable ≡ true
      → planned canonical is_uuid (e ∷ es) w.db.rows ≡ op ∷ ops
      → engine.bulk (op ∷ ops) w.engine_state ≡ (err x, s)
      → All
          (λ f.
            (is_uuid f.document_id ≡ true)
            ⊎ FailedAndSkipped (process c engine is_uuid canonical (e ∷ es) w).0 f.document_id)
          (e ∷ es)
  malformed_retried_on_outage e es w op ops x s r busy down =
      All-imp _ _ (poisoned_one e es w op ops x s r busy down) (e ∷ es)
        (collapse-Covers' (e ∷ es) [])
