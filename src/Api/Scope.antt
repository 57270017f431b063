-- ===== src/Api/Scope.antt =====
-- Whose documents a request can ask for, and how deep.
use distributed_document_sea.Prelude.{ℕ, ◌+◌, ◌*◌, ◌≤◌, ◌≡◌, ◌⊎◌, ◌<◌}
use distributed_document_sea.Engine.{offset, SearchQuery}
use distributed_document_sea.Tenants.{Tenant}
use distributed_document_sea.Api.{SearchParams}

-- A query that asks for the tenant's own documents, for what the parameters say and no deeper than
-- the result window; page and size are kept unless one of the limits is exceeded.
pub record IsOwnQuery (max_page_size max_result_window : ℕ) (tenant : Tenant) (p : SearchParams)
    (q : SearchQuery) : Type 0 where
  pub own : q.tenant_id ≡ tenant.id
  pub same_text : q.text ≡ p.q
  pub same_options : (q.fuzzy ≡ p.fuzzy) × (q.highlight ≡ p.highlight) × (q.facets ≡ p.facets)
  pub size_bounded : (q.size ≤ p.size) × (q.size ≤ max_page_size)
  pub page_bounded : q.page ≤ p.page
  pub window_kept : offset q + q.size ≤ max_result_window
  pub kept_or_excessive :
      ((q.page ≡ p.page) × (q.size ≡ p.size))
      ⊎ ((max_page_size < p.size) ⊎ (max_result_window < p.page * p.size))
