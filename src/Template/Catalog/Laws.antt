-- ===== src/Template/Catalog/Laws.antt =====
-- frontend/src/lib/templates/catalog.ts: a request that failed is not given out again.
use portrait_booth.Base.{
  ℕ, ◌<◌, ◌≡◌, refl, inl, inr, Bool, true, false, none, some, List, [], ◌∷◌, ◌==◌, any, filter,
  ◌&&◌, Bool-cases, Option-cases, arith,
}
use portrait_booth.Template.{TemplateEntry, TemplateCatalog}
use portrait_booth.Template.Catalog.{
  TemplateFilters, passes, passes_jurisdiction, passes_document_type, passes_channel,
  filter_templates, CatalogCache, empty_cache, CacheEvent, fetch, clear, fail,
  fetch_template_catalog, on_rejected, cache_step, cache_run,
}

abbrev pub is_rejected : CatalogCache → ℕ → Bool
is_rejected c request = any (λ r. r == request) c.rejected

-- The requests that failed were started, and the cached one did not fail.
pub record IsFresh (c : CatalogCache) : Type 0 where
  pub known : (r : ℕ) → is_rejected c r ≡ true → r < c.started
  pub older : (r : ℕ) → c.cached ≡ some r → r < c.started
  pub fresh : (r : ℕ) → c.cached ≡ some r → is_rejected c r ≡ false

cache_step-IsFresh : (e : CacheEvent) (c : CatalogCache) → IsFresh c → IsFresh (cache_step e c)
unfolding cache_step fetch_template_catalog on_rejected
cache_step-IsFresh fetch c h = record {
  known = λ r i. ground (arith, h.known r);
  older = λ r e. ground (arith, h.older r);
  fresh = λ r e. ground (arith, h.fresh r, h.known c.started);
}
cache_step-IsFresh clear c h = record { known = h.known; older = λ r e. cc; fresh = λ r e. cc }
cache_step-IsFresh (fail request) c h = record {
  known = λ r i. ground (arith, h.known r);
  older = λ r e. ground (arith, h.older r);
  fresh = λ r e. ground (arith, h.fresh r);
}

cache_run-IsFresh : (es : List CacheEvent) (c : CatalogCache) → IsFresh c → IsFresh (cache_run es c)
unfolding cache_run
cache_run-IsFresh [] c h = h
cache_run-IsFresh (e ∷ es) c h = cache_run-IsFresh es (cache_step e c) (cache_step-IsFresh e c h)

empty_cache-IsFresh : IsFresh empty_cache
empty_cache-IsFresh = record { known = λ r i. cc; older = λ r e. cc; fresh = λ r e. cc }

-- After any calls and failures, the next call of `fetchTemplateCatalog` gives out a request that has
-- not failed.
fetch-fresh :
    (es : List CacheEvent)
    → let c = fetch_template_catalog (cache_run es empty_cache) in
      (request : ℕ) × (c.cached ≡ some request) × (is_rejected c request ≡ false)
unfolding fetch_template_catalog cache_step
fetch-fresh es =
    let c = cache_run es empty_cache in
    let ok = cache_step-IsFresh fetch c (cache_run-IsFresh es empty_cache empty_cache-IsFresh) in
    let (request, e) = fetch_some c in (request, e, ok.fresh request e)
  where
    fetch_some :
        (c : CatalogCache) → (request : ℕ) × ((fetch_template_catalog c).cached ≡ some request)
    fetch_some c = elim (Option-cases c.cached) [
      | inl e ↦ (c.started, ground arith)
      | inr (r, e) ↦ (r, ground arith)
    ]

any-filter_test {ℓ} :
    {A : Type ℓ} (p q : A → Bool) (xs : List A) → any p (filter q xs) ≡ any (λ x. q x && p x) xs
any-filter_test p q [] = refl
any-filter_test p q (x ∷ xs) = elim (Bool-cases (q x)) [
  | inl e ↦ rw (e, any-filter_test p q xs) refl
  | inr e ↦ rw (e, any-filter_test p q xs) refl
]

abbrev pub no_filters : TemplateFilters
no_filters = record { jurisdiction = none; document_type = none; channel = none }

all_kept {ℓ} : {R : Type ℓ} (xs : List (TemplateEntry R)) → filter (passes no_filters) xs ≡ xs
unfolding passes passes_jurisdiction passes_document_type passes_channel
all_kept [] = refl
all_kept (x ∷ xs) = rw (all_kept xs) refl

-- The list that the filters leave has a template of some kind exactly when the catalog has one of that
-- kind that passes the filters, and without filters it is the whole catalog.
pub filter_templates-passes {ℓ} :
    {R : Type ℓ} (catalog : TemplateCatalog R) (filters : TemplateFilters)
    (kind : TemplateEntry R → Bool)
    → (any kind (filter_templates catalog filters)
        ≡ any (λ e. passes filters e && kind e) catalog.templates)
      × (filter_templates catalog no_filters ≡ catalog.templates)
unfolding filter_templates
filter_templates-passes catalog filters kind =
    (any-filter_test kind (passes filters) catalog.templates, all_kept catalog.templates)
