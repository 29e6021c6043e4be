-- ===== src/Template/Catalog.antt =====
-- frontend/src/lib/templates/catalog.ts: the cached request for the list of templates, and the filters.
-- A request has a number, in the order in which requests are started; `rejected` are those that failed.
pub mod Laws
use Prim.Native.String.{String}
use portrait_booth.Base.{
  ℕ, zero, suc, Bool, true, false, not, ◌&&◌, Option, none, some, List, [], ◌∷◌, if◌then◌else◌,
  filter, any, ltb, same_text, ◌==◌,
}
use portrait_booth.Template.{DocumentType, SubmissionChannel, TemplateEntry, TemplateCatalog}

pub record CatalogCache : Type 0 where
  pub cached : Option ℕ
  pub started : ℕ
  pub rejected : List ℕ

abbrev pub empty_cache : CatalogCache
empty_cache = record { cached = none; started = 0; rejected = [] }

-- A call of `fetchTemplateCatalog` or `clearTemplateCatalogCache`, and the failure of a request.
pub data CacheEvent : Type 0 where
  fetch clear : CacheEvent
  fail : ℕ → CacheEvent

-- `cached ??= fetch(...)`.
unfoldable pub fetch_template_catalog : CatalogCache → CatalogCache
fetch_template_catalog c = elim c.cached [
  | none ↦ record c { cached = some c.started; started = suc c.started }
  | some request ↦ c
]

-- The handler of a rejection: whichever request fails, the cache is emptied.
unfoldable pub on_rejected : ℕ → CatalogCache → CatalogCache
on_rejected request c =
    if ltb request c.started then record c { cached = none; rejected = request ∷ c.rejected } else c

unfoldable pub cache_step : CacheEvent → CatalogCache → CatalogCache
unfolding fetch_template_catalog on_rejected
cache_step fetch c = fetch_template_catalog c
cache_step clear c = record c { cached = none }
cache_step (fail request) c = on_rejected request c

unfoldable pub cache_run : List CacheEvent → CatalogCache → CatalogCache
unfolding cache_step
cache_run [] c = c
cache_run (e ∷ es) c = cache_run es (cache_step e c)

pub record TemplateFilters : Type 0 where
  pub jurisdiction : Option String
  pub document_type : Option DocumentType
  pub channel : Option SubmissionChannel

-- The place of a value in the source's union type, by which two values are compared.
unfoldable pub document_type_index : DocumentType → ℕ
document_type_index DocumentType.passport = 0
document_type_index DocumentType.visa = 1
document_type_index DocumentType.id_card = 2
document_type_index DocumentType.permit = 3
document_type_index DocumentType.portrait = 4

unfoldable pub channel_index : SubmissionChannel → ℕ
channel_index SubmissionChannel.paper = 0
channel_index SubmissionChannel.digital_upload = 1
channel_index SubmissionChannel.certified_transfer = 2
channel_index SubmissionChannel.onsite_capture = 3

-- A filter that is absent or the empty text lets every template through.
unfoldable pub passes_jurisdiction : Option String → String → Bool
passes_jurisdiction none code = true
passes_jurisdiction (some wanted) code = if same_text wanted "" then true else same_text code wanted

unfoldable pub passes_document_type : Option DocumentType → DocumentType → Bool
unfolding document_type_index
passes_document_type none t = true
passes_document_type (some wanted) t = document_type_index t == document_type_index wanted

unfoldable pub passes_channel : Option SubmissionChannel → SubmissionChannel → Bool
unfolding channel_index
passes_channel none t = true
passes_channel (some wanted) t = channel_index t == channel_index wanted

unfoldable pub passes {ℓ} : {R : Type ℓ} → TemplateFilters → TemplateEntry R → Bool
unfolding passes_jurisdiction passes_document_type passes_channel
passes filters entry =
    passes_jurisdiction filters.jurisdiction entry.revision.jurisdiction
    && passes_document_type filters.document_type entry.revision.document_type
    && passes_channel filters.channel entry.revision.submission_channel

unfoldable pub filter_templates {ℓ} :
    {R : Type ℓ} → TemplateCatalog R → TemplateFilters → List (TemplateEntry R)
unfolding passes
filter_templates catalog filters = filter (passes filters) catalog.templates
