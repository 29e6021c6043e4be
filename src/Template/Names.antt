-- ===== src/Template/Names.antt =====
-- frontend/src/lib/templates/catalog.ts, describe.ts and disclosure.ts: the names and texts that are shown.
-- A table by text is an association list; a name that every object has, such as "constructor", is none of
-- its keys.
pub mod Laws
mod Tests
use Prim.Native.String.{String, ◌++◌ as append}
use portrait_booth.Base.{
  ℕ, Bool, true, false, Option, none, some, List, [], ◌∷◌, ◌++◌, if◌then◌else◌, any, map, same_text,
}
use portrait_booth.Template.{
  DocumentType, SubmissionChannel, OutputProfile, exact_pixels, ranged_pixels, physical_raster,
  portal_source, guidance_only, TemplateRevision, TemplateEntry, TemplateCatalog,
}

-- `table[key]`
unfoldable pub lookup {ℓ} : {A : Type ℓ} → String → List (String × A) → Option A
lookup key [] = none
lookup key ((k, a) ∷ table) = if same_text key k then some a else lookup key table

-- `a ?? b`
abbrev pub or_else {ℓ} : {A : Type ℓ} → Option A → A → A
or_else none b = b
or_else (some a) b = a

unfoldable pub label_for : List (String × String) → String → String
unfolding lookup
label_for table value = or_else (lookup value table) value

unfoldable pub jurisdiction_name : String → String
unfolding label_for
jurisdiction_name = label_for (
    ("generic", "Generic (non-document)")
    ∷ (("US", "United States") ∷ (("FI", "Finland") ∷ (("CN", "China") ∷ (("JP", "Japan") ∷ [])))))

unfoldable pub document_type_name : DocumentType → String
document_type_name DocumentType.passport = "Passport"
document_type_name DocumentType.visa = "Visa"
document_type_name DocumentType.id_card = "Identity document"
document_type_name DocumentType.permit = "Permit"
document_type_name DocumentType.portrait = "Generic portrait"

unfoldable pub channel_name : SubmissionChannel → String
channel_name SubmissionChannel.paper = "Paper submission"
channel_name SubmissionChannel.digital_upload = "Digital upload"
channel_name SubmissionChannel.certified_transfer = "Certified transfer"
channel_name SubmissionChannel.onsite_capture = "On-site capture"

unfoldable pub enforcement_label : String → String
unfolding label_for
enforcement_label = label_for (("mandatory", "Mandatory") ∷ (("recommended", "Recommended") ∷ []))

unfoldable pub evaluation_label : String → String
unfolding label_for
evaluation_label = label_for (
    ("automatic", "Automatic")
    ∷ (("manual", "Manual")
        ∷ (("automatic_with_manual_confirmation", "Automatic + manual confirmation") ∷ [])))

unfoldable pub capability_value_label : String → String
unfolding label_for
capability_value_label = label_for (
    ("allowed", "Allowed")
    ∷ (("warn", "Warning")
        ∷ (("forbidden", "Forbidden")
            ∷ (("not_confirmed", "Not confirmed")
                ∷ (("certified_only", "Certified channel only") ∷ [])))))

unfoldable pub provenance_label : String → String
unfolding label_for
provenance_label = label_for (
    ("source_literal", "Source text")
    ∷ (("derived", "Derived") ∷ (("portal_verified", "Portal-verified") ∷ [])))

unfoldable pub normalization_label : String → String
unfolding label_for
normalization_label =
    label_for
      (("server_authoritative", "Server-authoritative") ∷ (("client_hint", "Client hint") ∷ []))

unfoldable pub is_official_type : DocumentType → Bool
is_official_type DocumentType.portrait = false
is_official_type _ = true

abbrev pub or_option {ℓ} : {A : Type ℓ} → Option A → Option A → Option A
or_option none b = b
or_option (some a) b = some a

module _ {ℓ} {R : Type ℓ} where
  unfoldable pub entry_label : TemplateEntry R → String → String
  unfolding lookup
  entry_label entry locale =
      let label = entry.revision.label in
      or_else (or_option (lookup locale label) (or_option (lookup "en" label) (lookup "zh" label)))
        entry.revision.revision_id

  unfoldable pub is_official_document : TemplateEntry R → Bool
  unfolding is_official_type
  is_official_document entry = is_official_type entry.revision.document_type

  -- The loop; `seen` is the set, and a text is in it or not.
  unfoldable pub add_jurisdictions :
      List (TemplateEntry R) → List String → List String → List String
  add_jurisdictions [] seen result = result
  add_jurisdictions (entry ∷ entries) seen result =
      let code = entry.revision.jurisdiction in
      let has = any (same_text code) seen in
      add_jurisdictions entries (if has then seen else code ∷ seen)
        (if has then result else result ++ (code ∷ []))

  unfoldable pub unique_jurisdictions : TemplateCatalog R → List String
  unfolding add_jurisdictions
  unique_jurisdictions catalog = add_jurisdictions catalog.templates [] []

  -- `decimal` and `text_of` write a number.
  unfoldable pub output_description : (ℕ → String) → (R → String) → OutputProfile R → String
  output_description decimal text_of (exact_pixels p) =
      append (decimal p.width_px) (append "×" (append (decimal p.height_px) " pixels"))
  output_description decimal text_of (ranged_pixels p) = append (decimal p.min_width_px) (
      append "–" (
        append (decimal p.max_width_px) (
          append "×" (
            append (decimal p.min_height_px) (
              append "–" (
                append (decimal p.max_height_px) (
                  append " pixels, default " (
                    append (decimal p.default_width_px)
                      (append "×" (decimal p.default_height_px))))))))))
  output_description decimal text_of (physical_raster p) = append (text_of p.width_mm) (
      append "×" (
        append (text_of p.height_mm) (
          append " mm (" (
            append (text_of p.print_ppi) (
              append " ppi → " (
                append (decimal p.width_px)
                  (append "×" (append (decimal p.height_px) " pixels)"))))))))
  output_description decimal text_of (portal_source p) = "Cropping performed by the official portal"
  output_description decimal text_of (guidance_only p) = "Capture guidance only, no file produced"

-- `[locale, "en", "zh", keys[0]].find(...)`
unfoldable pub find_locale : List String → List (String × List String) → Option String
unfolding lookup
find_locale [] notes = none
find_locale (locale ∷ locales) notes = elim (lookup locale notes) [
  | none ↦ find_locale locales notes
  | some lines ↦ some locale
]

unfoldable pub picked_notes : Option String → List (String × List String) → List String
unfolding lookup
picked_notes none notes = []
picked_notes (some locale) notes =
    if same_text locale "" then [] else or_else (lookup locale notes) []

unfoldable pub notes_in : String → List (String × List String) → List String
unfolding find_locale picked_notes
notes_in locale [] = []
notes_in locale ((key, lines) ∷ notes) =
    picked_notes (find_locale (locale ∷ ("en" ∷ ("zh" ∷ (key ∷ [])))) ((key, lines) ∷ notes))
      ((key, lines) ∷ notes)

unfoldable pub source_notes_for {ℓ} : {R : Type ℓ} → TemplateRevision R → String → List String
unfolding notes_in
source_notes_for rev locale = elim rev.source_notes [
  | none ↦ []
  | some notes ↦ notes_in locale notes
]
