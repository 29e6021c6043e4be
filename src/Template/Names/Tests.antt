-- ===== src/Template/Names/Tests.antt =====
-- frontend/src/lib/templates/catalog.ts, describe.ts and disclosure.ts on small data.
use Prim.Native.String.{String}
use portrait_booth.Base.{◌≡◌, refl, some, List, [], ◌∷◌}
use portrait_booth.Base.Int.{ℤ}
use portrait_booth.Samples.{entry, portrait, squares}
use portrait_booth.Template.{TemplateCatalog, Permission}
use portrait_booth.Template.Names.{
  unique_jurisdictions, entry_label, jurisdiction_name, provenance_label, source_notes_for,
}

abbrev catalog : TemplateCatalog ℤ
catalog = record {
  schema_version = 1;
  catalog_version = "1";
  templates = entry "r1" Permission.allowed ∷ (entry "r2" Permission.warn ∷ []);
}

-- Both templates are of one jurisdiction.
listed : unique_jurisdictions catalog ≡ "generic" ∷ []
unfolding unique_jurisdictions
listed = refl

unlabelled : entry_label (entry "r1" Permission.allowed) "en" ≡ "r1"
unfolding entry_label
unlabelled = refl

named : jurisdiction_name "FI" ≡ "Finland"
unfolding jurisdiction_name
named = refl

unknown : provenance_label "hearsay" ≡ "hearsay"
unfolding provenance_label
unknown = refl

abbrev notes : List (String × List String)
notes = ("zh", "b" ∷ []) ∷ (("en", "a" ∷ []) ∷ [])

-- English stands in for a language that the notes do not have, whatever the order of the notes.
in_english :
    source_notes_for
      (record (portrait Permission.allowed squares) { source_notes = some notes })
      "fr"
    ≡ "a" ∷ []
unfolding source_notes_for
in_english = refl
