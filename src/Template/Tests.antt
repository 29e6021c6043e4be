-- ===== src/Template/Tests.antt =====
-- frontend/src/lib/templates/policy.ts and catalog.ts on small data.
use portrait_booth.Base.{◌≡◌, ◌++◌, map}
use portrait_booth.Base.{some, none, [], ◌∷◌}
use portrait_booth.Base.Int.{ℤ}
use portrait_booth.Samples.{entry}
use portrait_booth.Template.Catalog.{TemplateFilters}
use portrait_booth.Template.{TemplateCatalog, DocumentType, Capabilities, Permission, SelfCapture}
use portrait_booth.Template.Policy.{editor_policy, capability_restrictions}
use portrait_booth.Template.Policy.Laws.{
  id_of_notice, id_of_requirement, id_of_phrase, capability_restrictions-ids,
}
use portrait_booth.Base.{true, false}

abbrev strict : Capabilities
strict = record {
  self_capture = SelfCapture.not_confirmed;
  crop = Permission.forbidden;
  rotate = Permission.warn;
  mirror = Permission.forbidden;
  retouch = Permission.allowed;
  background_replace = Permission.forbidden;
  requires_original_camera_file = true;
  requires_professional_photographer = false;
}

capability_restrictions-ids_example :
    map id_of_phrase (capability_restrictions strict)
    ≡ map id_of_notice (editor_policy strict).notices
      ++ map id_of_requirement (editor_policy strict).source_requirements
capability_restrictions-ids_example = capability_restrictions-ids strict

abbrev catalog : TemplateCatalog ℤ
catalog = record {
  schema_version = 1;
  catalog_version = "1";
  templates = entry "r1" Permission.allowed ∷ entry "r2" Permission.warn ∷ [];
}

abbrev portraits : TemplateFilters
portraits = record {
  jurisdiction = none;
  document_type = some DocumentType.portrait;
  channel = none;
}
