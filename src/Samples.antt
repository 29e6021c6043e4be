-- ===== src/Samples.antt =====
-- Data to run the definitions on: a square photo of 10 pixels, templates made for it, and edits.
use Prim.Native.String.{String}
use portrait_booth.Base.{true, false, none, [], ◌∷◌}
use portrait_booth.Base.Int.{ℤ, pos}
use portrait_booth.Template.{
  TemplateRevision, TemplateEntry, PublicationStatus, RangedPixels, ranged_pixels, Permission,
  SelfCapture, DocumentType, SubmissionChannel, ApplicantClass, Enforcement, Provenance,
}
use portrait_booth.Image.Exif.{Rect}
use portrait_booth.Editor.Transform.{EditTransform}
use portrait_booth.Editor.Reproject.{EditorState}

abbrev pub square : Rect ℤ
square = record { width = pos 10; height = pos 10 }

abbrev pub kept : EditTransform ℤ
kept = record {
  translate_x = pos 0;
  translate_y = pos 0;
  scale = pos 1;
  rotation_deg = pos 0;
  flip_x = false;
}

abbrev pub portrait : Permission → RangedPixels ℤ → TemplateRevision ℤ
portrait permission p = record {
  revision_id = "r1";
  id = "portrait";
  version = 1;
  schema_version = 1;
  label = [];
  jurisdiction = "generic";
  document_type = DocumentType.portrait;
  submission_channel = SubmissionChannel.digital_upload;
  applicant_class = ApplicantClass.all_ages;
  application_post = none;
  applicant_nationality_scope = none;
  residence_scope = none;
  visa_purpose_scope = none;
  valid_from = none;
  valid_until = none;
  sources = [];
  output = ranged_pixels p;
  output_file = none;
  portal_input_file = none;
  crop_rules = [];
  capture_rules = [];
  overlay = record { kind = "none"; rule_ids = [] };
  capabilities = record {
    self_capture = SelfCapture.allowed;
    crop = permission;
    rotate = permission;
    mirror = permission;
    retouch = permission;
    background_replace = permission;
    requires_original_camera_file = false;
    requires_professional_photographer = false;
  };
  source_notes = none;
}

abbrev pub squares : RangedPixels ℤ
squares = record {
  min_width_px = 5;
  min_height_px = 5;
  max_width_px = 20;
  max_height_px = 20;
  default_width_px = 10;
  default_height_px = 10;
  aspect = record {
    width = pos 1;
    height = pos 1;
    enforcement = Enforcement.mandatory;
    provenance = Provenance.source_literal;
  };
  allowed_sizes = none;
}

abbrev pub flipped : EditorState ℤ
flipped = record {
  transform = record kept { flip_x = true; rotation_deg = pos 30 };
  history = record { undo = kept ∷ []; redo = [] };
}

-- A published template, with its revision id.
abbrev pub entry : String → Permission → TemplateEntry ℤ
entry id permission = record {
  revision = record (portrait permission squares) { revision_id = id };
  content_hash = "";
  publication = record {
    revision_id = id;
    status = PublicationStatus.active;
    status_reason = "";
    owner = "";
    reviewer = "";
    verified_at = "";
    review_due_at = "";
    effective_at = "";
    publication_revision = 1;
  };
}
