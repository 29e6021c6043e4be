-- ===== src/Template.antt =====
-- frontend/src/lib/templates: the published templates, what they permit, and how they are listed.
-- `types.ts` is here: sizes in pixels and bytes are numbers that the schema makes whole, and every
-- other quantity is a JavaScript number, of the type `R`.
pub mod Catalog
pub mod Names
pub mod Policy
mod Tests
use Prim.Native.String.{String}
use portrait_booth.Base.{ℕ, Bool, Option, List}

pub data DocumentType : Type 0 where
  passport visa id_card permit portrait : DocumentType

pub data SubmissionChannel : Type 0 where
  paper digital_upload certified_transfer onsite_capture : SubmissionChannel

pub data ApplicantClass : Type 0 where
  adult child infant all_ages : ApplicantClass

pub data PublicationStatus : Type 0 where
  active reference_only deprecated unsupported : PublicationStatus

pub record TemplateSource : Type 0 where
  pub id : String
  pub url : String
  pub title : String
  pub authority : String
  pub source_updated_at : Option String
  pub accessed_at : String

pub data Enforcement : Type 0 where
  mandatory recommended : Enforcement

pub data Provenance : Type 0 where
  source_literal derived portal_verified : Provenance

pub record Aspect {ℓ} (R : Type ℓ) : Type ℓ where
  pub width : R
  pub height : R
  pub enforcement : Enforcement
  pub provenance : Provenance

pub data Normalization : Type 0 where
  source_exact conservative_derived portal_verified unresolved : Normalization

pub record SizeLimit : Type 0 where
  pub min_bytes : Option ℕ
  pub max_bytes : Option ℕ
  pub source_literal : String
  pub normalization : Normalization

-- `colorSpace`, `bitsPerChannel` and `channels` have one value each: the field says whether it is set.
pub record OutputFile {ℓ} (R : Type ℓ) : Type ℓ where
  pub mime : List String
  pub size_limit : Option SizeLimit
  pub color_space : Bool
  pub bits_per_channel : Bool
  pub channels : Bool
  pub max_compression_ratio : Option R

pub record PixelSize : Type 0 where
  pub width_px : ℕ
  pub height_px : ℕ

pub record ExactPixels {ℓ} (R : Type ℓ) : Type ℓ where
  pub width_px : ℕ
  pub height_px : ℕ
  pub aspect : Aspect R

pub record RangedPixels {ℓ} (R : Type ℓ) : Type ℓ where
  pub min_width_px : ℕ
  pub min_height_px : ℕ
  pub max_width_px : ℕ
  pub max_height_px : ℕ
  pub default_width_px : ℕ
  pub default_height_px : ℕ
  pub aspect : Aspect R
  pub allowed_sizes : Option (List PixelSize)

-- `rounding` and `pixelDerivation` are constants.
pub record PhysicalRaster {ℓ} (R : Type ℓ) : Type ℓ where
  pub width_mm : R
  pub height_mm : R
  pub print_ppi : R
  pub width_px : ℕ
  pub height_px : ℕ
  pub ppi_provenance : Provenance
  pub calibration_profile_id : String

pub record PortalSource {ℓ} (R : Type ℓ) : Type ℓ where
  pub official_portal_performs_crop : Bool
  pub min_width_px : Option ℕ
  pub min_height_px : Option ℕ
  pub max_width_px : Option ℕ
  pub max_height_px : Option ℕ
  pub aspect : Option (Aspect R)

pub data OutputProfile {ℓ} (R : Type ℓ) : Type ℓ where
  exact_pixels : ExactPixels R → OutputProfile R
  ranged_pixels : RangedPixels R → OutputProfile R
  physical_raster : PhysicalRaster R → OutputProfile R
  portal_source : PortalSource R → OutputProfile R
  guidance_only : String → OutputProfile R

pub data Measure : Type 0 where
  mm px ratio degree : Measure

pub data Axis : Type 0 where
  x_axis y_axis angle : Axis

pub data Evaluation : Type 0 where
  automatic manual automatic_with_manual_confirmation : Evaluation

-- `bounds` is the constant "inclusive".
pub record MeasurementRule {ℓ} (R : Type ℓ) : Type ℓ where
  pub id : String
  pub metric : String
  pub min : Option R
  pub max : Option R
  pub target : Option R
  pub tolerance : Option R
  pub measure : Measure
  pub anchors : List String
  pub axis : Axis
  pub coordinate_space : String
  pub evaluation : Evaluation
  pub enforcement : Enforcement
  pub provenance : String
  pub source_refs : List String
  pub source_literal : Option String

pub data Expected {ℓ} (R : Type ℓ) : Type ℓ where
  boolean : Bool → Expected R
  text : String → Expected R
  number : R → Expected R

pub record CaptureRule {ℓ} (R : Type ℓ) : Type ℓ where
  pub id : String
  pub check : String
  pub expected : Expected R
  pub evaluation : Evaluation
  pub enforcement : Enforcement
  pub provenance : String
  pub source_refs : List String
  pub source_literal : Option String

pub data SelfCapture : Type 0 where
  allowed not_confirmed forbidden certified_only : SelfCapture

pub data Permission : Type 0 where
  allowed warn forbidden : Permission

pub record Capabilities : Type 0 where
  pub self_capture : SelfCapture
  pub crop : Permission
  pub rotate : Permission
  pub mirror : Permission
  pub retouch : Permission
  pub background_replace : Permission
  pub requires_original_camera_file : Bool
  pub requires_professional_photographer : Bool

pub record Overlay : Type 0 where
  pub kind : String
  pub rule_ids : List String

-- The two tables by locale are association lists, in the order of the keys.
pub record TemplateRevision {ℓ} (R : Type ℓ) : Type ℓ where
  pub revision_id : String
  pub id : String
  pub version : ℕ
  pub schema_version : ℕ
  pub label : List (String × String)
  pub jurisdiction : String
  pub document_type : DocumentType
  pub submission_channel : SubmissionChannel
  pub applicant_class : ApplicantClass
  pub application_post : Option String
  pub applicant_nationality_scope : Option (List String)
  pub residence_scope : Option (List String)
  pub visa_purpose_scope : Option (List String)
  pub valid_from : Option String
  pub valid_until : Option String
  pub sources : List TemplateSource
  pub output : OutputProfile R
  pub output_file : Option (OutputFile R)
  pub portal_input_file : Option (OutputFile R)
  pub crop_rules : List (MeasurementRule R)
  pub capture_rules : List (CaptureRule R)
  pub overlay : Overlay
  pub capabilities : Capabilities
  pub source_notes : Option (List (String × List String))

pub record TemplatePublication : Type 0 where
  pub revision_id : String
  pub status : PublicationStatus
  pub status_reason : String
  pub owner : String
  pub reviewer : String
  pub verified_at : String
  pub review_due_at : String
  pub effective_at : String
  pub publication_revision : ℕ

pub record TemplateEntry {ℓ} (R : Type ℓ) : Type ℓ where
  pub revision : TemplateRevision R
  pub content_hash : String
  pub publication : TemplatePublication

pub record TemplateCatalog {ℓ} (R : Type ℓ) : Type ℓ where
  pub schema_version : ℕ
  pub catalog_version : String
  pub templates : List (TemplateEntry R)
