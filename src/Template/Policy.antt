-- ===== src/Template/Policy.antt =====
-- frontend/src/lib/templates/policy.ts: what the capabilities of a template mean for the editor and for
-- the texts shown. The ids are values of data types; the texts are the source's.
pub mod Laws
use Prim.Native.String.{String, ◌++◌ as append}
use portrait_booth.Base.{Bool, true, false, Option, none, some, List, [], ◌∷◌, ◌++◌, if◌then◌else◌}
use portrait_booth.Template.{Permission, SelfCapture, Capabilities}

pub data Operation : Type 0 where
  crop rotate mirror retouch background_replace : Operation

pub data Requirement : Type 0 where
  self_capture requires_original_camera_file requires_professional_photographer : Requirement

pub data Level : Type 0 where
  warn forbidden : Level

pub record PolicyNotice : Type 0 where
  pub id : Operation
  pub level : Level
  pub text : String

pub data PhraseId : Type 0 where
  operation : Operation → PhraseId
  requirement : Requirement → PhraseId

pub record RestrictionPhrase : Type 0 where
  pub id : PhraseId
  pub level : Level
  pub text : String

pub record SourceRequirement : Type 0 where
  pub id : Requirement
  pub text : String

pub record EditorPolicy : Type 0 where
  pub compose_locked : Bool
  pub compose_lock_reason : Option String
  pub rotate_locked : Bool
  pub mirror_locked : Bool
  pub notices : List PolicyNotice
  pub source_requirements : List SourceRequirement

abbrev pub compose_locked_text : String
compose_locked_text =
    "This template forbids adjusting the composition: the photo stays on the default cover composition, and zoom and pan are disabled."

unfoldable pub notice_text : String → Level → String
notice_text op Level.forbidden =
    append "This template forbids " (append op ": this tool will not perform that operation.")
notice_text op Level.warn =
    append "This template has a warning about "
      (append op ": check the official rules before deciding whether to proceed.")

-- `=== "forbidden"`, of the two kinds of permission.
unfoldable pub is_locked : Permission → Bool
is_locked Permission.forbidden = true
is_locked _ = false

-- The level of a permission that is not "allowed".
unfoldable pub level_of : Permission → Option Level
level_of Permission.allowed = none
level_of Permission.warn = some Level.warn
level_of Permission.forbidden = some Level.forbidden

-- What the inner function `add` of `editorPolicy` pushes.
unfoldable pub add_notice : Operation → String → Option Level → List PolicyNotice
unfolding notice_text
add_notice id op none = []
add_notice id op (some level) =
    (record { id = id; level = level; text = notice_text op level }) ∷ []

unfoldable pub self_capture_requirement : SelfCapture → List SourceRequirement
self_capture_requirement SelfCapture.allowed = []
self_capture_requirement SelfCapture.forbidden =
    (record { id = self_capture; text = "This template does not allow taking the photo yourself." })
    ∷ []
self_capture_requirement SelfCapture.certified_only =
    (record {
      id = self_capture;
      text = "This template requires the photo to be taken through a certified channel.";
    })
    ∷ []
self_capture_requirement SelfCapture.not_confirmed =
    (record {
      id = self_capture;
      text =
          "This template's self-capture status has not been officially confirmed; follow the official channel's requirements.";
    })
    ∷ []

unfoldable pub camera_file_requirement : Bool → List SourceRequirement
camera_file_requirement false = []
camera_file_requirement true =
    (record {
      id = requires_original_camera_file;
      text =
          "This template requires the original camera file; this tool's artifact is a re-encoded JPEG and does not satisfy that requirement.";
    })
    ∷ []

unfoldable pub photographer_requirement : Bool → List SourceRequirement
photographer_requirement false = []
photographer_requirement true =
    (record {
      id = requires_professional_photographer;
      text =
          "This template requires a certified photographer; this tool does not produce certified-photographer output.";
    })
    ∷ []

unfoldable pub editor_policy : Capabilities → EditorPolicy
unfolding is_locked level_of add_notice self_capture_requirement camera_file_requirement
    photographer_requirement
editor_policy caps = record {
  compose_locked = is_locked caps.crop;
  compose_lock_reason = if is_locked caps.crop then some compose_locked_text else none;
  rotate_locked = is_locked caps.rotate;
  mirror_locked = is_locked caps.mirror;
  notices =
      add_notice crop "cropping" (level_of caps.crop)
      ++ (add_notice rotate "rotation" (level_of caps.rotate)
          ++ (add_notice mirror "mirroring" (level_of caps.mirror)
              ++ (add_notice retouch "retouching" (level_of caps.retouch)
                  ++ add_notice background_replace "background replacement"
                      (level_of caps.background_replace))));
  source_requirements =
      self_capture_requirement caps.self_capture
      ++ (camera_file_requirement caps.requires_original_camera_file
          ++ photographer_requirement caps.requires_professional_photographer);
}

-- What the inner function `add` of `capabilityRestrictions` pushes.
unfoldable pub add_phrase : Operation → Permission → String → String → List RestrictionPhrase
add_phrase id Permission.allowed warn_text forbidden_text = []
add_phrase id Permission.warn warn_text forbidden_text =
    (record { id = operation id; level = Level.warn; text = warn_text }) ∷ []
add_phrase id Permission.forbidden warn_text forbidden_text =
    (record { id = operation id; level = Level.forbidden; text = forbidden_text }) ∷ []

unfoldable pub self_capture_phrase : SelfCapture → List RestrictionPhrase
self_capture_phrase SelfCapture.allowed = []
self_capture_phrase SelfCapture.forbidden =
    (record {
      id = requirement self_capture;
      level = Level.forbidden;
      text = "Taking the photo yourself is not allowed.";
    })
    ∷ []
self_capture_phrase SelfCapture.certified_only =
    (record {
      id = requirement self_capture;
      level = Level.warn;
      text = "The photo must be taken through a certified channel.";
    })
    ∷ []
self_capture_phrase SelfCapture.not_confirmed =
    (record {
      id = requirement self_capture;
      level = Level.warn;
      text = "Self-capture status has not been officially confirmed.";
    })
    ∷ []

unfoldable pub required_phrase : Requirement → String → Bool → List RestrictionPhrase
required_phrase id text false = []
required_phrase id text true =
    (record { id = requirement id; level = Level.forbidden; text = text }) ∷ []

unfoldable pub capability_restrictions : Capabilities → List RestrictionPhrase
unfolding add_phrase self_capture_phrase required_phrase
capability_restrictions caps =
    add_phrase crop caps.crop "Cropping is not officially endorsed and may be questioned."
      "This template forbids adjusting the composition."
    ++ (add_phrase rotate caps.rotate "Rotation is not officially endorsed and may be questioned."
          "This template forbids rotation."
        ++ (add_phrase mirror caps.mirror
              "Mirroring is not officially endorsed and may be questioned."
              "This template forbids mirroring."
            ++ (add_phrase retouch caps.retouch
                  "Retouching is not officially endorsed and may be questioned."
                  "This template forbids retouching."
                ++ (add_phrase background_replace caps.background_replace
                      "Background replacement is not officially endorsed and may be questioned."
                      "This template forbids background replacement."
                    ++ (self_capture_phrase caps.self_capture
                        ++ (required_phrase requires_original_camera_file
                              "The original camera file is required."
                              caps.requires_original_camera_file
                            ++ required_phrase requires_professional_photographer
                                "A certified photographer is required."
                                caps.requires_professional_photographer))))))
