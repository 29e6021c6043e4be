-- ===== src/Template/Policy/Laws.antt =====
-- frontend/src/lib/templates/policy.ts: the two lists and the locks agree.
use Prim.Native.String.{String}
use mathlib.Core.List.{map-append, append_assoc}
use portrait_booth.Base.{
  ◌≡◌, refl, Bool, true, false, ◌&&◌, ◌||◌, List, [], ◌∷◌, ◌++◌, map, any, Bool-cases, inl, inr,
}
use portrait_booth.Template.{Permission, SelfCapture, Capabilities}
use portrait_booth.Template.Policy.{
  Operation, Requirement, Level, PolicyNotice, PhraseId, operation, requirement, RestrictionPhrase,
  SourceRequirement, level_of, is_locked, add_notice, self_capture_requirement,
  camera_file_requirement, photographer_requirement, editor_policy, add_phrase, self_capture_phrase,
  required_phrase, capability_restrictions,
}

abbrev pub id_of_notice : PolicyNotice → PhraseId
id_of_notice x = operation x.id

abbrev pub id_of_requirement : SourceRequirement → PhraseId
id_of_requirement x = requirement x.id

abbrev pub id_of_phrase : RestrictionPhrase → PhraseId
id_of_phrase x = x.id

-- The ids for a permission, in both lists.
abbrev pub ids_of : Operation → Permission → List PhraseId
ids_of id Permission.allowed = []
ids_of id _ = operation id ∷ []

add_phrase-ids :
    (id : Operation) (p : Permission) (warn_text forbidden_text : String)
    → map id_of_phrase (add_phrase id p warn_text forbidden_text) ≡ ids_of id p
unfolding add_phrase
add_phrase-ids id Permission.allowed w f = refl
add_phrase-ids id Permission.warn w f = refl
add_phrase-ids id Permission.forbidden w f = refl

add_notice-ids :
    (id : Operation) (p : Permission) (op : String)
    → map id_of_notice (add_notice id op (level_of p)) ≡ ids_of id p
unfolding add_notice level_of
add_notice-ids id Permission.allowed op = refl
add_notice-ids id Permission.warn op = refl
add_notice-ids id Permission.forbidden op = refl

self_capture-ids :
    (c : SelfCapture)
    → map id_of_phrase (self_capture_phrase c) ≡ map id_of_requirement (self_capture_requirement c)
unfolding self_capture_phrase self_capture_requirement
self_capture-ids SelfCapture.allowed = refl
self_capture-ids SelfCapture.forbidden = refl
self_capture-ids SelfCapture.certified_only = refl
self_capture-ids SelfCapture.not_confirmed = refl

camera_file-ids :
    (b : Bool) (text : String)
    → map id_of_phrase (required_phrase Requirement.requires_original_camera_file text b)
      ≡ map id_of_requirement (camera_file_requirement b)
unfolding required_phrase camera_file_requirement
camera_file-ids true text = refl
camera_file-ids false text = refl

photographer-ids :
    (b : Bool) (text : String)
    → map id_of_phrase (required_phrase Requirement.requires_professional_photographer text b)
      ≡ map id_of_requirement (photographer_requirement b)
unfolding required_phrase photographer_requirement
photographer-ids true text = refl
photographer-ids false text = refl

-- The phrases of the template list name the same restrictions as the editor's notices and the source
-- requirements, in this order.
pub capability_restrictions-ids :
    (caps : Capabilities)
    → let policy = editor_policy caps in
      map id_of_phrase (capability_restrictions caps)
      ≡ map id_of_notice policy.notices ++ map id_of_requirement policy.source_requirements
unfolding editor_policy capability_restrictions
capability_restrictions-ids caps = simp (
  map-append, append_assoc, add_phrase-ids, add_notice-ids, self_capture-ids, camera_file-ids,
  photographer-ids,
)

abbrev pub same_operation : Operation → Operation → Bool
same_operation Operation.crop Operation.crop = true
same_operation Operation.rotate Operation.rotate = true
same_operation Operation.mirror Operation.mirror = true
same_operation Operation.retouch Operation.retouch = true
same_operation Operation.background_replace Operation.background_replace = true
same_operation _ _ = false

abbrev pub is_strict : Level → Bool
is_strict Level.forbidden = true
is_strict Level.warn = false

abbrev pub is_ban : Operation → PolicyNotice → Bool
is_ban op x = same_operation op x.id && is_strict x.level

any-append {ℓ} :
    {A : Type ℓ} (f : A → Bool) (xs ys : List A) → any f (xs ++ ys) ≡ (any f xs || any f ys)
any-append f [] ys = refl
any-append f (x ∷ xs) ys = elim (Bool-cases (f x)) [
  | inl e ↦ rw e refl
  | inr e ↦ rw e (any-append f xs ys)
]

-- What the notices of one permission say of an operation.
add_notice-ban :
    (op id : Operation) (p : Permission) (text : String)
    → any (is_ban op) (add_notice id text (level_of p)) ≡ (is_locked p && same_operation op id)
unfolding add_notice level_of is_locked
add_notice-ban op id Permission.allowed text = refl
add_notice-ban op id Permission.warn text = elim (Bool-cases (same_operation op id)) [
  | inl e ↦ rw e refl
  | inr e ↦ rw e refl
]
add_notice-ban op id Permission.forbidden text = elim (Bool-cases (same_operation op id)) [
  | inl e ↦ rw e refl
  | inr e ↦ rw e refl
]

and_false : (b : Bool) → (b && false) ≡ false
and_false true = refl
and_false false = refl

and_true : (b : Bool) → (b && true) ≡ b
and_true true = refl
and_true false = refl

or_false : (b : Bool) → (b || false) ≡ b
or_false true = refl
or_false false = refl

-- The editor locks composing, rotating and mirroring exactly when a notice says that the operation is
-- forbidden.
pub editor_policy-locks :
    (caps : Capabilities)
    → let policy = editor_policy caps in
      (policy.compose_locked ≡ any (is_ban Operation.crop) policy.notices)
      × (policy.rotate_locked ≡ any (is_ban Operation.rotate) policy.notices)
      × (policy.mirror_locked ≡ any (is_ban Operation.mirror) policy.notices)
unfolding editor_policy
editor_policy-locks caps = (
  simp (any-append, add_notice-ban, and_false, and_true, or_false),
  simp (any-append, add_notice-ban, and_false, and_true, or_false),
  simp (any-append, add_notice-ban, and_false, and_true, or_false),
)
