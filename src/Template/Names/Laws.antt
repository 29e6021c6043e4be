-- ===== src/Template/Names/Laws.antt =====
-- frontend/src/lib/templates/catalog.ts: the jurisdictions of a catalog are listed once each.
use Prim.Native.String.{String}
use text.Mathlib.TextEquality.{eq_iff}
use portrait_booth.Base.{
  ℕ, ◌+◌, ◌≡◌, refl, ap, sym, ◌∙◌, inl, inr, Bool, true, false, ◌||◌, Bool-cases, List, [], ◌∷◌,
  ◌++◌, if◌then◌else◌, any, same_text, arith,
}
use portrait_booth.Template.{TemplateEntry, TemplateCatalog}
use portrait_booth.Template.Names.{add_jurisdictions, unique_jurisdictions}

-- How often a text stands in a list.
abbrev pub count_text : String → List String → ℕ
count_text s [] = 0
count_text s (t ∷ ts) = (if same_text s t then 1 else 0) + count_text s ts

-- A text is listed once if it is in the set, or among the templates.
abbrev pub once : Bool → ℕ
once b = if b then 1 else 0

count_text-append :
    (s t : String) (ts : List String)
    → count_text s (ts ++ (t ∷ [])) ≡ count_text s ts + once (same_text s t)
count_text-append s t [] = omega arith
count_text-append s t (u ∷ ts) = omega (arith, count_text-append s t ts)

-- Equal texts are in the set together.
seen_alike :
    (s t : String) (seen : List String) (b : Bool)
    → any (same_text t) seen ≡ b
    → same_text s t ≡ true
    → any (same_text s) seen ≡ b
seen_alike s t seen b has e = let same : s ≡ t = (eq_iff s t).0 e in rw same has

or_again :
    (same seen rest : Bool)
    → (same ≡ true → seen ≡ true)
    → (seen || (same || rest)) ≡ (seen || rest)
or_again true seen rest h = rw (h refl) refl
or_again false seen rest h = refl

or_none : (seen : Bool) → (seen || false) ≡ seen
or_none true = refl
or_none false = refl

or_swap : (same seen rest : Bool) → (seen || (same || rest)) ≡ ((same || seen) || rest)
or_swap true true rest = refl
or_swap true false rest = refl
or_swap false seen rest = refl

once_more :
    (same seen : Bool) → (same ≡ true → seen ≡ false) → once seen + once same ≡ once (same || seen)
once_more true seen h = rw (h refl) refl
once_more false seen h = omega arith

module _ {ℓ} {R : Type ℓ} where
  abbrev pub is_of : String → TemplateEntry R → Bool
  is_of s entry = same_text s entry.revision.jurisdiction

  add_jurisdictions-once :
      (s : String) (entries : List (TemplateEntry R)) (seen result : List String)
      → count_text s result ≡ once (any (same_text s) seen)
      → count_text s (add_jurisdictions entries seen result)
        ≡ once (any (same_text s) seen || any (is_of s) entries)
  unfolding add_jurisdictions
  add_jurisdictions-once s [] seen result listed =
      listed ∙ ap once (sym (or_none (any (same_text s) seen)))
  add_jurisdictions-once s (entry ∷ entries) seen result listed =
      let t = entry.revision.jurisdiction in
      let same = same_text s t in
      elim (Bool-cases (any (same_text t) seen)) [
        | inl has ↦
            rw
              (
                has,
                or_again same (any (same_text s) seen) (any (is_of s) entries)
                    (seen_alike s t seen true has),
              )
              (add_jurisdictions-once s entries seen result listed)
        | inr fresh ↦
            rw (fresh, or_swap same (any (same_text s) seen) (any (is_of s) entries))
              (add_jurisdictions-once s entries (t ∷ seen) (result ++ (t ∷ [])) (
                count_text-append s t result
                ∙ ap (λ k. k + once same) listed
                ∙ once_more same (any (same_text s) seen) (seen_alike s t seen false fresh)))
      ]

  -- A text is listed once if it is the jurisdiction of a template of the catalog, and else not at all.
  pub unique_jurisdictions-once :
      (catalog : TemplateCatalog R) (s : String)
      → count_text s (unique_jurisdictions catalog) ≡ once (any (is_of s) catalog.templates)
  unfolding unique_jurisdictions
  unique_jurisdictions-once catalog s = add_jurisdictions-once s catalog.templates [] [] refl
