-- ===== src/Create/Photos.antt =====
-- frontend/src/create/create-page.tsx: `dispose` is called on each photo, and on each once.
use portrait_booth.Base.{
  ℕ, Bool, true, false, not, ◌&&◌, ◌||◌, Option, none, some, List, [], ◌∷◌, ◌≡◌, refl, sym, subst,
  inl, inr, Bool-cases, ◌==◌, any, arith,
}
use portrait_booth.Number.{Number}
use portrait_booth.Template.{TemplateEntry}
use portrait_booth.Editor.Transform.{EditTransform}
use portrait_booth.Editor.Reproject.{EditorState, ReprojectNote, is_forbidden}
use portrait_booth.Create.{
  SourceImage, Receipt, Page, Event, is_some, shown, dispose_current, replace_source, on_restart,
  on_staged, unmount, carry_over, switch_template, enter, on_select, calls_back, offers, act,
  step_page, go,
}

-- The photos that the page has taken over so far.
abbrev pub photos {ℓ} : {R : Type ℓ} → Page R → List ℕ
photos p = dispose_current p.source_ref p.disposed

abbrev pub holds : ℕ → List ℕ → Bool
holds r xs = any (λ x. r == x) xs

-- No two entries are the same.
abbrev pub IsUnique : List ℕ → Type 0
IsUnique [] = Unit
IsUnique (x ∷ xs) = (holds x xs ≡ false) × IsUnique xs

module _ {ℓ} {R : Type ℓ} where
  on_restart-photos : (answer : Bool) (p : Page R) → photos (on_restart answer p) ≡ photos p
  unfolding on_restart replace_source dispose_current
  on_restart-photos answer p = elim (Bool-cases (is_some p.staged && not answer)) [
    | inl e ↦ rw e refl
    | inr e ↦ rw e refl
  ]

  on_staged-photos :
      (src : SourceImage) (t : EditTransform R) (r : Option Receipt) (p : Page R)
      → photos (on_staged src t r p) ≡ photos p
  unfolding on_staged
  on_staged-photos src t none p = refl
  on_staged-photos src t (some r) p = refl

module _ {ℓ} {R : Type ℓ} ⦃n : Number R⦄ where
  carry_over-photos :
      (r : Option (EditorState R × List ReprojectNote)) (p : Page R)
      → photos (carry_over r p) ≡ photos p
  unfolding carry_over go
  carry_over-photos none p = refl
  carry_over-photos (some (state, notes)) p = refl

  switch_template-photos :
      (changed : Bool) (entry : TemplateEntry R) (src : SourceImage)
      (state : Option (EditorState R)) (p : Page R)
      → photos (switch_template changed entry src state p) ≡ photos p
  unfolding switch_template go
  switch_template-photos changed entry src none p = refl
  switch_template-photos changed entry src (some state) p =
      elim (Bool-cases (changed && is_forbidden entry.revision.capabilities.crop)) [
        | inl e ↦ rw e refl
        | inr e ↦ rw e (carry_over-photos _ p)
      ]

  enter-photos :
      (changed : Bool) (entry : TemplateEntry R) (state : Option (EditorState R))
      (src : Option SourceImage) (p : Page R)
      → photos (enter changed entry state src p) ≡ photos p
  unfolding enter go
  enter-photos changed entry state none p = refl
  enter-photos changed entry state (some src) p = switch_template-photos changed entry src state p

  -- What an event adds to the photos.
  abbrev pub taken : Event R → List ℕ → List ℕ
  taken (Event.ready img) xs = img.ref ∷ xs
  taken _ xs = xs

  act-photos : (e : Event R) (p : Page R) → photos (act e p) ≡ taken e (photos p)
  unfolding act on_select go replace_source dispose_current
  act-photos (Event.select entry) p = enter-photos _ entry p.editor_state p.source _
  act-photos (Event.restart answer) p = on_restart-photos answer p
  act-photos (Event.staged_change src t r) p = on_staged-photos src t r p
  act-photos Event.keep_template p = ground arith
  act-photos _ p = refl

  -- A photo that a step hands over is a new object.
  abbrev pub IsNew : Event R → Page R → Type 0
  IsNew (Event.ready img) p = holds img.ref (photos p) ≡ false
  IsNew _ p = Unit

  taken-IsUnique :
      (e : Event R) (p : Page R) → IsNew e p → IsUnique (photos p) → IsUnique (taken e (photos p))
  taken-IsUnique (Event.ready img) p new h = (new, h)
  taken-IsUnique _ p new h = h

  taken-holds :
      (e : Event R) (r : ℕ) (xs : List ℕ) → holds r xs ≡ true → holds r (taken e xs) ≡ true
  taken-holds (Event.ready img) r xs h = ground arith
  taken-holds _ r xs h = h

  -- The pages that events lead to from `p`, where each photo handed over is new.
  pub data Reaches (p : Page R) : Page R → Type ℓ where
    here : Reaches p p
    next : (e : Event R) (q : Page R) → IsNew e q → Reaches p q → Reaches p (step_page e q)

  step_page-photos {κ} :
      (P : List ℕ → Type κ) (e : Event R) (p : Page R)
      → P (photos p)
      → P (taken e (photos p))
      → P (photos (step_page e p))
  unfolding step_page
  step_page-photos P e p kept gained =
      elim (Bool-cases (calls_back e || (offers e p.step && shown p p.step))) [
        | inl o ↦ rw o (subst P (sym (act-photos e p)) gained)
        | inr o ↦ rw o kept
      ]

  -- From a page whose photos are all different, events that hand over new photos lead to a page with no
  -- photo disposed of twice and the current photo not disposed of, and once it goes away, every photo
  -- that the first page had taken over is disposed of.
  pub Reaches-IsUnique :
      (p q : Page R)
      → Reaches p q
      → IsUnique (photos p)
      → IsUnique (photos q)
        × ((r : ℕ) → holds r (photos p) ≡ true → holds r (unmount q).disposed ≡ true)
  unfolding unmount
  Reaches-IsUnique p q here h = (h, λ r e. e)
  Reaches-IsUnique p _ (next e q new path) h =
      let (unique, kept) = Reaches-IsUnique p q path h in
      (
        step_page-photos IsUnique e q unique (taken-IsUnique e q new unique),
        λ r i.
            step_page-photos (λ xs. holds r xs ≡ true) e q (kept r i)
              (taken-holds e r (photos q) (kept r i)),
      )
