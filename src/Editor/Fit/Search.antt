-- ===== src/Editor/Fit/Search.antt =====
-- frontend/src/editor/edit-transform.ts: what the two binary searches return.
use portrait_booth.Base.{
  ℕ, zero, suc, ◌≡◌, refl, ◌∙◌, ap, inl, inr, Bool, true, Option, some, if◌then◌else◌, >>=-eq-some,
  Bool-cases, arith,
}
use portrait_booth.Number.{Number, ◌⊖◌, number_ring}
use portrait_booth.Editor.Fit.{midpoint, clamp_search, scale_search}

module _ {ℓ} {R : Type ℓ} ⦃n : Number R⦄ where
  -- The search keeps a lower end that it has seen to be valid, or the one it began with.
  pub clamp_search-valid :
      (probe : R → Option Bool) (left : ℕ) (lo hi r : R)
      → clamp_search probe left lo hi ≡ some r
      → probe lo ≡ some true
      → probe r ≡ some true
  unfolding clamp_search
  clamp_search-valid probe zero lo hi r h start = ground arith
  clamp_search-valid probe (suc left) lo hi r h start =
      elim (Bool-cases (n.lt (n.lit 1 5) (hi ⊖ lo))) [
        | inr close ↦ ground arith
        | inl wide ↦
            let (inside, seen, rest) =
              >>=-eq-some (probe (midpoint lo hi))
                (λ inside.
                  clamp_search probe left (if inside then midpoint lo hi else lo)
                    (if inside then hi else midpoint lo hi))
                (rw wide at h) in
            elim (Bool-cases inside) [
              | inl yes' ↦
                  clamp_search-valid probe left (midpoint lo hi) hi r (rw yes' at rest)
                    (seen ∙ ap some yes')
              | inr no' ↦ clamp_search-valid probe left lo (midpoint lo hi) r (rw no' at rest) start
            ]
      ]

  -- So does the search for a scale, with its upper end.
  pub scale_search-valid :
      (at : R → Option Bool) (left : ℕ) (lo hi r : R)
      → scale_search at left lo hi ≡ some r
      → at hi ≡ some true
      → at r ≡ some true
  unfolding scale_search
  scale_search-valid at zero lo hi r h start = ground arith
  scale_search-valid at (suc left) lo hi r h start =
      elim (Bool-cases (n.lt (n.lit 1 4) (hi ⊖ lo))) [
        | inr close ↦ ground arith
        | inl wide ↦
            let (inside, seen, rest) =
              >>=-eq-some (at (midpoint lo hi))
                (λ inside.
                  scale_search at left (if inside then lo else midpoint lo hi)
                    (if inside then midpoint lo hi else hi))
                (rw wide at h) in
            elim (Bool-cases inside) [
              | inl yes' ↦
                  scale_search-valid at left lo (midpoint lo hi) r (rw yes' at rest)
                    (seen ∙ ap some yes')
              | inr no' ↦ scale_search-valid at left (midpoint lo hi) hi r (rw no' at rest) start
            ]
      ]

  -- The searches return where the test they make does.
  pub clamp_search-total :
      (probe : R → Option Bool) (left : ℕ) (lo hi : R)
      → ((k : R) → (v : Bool) × (probe k ≡ some v))
      → (r : R) × (clamp_search probe left lo hi ≡ some r)
  unfolding clamp_search
  clamp_search-total probe zero lo hi total = (lo, refl)
  clamp_search-total probe (suc left) lo hi total =
      let mid = midpoint lo hi in
      let (inside, seen) = total mid in
      elim (Bool-cases (n.lt (n.lit 1 5) (hi ⊖ lo))) [
        | inr close ↦ (lo, rw close refl)
        | inl wide ↦ rw wide (
            rw seen (
              clamp_search-total probe left (if inside then mid else lo)
                (if inside then hi else mid) total))
      ]

  pub scale_search-total :
      (P : R → Type ℓ) (at : R → Option Bool) (left : ℕ) (lo hi : R)
      → ((x y : R) → P x → P y → P (midpoint x y))
      → ((s : R) → P s → (v : Bool) × (at s ≡ some v))
      → P lo
      → P hi
      → (r : R) × (scale_search at left lo hi ≡ some r) × P r
  unfolding scale_search
  scale_search-total P at zero lo hi closed total plo phi = (hi, refl, phi)
  scale_search-total P at (suc left) lo hi closed total plo phi =
      let mid = midpoint lo hi in
      let pmid = closed lo hi plo phi in
      let (inside, seen) = total mid pmid in
      elim (Bool-cases (n.lt (n.lit 1 4) (hi ⊖ lo))) [
        | inr close ↦ (hi, rw close refl, phi)
        | inl wide ↦ rw wide (
            rw seen (elim (Bool-cases inside) [
              | inl yes' ↦ rw yes' (scale_search-total P at left lo mid closed total plo pmid)
              | inr no' ↦ rw no' (scale_search-total P at left mid hi closed total pmid phi)
            ]))
      ]
