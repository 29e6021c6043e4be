-- ===== src/Render/Quality/Laws.antt =====
-- frontend/src/render/final-artifact.ts, `searchQuality`: the file fits, and one is found where there is one.
use portrait_booth.Base.{
  ℕ, zero, suc, ◌≤◌, ◌<◌, ◌≡◌, refl, subst, ◌⊎◌, inl, inr, Option, none, some, List, leb, leb→le,
  leb→lt, if◌then◌else◌, length, Bool-cases, Option-cases,
}
use portrait_booth.Number.{Number, ◌⊕◌, ◌⊖◌, number_ring}
use portrait_booth.Render.Quality.{
  ◌>>=◌, failed, size_limit, render_failed, Rendered, rendered, Best, encoded, encode, finish_round,
  keep_best, min_quality, max_quality, quality_steps, quality_epsilon, search_loop, try_floor,
  best_or_floor, search_quality,
}

-- Whatever the result gives has P.
abbrev pub Gives {ℓ κ} : {A : Type ℓ} → (A → Type κ) → Rendered A → Type κ
Gives P (failed e) = Unit
Gives P (rendered a) = P a

Gives-bind {ℓ κ ι θ} :
    {A : Type ℓ} {B : Type κ} (P : A → Type ι) (Q : B → Type θ) (m : Rendered A)
    (f : A → Rendered B)
    → Gives P m
    → ((a : A) → P a → Gives Q (f a))
    → Gives Q (m >>= f)
Gives-bind P Q (failed e) f p q = tt
Gives-bind P Q (rendered a) f p q = q a p

module _ {ℓ} {R : Type ℓ} ⦃n : Number R⦄ (to_blob : R → Option (List ℕ)) (max_bytes : ℕ) where
  encode-some : (q : R) (blob : List ℕ) → to_blob q ≡ some blob → encode to_blob q ≡ rendered blob
  unfolding encode encoded
  encode-some q blob e = rw (encode, e) refl

  encode-none : (q : R) → to_blob q ≡ none → encode to_blob q ≡ failed render_failed
  unfolding encode encoded
  encode-none q e = rw (encode, e) refl

  -- A file of the encoder that is small enough.
  abbrev pub IsFit : List ℕ → Type ℓ
  IsFit blob = (length blob ≤ max_bytes) × ((q : R) × (to_blob q ≡ some blob))

  abbrev IsGood : Option (List ℕ) → Type ℓ
  IsGood none = Unit
  IsGood (some blob) = IsFit blob

  finish_round-Gives {κ} :
      (P : Best R → Type κ) (lo hi : R) (best : Best R) (rest : Rendered (Best R))
      → P best
      → Gives P rest
      → Gives P (finish_round lo hi best rest)
  unfolding finish_round
  finish_round-Gives P lo hi best rest h hr = elim (Bool-cases (n.le (hi ⊖ lo) quality_epsilon)) [
    | inl e ↦ rw e h
    | inr e ↦ rw e hr
  ]

  abbrev GoodBest : Best R → Type ℓ
  GoodBest best = IsGood best.blob

  keep_best-GoodBest :
      (best : Best R) (blob : List ℕ) (q : R)
      → GoodBest best
      → IsFit blob
      → GoodBest (keep_best best blob q)
  unfolding keep_best
  keep_best-GoodBest best blob q h fit = elim (Bool-cases (n.lt best.quality q)) [
    | inl e ↦ rw e fit
    | inr e ↦ rw e h
  ]

  round-GoodBest :
      (best : Best R) (blob : List ℕ) (q : R)
      → GoodBest best
      → to_blob q ≡ some blob
      → GoodBest (if leb (length blob) max_bytes then keep_best best blob q else best)
  round-GoodBest best blob q h e = elim (Bool-cases (leb (length blob) max_bytes)) [
    | inl fits ↦ rw fits (keep_best-GoodBest best blob q h (leb→le _ _ fits, (q, e)))
    | inr fits ↦ rw fits h
  ]

  search_loop-GoodBest :
      (rounds : ℕ) (lo hi : R) (best : Best R)
      → GoodBest best
      → Gives GoodBest (search_loop to_blob max_bytes rounds lo hi best)
  unfolding search_loop
  search_loop-GoodBest zero lo hi best h = h
  search_loop-GoodBest (suc rounds) lo hi best h =
      let q = n.div (lo ⊕ hi) (n.lit 2 0) in
      elim (Option-cases (to_blob q)) [
        | inl e ↦ rw (encode-none q e) tt
        | inr (blob, e) ↦
            let good = round-GoodBest best blob q h e in
            rw (encode-some q blob e)
              (finish_round-Gives GoodBest _ _ _ _ good (search_loop-GoodBest rounds _ _ _ good))
      ]

  best_or_floor-IsFit :
      (best : Option (List ℕ)) → IsGood best → Gives IsFit (best_or_floor to_blob max_bytes best)
  unfolding best_or_floor try_floor
  best_or_floor-IsFit (some blob) h = h
  best_or_floor-IsFit none h = elim (Option-cases (to_blob min_quality)) [
    | inl e ↦ rw (encode-none _ e) tt
    | inr (floor, e) ↦ rw (encode-some _ floor e) (floor-IsFit floor e)
  ]
    where
      floor-IsFit :
          (floor : List ℕ)
          → to_blob min_quality ≡ some floor
          → Gives IsFit (try_floor max_bytes floor)
      floor-IsFit floor e = elim (Bool-cases (leb (length floor) max_bytes)) [
        | inl fits ↦ rw fits (leb→le _ _ fits, (min_quality, e))
        | inr fits ↦ rw fits tt
      ]

  start : Best R
  start = record { blob = none; quality = n.ring.neg (n.lit 1 0) }

  -- Whatever the encoder does, a file that the search gives fits.
  pub search_quality-IsFit :
      (blob : List ℕ) → search_quality to_blob max_bytes ≡ rendered blob → IsFit blob
  unfolding search_quality start
  search_quality-IsFit blob h = subst (Gives IsFit) h (
      Gives-bind GoodBest IsFit
        (search_loop to_blob max_bytes quality_steps min_quality max_quality start)
        (λ best. best_or_floor to_blob max_bytes best.blob)
        (search_loop-GoodBest quality_steps min_quality max_quality start tt)
        (λ best good. best_or_floor-IsFit best.blob good))

  -- An encoder that gives a file for each quality.
  abbrev pub IsTotal : Type ℓ
  IsTotal = (q : R) → (blob : List ℕ) × (to_blob q ≡ some blob)

  finish_round-rendered :
      (lo hi : R) (best : Best R) (rest : Rendered (Best R))
      → (last : Best R) × (rest ≡ rendered last)
      → (last : Best R) × (finish_round lo hi best rest ≡ rendered last)
  unfolding finish_round
  finish_round-rendered lo hi best rest h = elim (Bool-cases (n.le (hi ⊖ lo) quality_epsilon)) [
    | inl e ↦ rw e (best, refl)
    | inr e ↦ rw e h
  ]

  -- The loop gives its best file.
  search_loop-rendered :
      IsTotal
      → (rounds : ℕ) (lo hi : R) (best : Best R)
      → (last : Best R) × (search_loop to_blob max_bytes rounds lo hi best ≡ rendered last)
  unfolding search_loop
  search_loop-rendered total zero lo hi best = (best, refl)
  search_loop-rendered total (suc rounds) lo hi best =
      let q = n.div (lo ⊕ hi) (n.lit 2 0) in
      let (blob, e) = total q in
      rw (encode-some q blob e)
        (finish_round-rendered _ _ _ _ (search_loop-rendered total rounds _ _ _))

  floor_outcome :
      (best : Option (List ℕ)) (floor : List ℕ)
      → IsGood best
      → to_blob min_quality ≡ some floor
      → ((blob : List ℕ) × (best_or_floor to_blob max_bytes best ≡ rendered blob) × IsFit blob)
        ⊎ ((best_or_floor to_blob max_bytes best ≡ failed size_limit) × (max_bytes < length floor))
  unfolding best_or_floor try_floor
  floor_outcome (some blob) floor h e = inl (blob, refl, h)
  floor_outcome none floor h e = elim (Bool-cases (leb (length floor) max_bytes)) [
    | inl fits ↦
        rw (encode-some _ floor e, fits) (inl (floor, refl, (leb→le _ _ fits, (min_quality, e))))
    | inr fits ↦ rw (encode-some _ floor e, fits) (inr (refl, leb→lt _ _ fits))
  ]

  -- With an encoder that gives a file for each quality, the search gives a file of that encoder within
  -- the limit, or it reports the limit and the file of the lowest quality is over it.
  pub search_quality-outcome :
      IsTotal
      → (floor : List ℕ) → to_blob min_quality ≡ some floor
      → ((blob : List ℕ) × (search_quality to_blob max_bytes ≡ rendered blob) × IsFit blob)
        ⊎ ((search_quality to_blob max_bytes ≡ failed size_limit) × (max_bytes < length floor))
  unfolding search_quality start
  search_quality-outcome total floor e =
      let (last, ran) = search_loop-rendered total quality_steps min_quality max_quality start in
      let good =
        subst (Gives GoodBest) ran
          (search_loop-GoodBest quality_steps min_quality max_quality start tt) in
      rw ran (floor_outcome last.blob floor good e)
