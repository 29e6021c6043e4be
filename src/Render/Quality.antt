-- ===== src/Render/Quality.antt =====
-- frontend/src/render/final-artifact.ts: the errors of the renderer, and the search for a JPEG quality
-- whose file is small enough. A file is its bytes. `to_blob` is the canvas's encoder, which is not code
-- of the repository: it answers with no file where the encoder is not available.
pub mod Laws
use portrait_booth.Base.{
  ℕ, zero, suc, Bool, true, false, ◌||◌, Option, none, some, List, leb, if◌then◌else◌, length,
}
use portrait_booth.Number.{Number, ◌⊕◌, ◌⊖◌, number_ring}

-- The `kind` of a `RenderError`; `thrown` is an error of another class.
pub data RenderError : Type 0 where
  size_limit render_failed ppi_failed crop_out_of_bounds thrown : RenderError

pub data Rendered {ℓ} (A : Type ℓ) : Type ℓ where
  failed : RenderError → Rendered A
  rendered : A → Rendered A

infixl 20 ◌>>=◌
abbrev pub ◌>>=◌ {ℓ κ} : {A : Type ℓ} {B : Type κ} → Rendered A → (A → Rendered B) → Rendered B
failed e >>= f = failed e
rendered a >>= f = f a

abbrev pub quality_steps : ℕ
quality_steps = 10

-- A file that fits, with its quality; the quality is -1 before the first.
pub record Best {ℓ} (R : Type ℓ) : Type ℓ where
  pub blob : Option (List ℕ)
  pub quality : R

unfoldable pub try_floor : ℕ → List ℕ → Rendered (List ℕ)
try_floor max_bytes floor =
    if leb (length floor) max_bytes then rendered floor else failed size_limit

-- "encoder unavailable".
unfoldable pub encoded : Option (List ℕ) → Rendered (List ℕ)
encoded none = failed render_failed
encoded (some blob) = rendered blob

module _ {ℓ} {R : Type ℓ} ⦃n : Number R⦄ where
  abbrev pub min_quality : R
  min_quality = n.lit 4 1

  abbrev pub max_quality : R
  max_quality = n.lit 95 2

  abbrev pub quality_epsilon : R
  quality_epsilon = n.lit 5 3

  unfoldable pub encode : (R → Option (List ℕ)) → R → Rendered (List ℕ)
  unfolding encoded
  encode to_blob q = encoded (to_blob q)

  unfoldable pub keep_best : Best R → List ℕ → R → Best R
  keep_best best blob q =
      if n.lt best.quality q then record { blob = some blob; quality = q } else best

  -- The end of a round: the loop is left early where the interval is small.
  unfoldable pub finish_round : R → R → Best R → Rendered (Best R) → Rendered (Best R)
  finish_round lo hi best rest = if n.le (hi ⊖ lo) quality_epsilon then rendered best else rest

  -- The loop, with the rounds that are left.
  unfoldable pub search_loop : (R → Option (List ℕ)) → ℕ → ℕ → R → R → Best R → Rendered (Best R)
  unfolding encode keep_best finish_round
  search_loop to_blob max_bytes zero lo hi best = rendered best
  search_loop to_blob max_bytes (suc rounds) lo hi best = do
    let q = n.div (lo ⊕ hi) (n.lit 2 0)
    blob ← encode to_blob q
    let fits = leb (length blob) max_bytes
    let lo = if fits then q else lo
    let hi = if fits then hi else q
    let best = if fits then keep_best best blob q else best
    finish_round lo hi best (search_loop to_blob max_bytes rounds lo hi best)

  -- The end of the search: the best file, or the one of the lowest quality.
  unfoldable pub best_or_floor : (R → Option (List ℕ)) → ℕ → Option (List ℕ) → Rendered (List ℕ)
  unfolding encode try_floor
  best_or_floor to_blob max_bytes (some blob) = rendered blob
  best_or_floor to_blob max_bytes none = encode to_blob min_quality >>= try_floor max_bytes

  unfoldable pub search_quality : (R → Option (List ℕ)) → ℕ → Rendered (List ℕ)
  unfolding search_loop best_or_floor
  search_quality to_blob max_bytes = do
    best ←
        search_loop to_blob max_bytes quality_steps min_quality max_quality
          (record { blob = none; quality = n.ring.neg (n.lit 1 0) })
    best_or_floor to_blob max_bytes best.blob
