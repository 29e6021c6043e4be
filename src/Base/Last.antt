-- ===== src/Base/Last.antt =====
-- The end of a list: `at(-1)` with `slice(0, -1)`, and `slice(-n)`.
use Prim.Native.Nat.{ℕ, zero, suc, ◌-◌, ◌≤◌}
use mathlib.Core.Path.{◌≡◌, refl, ap, ◌∙◌}
use mathlib.Core.List.{List, [], ◌∷◌, ◌++◌}
use mathlib.Core.Option.{Option, none, some, some-injective}
use native.Mathlib.Omega.{arith}
use portrait_booth.Base.Lists.{length, drop, All, length-drop}

module _ {ℓ} {A : Type ℓ} where
  abbrev pub with_head : A → Option (List A × A) → List A × A
  with_head x none = ([], x)
  with_head x (some p) = (x ∷ p.0, p.1)

  -- The last element, and the list before it.
  abbrev pub split_last : List A → Option (List A × A)
  split_last [] = none
  split_last (x ∷ xs) = some (with_head x (split_last xs))

  -- `slice(-n)`, for a positive `n`.
  abbrev pub take_last : ℕ → List A → List A
  take_last n xs = drop (length xs - n) xs

module _ {ℓ} {A : Type ℓ} where
  pub split_last-append : (xs : List A) (y : A) → split_last (xs ++ (y ∷ [])) ≡ some (xs, y)
  split_last-append [] y = refl
  split_last-append (x ∷ xs) y = rw (split_last-append xs y) refl

  with_head_lem :
      (x : A) (xs : List A) → let p = with_head x (split_last xs) in x ∷ xs ≡ p.0 ++ (p.1 ∷ [])
  with_head_lem x [] = refl
  with_head_lem x (y ∷ ys) = ap (λ zs. x ∷ zs) (with_head_lem y ys)

  -- A list that has a last element is one with that element behind it.
  pub split_last-some :
      (xs ys : List A) (y : A) → split_last xs ≡ some (ys, y) → xs ≡ ys ++ (y ∷ [])
  split_last-some [] ys y h = cc
  split_last-some (x ∷ xs) ys y h =
      with_head_lem x xs ∙ ap (λ p. p.0 ++ (p.1 ∷ [])) (some-injective _ _ h)

  pub All-drop {κ} : (P : A → Type κ) (n : ℕ) (xs : List A) → All P xs → All P (drop n xs)
  All-drop P zero xs h = h
  All-drop P (suc n) [] h = tt
  All-drop P (suc n) (x ∷ xs) (_, h) = All-drop P n xs h

  pub length-take_last : (n : ℕ) (xs : List A) → length (take_last n xs) ≤ n
  length-take_last n xs = omega (arith, length-drop (length xs - n) xs)
