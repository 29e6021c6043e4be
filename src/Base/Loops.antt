-- ===== src/Base/Loops.antt =====
-- The result of a `while` loop that is run on fuel.
use mathlib.Core.Path.{◌≡◌}

pub data Loop {ℓ} (A : Type ℓ) : Type ℓ where
  out_of_fuel : Loop A
  done : A → Loop A

-- The loop ended by itself.
abbrev pub Ends {ℓ} : {A : Type ℓ} → Loop A → Type ℓ
Ends {A = A} r = (a : A) × (r ≡ done a)

pub done-injective {ℓ} : {A : Type ℓ} (a b : A) → done a ≡ done b → a ≡ b
done-injective a b h = cc
