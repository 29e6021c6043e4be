-- ===== src/Key/Laws.antt =====
-- frontend/src/lib/key.ts: what a normalized code is, and that its groups are read back.
use portrait_booth.Base.{
  ℕ, zero, suc, ◌≤◌, ◌≡◌, refl, ap, ◌∙◌, inl, inr, true, List, [], ◌∷◌, ◌++◌, leb, length, take,
  drop, All, Bool-cases, arith,
}
use portrait_booth.Key.{key_length, is_allowed, key_chars, normalize_key_input, format_key_groups}

key_chars-allowed :
    (wanted : ℕ) (raw : List ℕ) → All (λ ch. is_allowed ch ≡ true) (key_chars wanted raw)
unfolding key_chars
key_chars-allowed zero raw = tt
key_chars-allowed (suc wanted) [] = tt
key_chars-allowed (suc wanted) (ch ∷ raw) = elim (Bool-cases (is_allowed ch)) [
  | inl e ↦ rw e (e, key_chars-allowed wanted raw)
  | inr e ↦ rw e (key_chars-allowed (suc wanted) raw)
]

length-key_chars : (wanted : ℕ) (raw : List ℕ) → length (key_chars wanted raw) ≤ wanted
unfolding key_chars
length-key_chars zero raw = omega arith
length-key_chars (suc wanted) [] = omega arith
length-key_chars (suc wanted) (ch ∷ raw) =
    ground (arith, length-key_chars wanted raw, length-key_chars (suc wanted) raw)

-- Allowed characters that are not too many stay.
key_chars-kept :
    (wanted : ℕ) (key : List ℕ)
    → length key ≤ wanted
    → All (λ ch. is_allowed ch ≡ true) key
    → key_chars wanted key ≡ key
unfolding key_chars
key_chars-kept zero [] short ok = refl
key_chars-kept zero (ch ∷ key) short ok = absurd (omega arith)
key_chars-kept (suc wanted) [] short ok = refl
key_chars-kept (suc wanted) (ch ∷ key) short ok =
    rw ok.0 (ap (λ r. ch ∷ r) (key_chars-kept wanted key (omega arith) ok.1))

-- A blank between characters is skipped.
key_chars-blank :
    (wanted k : ℕ) (key : List ℕ)
    → length key ≤ wanted
    → All (λ ch. is_allowed ch ≡ true) key
    → key_chars wanted (take k key ++ (0x20 ∷ drop k key)) ≡ key
unfolding key_chars is_allowed
key_chars-blank zero zero [] short ok = refl
key_chars-blank (suc wanted) zero key short ok = key_chars-kept (suc wanted) key short ok
key_chars-blank zero (suc k) [] short ok = refl
key_chars-blank (suc wanted) (suc k) [] short ok = refl
key_chars-blank zero k (ch ∷ key) short ok = absurd (omega arith)
key_chars-blank (suc wanted) (suc k) (ch ∷ key) short ok =
    rw ok.0 (ap (λ r. ch ∷ r) (key_chars-blank wanted k key (omega arith) ok.1))

format_key_groups-read :
    (key : List ℕ)
    → length key ≤ key_length
    → All (λ ch. is_allowed ch ≡ true) key
    → key_chars key_length (format_key_groups key) ≡ key
unfolding format_key_groups
format_key_groups-read key short ok = elim (Bool-cases (leb (length key) 3)) [
  | inl e ↦ rw e (key_chars-kept key_length key short ok)
  | inr e ↦ rw e (key_chars-blank key_length 3 key short ok)
]

-- A normalized code has at most six characters, each an upper-case letter or a digit; and where
-- `toUpperCase` leaves its display in groups as it is, normalizing that display gives the code again.
pub normalize_key_input-format :
    (upper : List ℕ → List ℕ) (raw : List ℕ)
    → let key = normalize_key_input upper raw in
      upper (format_key_groups key) ≡ format_key_groups key
      → (length key ≤ key_length)
        × All (λ ch. is_allowed ch ≡ true) key
        × (normalize_key_input upper (format_key_groups key) ≡ key)
unfolding normalize_key_input
normalize_key_input-format upper raw same =
    let short = length-key_chars key_length (upper raw) in
    let ok = key_chars-allowed key_length (upper raw) in
    (short, ok, ap (key_chars key_length) same ∙ format_key_groups-read _ short ok)
