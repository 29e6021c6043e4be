-- ===== src/Key/Tests.antt =====
-- frontend/src/lib/key.ts on "ab-12".
use portrait_booth.Base.{
  ℕ, ◌≤◌, ◌≡◌, refl, ◌&&◌, true, false, if◌then◌else◌, List, [], ◌∷◌, map, leb, length, All, ◌-◌,
}
use portrait_booth.Key.{
  key_length, is_allowed, normalize_key_input, format_key_groups, is_complete_key,
}
use portrait_booth.Key.Laws.{normalize_key_input-format}

-- `toUpperCase` on ASCII letters.
abbrev upper : List ℕ → List ℕ
upper raw = map (λ ch. if leb 0x61 ch && leb ch 0x7a then ch - 32 else ch) raw

abbrev raw : List ℕ
raw = 0x61 ∷ 0x62 ∷ 0x2d ∷ 0x31 ∷ 0x32 ∷ []

grouped :
    upper (format_key_groups (normalize_key_input upper raw))
    ≡ format_key_groups (normalize_key_input upper raw)
unfolding format_key_groups normalize_key_input
grouped = refl

incomplete : is_complete_key (normalize_key_input upper raw) ≡ false
unfolding is_complete_key normalize_key_input
incomplete = refl

normalize_key_input-format_example :
    (length (normalize_key_input upper raw) ≤ key_length)
    × All (λ ch. is_allowed ch ≡ true) (normalize_key_input upper raw)
    × (normalize_key_input upper (format_key_groups (normalize_key_input upper raw))
        ≡ normalize_key_input upper raw)
normalize_key_input-format_example = normalize_key_input-format upper raw grouped
