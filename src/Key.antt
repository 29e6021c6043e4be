-- ===== src/Key.antt =====
-- frontend/src/lib/key.ts: the retrieval code that the user types. A text is the list of the codes of its
-- characters. `upper` is the `toUpperCase` of texts, which is not code of the repository.
pub mod Laws
mod Tests
use portrait_booth.Base.{
  ℕ, zero, suc, Bool, true, false, ◌&&◌, ◌||◌, List, [], ◌∷◌, ◌++◌, if◌then◌else◌, leb, ◌==◌,
  length, take, drop,
}

abbrev pub key_length : ℕ
key_length = 6

-- The pattern [A-Z0-9].
unfoldable pub is_allowed : ℕ → Bool
is_allowed ch = (leb 0x41 ch && leb ch 0x5a) || (leb 0x30 ch && leb ch 0x39)

-- The loop, with the number of characters that are still wanted. The test for the end comes after each
-- character, so it is never met with none wanted.
unfoldable pub key_chars : ℕ → List ℕ → List ℕ
unfolding is_allowed
key_chars zero raw = []
key_chars (suc wanted) [] = []
key_chars (suc wanted) (ch ∷ raw) =
    if is_allowed ch then ch ∷ key_chars wanted raw else key_chars (suc wanted) raw

unfoldable pub normalize_key_input : (List ℕ → List ℕ) → List ℕ → List ℕ
unfolding key_chars
normalize_key_input upper raw = key_chars key_length (upper raw)

-- Two groups of three with a blank between them.
unfoldable pub format_key_groups : List ℕ → List ℕ
format_key_groups key = if leb (length key) 3 then key else take 3 key ++ (0x20 ∷ drop 3 key)

unfoldable pub is_complete_key : List ℕ → Bool
is_complete_key key = length key == key_length
