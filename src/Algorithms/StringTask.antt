-- ===== src/Algorithms/StringTask.antt =====
-- algorithms/codeforces_string_task.cpp: both versions of processString, on bytes below 128, where
-- std::tolower maps the letters A to Z to a to z and no other byte.
use scratch.Prelude.{
  ℕ, ◌+◌, ◌==◌, leb, Bool, true, false, ◌&&◌, ◌||◌, if◌then◌else◌, [], ◌∷◌, Bytes, ◌≡◌, refl, ap,
  ◌∙◌, arith,
}

abbrev pub tolower : ℕ → ℕ
tolower c = if leb b'A' c && leb c b'Z' then c + 32 else c

abbrev pub is_vowel : ℕ → Bool
is_vowel c = c == b'a' || c == b'e' || c == b'i' || c == b'o' || c == b'u' || c == b'y'

unfoldable pub process_string : Bytes → Bytes
process_string [] = []
process_string (c ∷ cs) =
    let rest = process_string cs in
    let lower = tolower c in if is_vowel lower then rest else b'.' ∷ lower ∷ rest

-- `is_vowel_table[c] = true`.
abbrev pub marked : ℕ → (ℕ → Bool) → ℕ → Bool
marked c table i = if i == c then true else table i

-- A row of the constructor: a letter and its capital.
abbrev pub marked_both : ℕ → ℕ → (ℕ → Bool) → ℕ → Bool
marked_both small capital table = marked small (marked capital table)

unfoldable pub is_vowel_table : ℕ → Bool
is_vowel_table = marked_both b'y' b'Y' (
    marked_both b'u' b'U' (
      marked_both b'o' b'O'
        (marked_both b'i' b'I' (marked_both b'e' b'E' (marked_both b'a' b'A' (λ i. false))))))

unfoldable pub process_string_optimized : Bytes → Bytes
unfolding is_vowel_table
process_string_optimized [] = []
process_string_optimized (c ∷ cs) =
    let rest = process_string_optimized cs in
    if is_vowel_table c then rest else b'.' ∷ tolower c ∷ rest

is_vowel-tolower : (c : ℕ) → is_vowel (tolower c) ≡ is_vowel_table c
unfolding is_vowel_table
is_vowel-tolower c = ground arith

-- Both versions make the same text.
pub process_string-optimized : (s : Bytes) → process_string s ≡ process_string_optimized s
unfolding process_string process_string_optimized
process_string-optimized [] = refl
process_string-optimized (c ∷ cs) =
    ap (λ b. if b then process_string cs else b'.' ∷ tolower c ∷ process_string cs)
      (is_vowel-tolower c)
    ∙ ap (λ r. if is_vowel_table c then r else b'.' ∷ tolower c ∷ r) (process_string-optimized cs)
