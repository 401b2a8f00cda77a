-- ===== src/Views/Split.antt =====
-- A text cut at a byte, the description that the field and line loops of the parsers of
-- feedhandler/src/parser are held against, and the search for a byte.
use scratch.Prelude.{
  ℕ, suc, ◌≤◌, ◌==◌, List, [], ◌∷◌, Option, none, some, if◌then◌else◌, length, take, drop, Bytes,
  ◌≡◌, refl, arith,
}

-- In front of the first piece of a text.
abbrev pub grow : ℕ → List Bytes → List Bytes
grow c [] = (c ∷ []) ∷ []
grow c (p ∷ ps) = (c ∷ p) ∷ ps

-- The pieces between the bytes `sep`, empty ones included.
unfoldable pub split : ℕ → Bytes → List Bytes
split sep [] = [] ∷ []
split sep (c ∷ cs) = let rest = split sep cs in if c == sep then [] ∷ rest else grow c rest

-- The bytes in front of the first `sep`, and those from it on.
unfoldable pub until : ℕ → Bytes → Bytes
until sep [] = []
until sep (c ∷ cs) = let rest = until sep cs in if c == sep then [] else c ∷ rest

unfoldable pub from_sep : ℕ → Bytes → Bytes
from_sep sep [] = []
from_sep sep (c ∷ cs) = let rest = from_sep sep cs in if c == sep then c ∷ cs else rest

abbrev pub one_later : Option ℕ → Option ℕ
one_later none = none
one_later (some i) = some (suc i)

-- The position of the first `sep`: std::string_view::find.
unfoldable pub find_char : ℕ → Bytes → Option ℕ
find_char sep [] = none
find_char sep (c ∷ cs) =
    let later = one_later (find_char sep cs) in if c == sep then some 0 else later

abbrev pub find_or_end : ℕ → Bytes → ℕ
find_or_end sep s = elim (find_char sep s) [ none ↦ length s | some i ↦ i ]

pub take-find : (sep : ℕ) (s : Bytes) → take (find_or_end sep s) s ≡ until sep s
unfolding find_char until
take-find sep [] = refl
take-find sep (c ∷ cs) = ground (arith, take-find sep cs)

pub drop-find : (sep : ℕ) (s : Bytes) → drop (find_or_end sep s) s ≡ from_sep sep s
unfolding find_char from_sep
drop-find sep [] = refl
drop-find sep (c ∷ cs) = ground (arith, drop-find sep cs)

pub length-from_sep : (sep : ℕ) (s : Bytes) → length (from_sep sep s) ≤ length s
unfolding from_sep
length-from_sep sep [] = omega arith
length-from_sep sep (c ∷ cs) = ground (arith, length-from_sep sep cs)

-- A text is its first piece and, behind a separator, the rest.
pub split-until :
    (sep : ℕ) (s : Bytes)
    → split sep s
      ≡ until sep s ∷ elim (from_sep sep s) as (λ _. List Bytes) [ [] ↦ [] | ◌∷◌ c r ↦ split sep r ]
unfolding split until from_sep
split-until sep [] = refl
split-until sep (c ∷ cs) = ground (arith, split-until sep cs)
