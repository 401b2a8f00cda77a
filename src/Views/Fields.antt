-- ===== src/Views/Fields.antt =====
-- The field loops of the parsers of whole messages: extract_fields of
-- feedhandler/src/parser/stringview_fix_parser.cpp, by positions, and extract_fields_optimized of
-- optimized_fix_parser.cpp, which is also extract_all_fields of repeating_group_parser.cpp, by
-- pointers. A pointer into the text is the text from there on. The fuel is the length of the text.
use scratch.Prelude.{
  ℕ, zero, suc, ◌+◌, ltb, ℤ, pos, ltb_ℤ, eqb_ℤ, List, [], ◌∷◌, Option, none, some, Bool, true,
  false, not, ◌&&◌, if◌then◌else◌, length, take, drop, Bytes,
}
use scratch.Number.Fast.{fast_atoi}
use scratch.Views.Split.{until, from_sep, find_char, find_or_end}

pub record Field : Type 0 where
  pub tag : ℤ
  pub value : Bytes

abbrev pub is_nil : Bytes → Bool
is_nil [] = true
is_nil (c ∷ cs) = false

-- Only positive tags are stored.
abbrev pub tagged : ℤ → Bytes → Option Field
tagged tag value = if ltb_ℤ (pos 0) tag then some (record { tag = tag; value = value }) else none

-- A field of extract_fields, split at the position of its first '='.
abbrev pub view_at : Option ℕ → Bytes → Option Field
view_at none field = none
view_at (some k) field =
    if ltb 0 k then tagged (fast_atoi (take k field)) (drop (k + 1) field) else none

unfoldable pub view_field : Bytes → Option Field
unfolding find_char
view_field field = if not (is_nil field) then view_at (find_char b'=' field) field else none

-- Appends a field to those stored behind it.
abbrev pub store : Option Field → List Field → List Field
store none fs = fs
store (some f) fs = f ∷ fs

abbrev pub stored : Option Field → ℕ → ℕ
stored none count = count
stored (some f) count = count + 1

-- extract_fields from a position of the message, with `count` fields stored before.
unfoldable pub extract_loop : ℕ → Bytes → ℕ → ℕ → ℕ → List Field
unfolding view_field find_char
extract_loop zero message position count max_fields = []
extract_loop (suc fuel) message position count max_fields =
    elim (ltb position (length message) && ltb count max_fields) [
      | true ↦
          let size = find_or_end b'|' (drop position message) in
          let found = view_field (take size (drop position message)) in
          store found
            (extract_loop fuel message (position + size + 1) (stored found count) max_fields)
      | false ↦ []
    ]

unfoldable pub extract_fields : Bytes → ℕ → List Field
unfolding extract_loop
extract_fields message max_fields = extract_loop (length message) message 0 0 max_fields

-- A field of extract_fields_optimized, split by a scan for '='.
unfoldable pub scanned_field : Bytes → Option Field
unfolding until from_sep
scanned_field field =
    if not (is_nil field) && not (is_nil (from_sep b'=' field)) && not (is_nil (until b'=' field))
    then tagged (fast_atoi (until b'=' field)) (drop 1 (from_sep b'=' field))
    else none

-- extract_fields_optimized from a pointer on.
unfoldable pub scan_loop : ℕ → Bytes → ℕ → ℕ → List Field
unfolding scanned_field until from_sep
scan_loop zero rest count max_fields = []
scan_loop (suc fuel) rest count max_fields = elim (not (is_nil rest) && ltb count max_fields) [
  | true ↦
      let found = scanned_field (until b'|' rest) in
      store found (scan_loop fuel (drop 1 (from_sep b'|' rest)) (stored found count) max_fields)
  | false ↦ []
]

unfoldable pub extract_fields_optimized : Bytes → ℕ → List Field
unfolding scan_loop
extract_fields_optimized message max_fields = scan_loop (length message) message 0 max_fields

unfoldable pub find_field : ℤ → List Field → Option Bytes
find_field tag [] = none
find_field tag (f ∷ fs) = if eqb_ℤ f.tag tag then some f.value else find_field tag fs
