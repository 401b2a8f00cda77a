-- ===== src/Views/Naive.antt =====
-- feedhandler/src/parser/naive_fix_parser.cpp: NaiveFixParser. std::getline yields the pieces between
-- the bytes '|', but for a last empty one, and empty ones are skipped. The std::map is an association
-- list, of which only the entry at a key is asked. std::stod is a parameter, none where it throws.
use scratch.Prelude.{
  ℕ, ◌+◌, ◌*◌, ◌^◌, ◌==◌, ltb, leb, take, drop, ℤ, pos, sub_ℕ, ltb_ℤ, eqb_ℤ, List, [], ◌∷◌, Option,
  none, some, Bool, true, false, ◌&&◌, ◌||◌, if◌then◌else◌, Bytes,
}
use scratch.Doubles.{Doubles}
use scratch.Number.Fast.{is_digit, digit_to_int}
use scratch.Feed.Tick.{Tick, new_tick, fix_side_to_char, double_to_price}
use scratch.Views.Split.{split, find_char}
use scratch.Views.Fields.{Field, is_nil}
use scratch.Views.Messages.{with_field, set_symbol}

-- std::stoi: white space, a sign, digits; none where it throws, since there is no digit or the number
-- does not fit an int.
abbrev pub is_space : ℕ → Bool
is_space c = c == b' ' || (leb 9 c && leb c 13)

unfoldable pub leading_number : ℕ → Bytes → ℕ
unfolding is_digit digit_to_int
leading_number n [] = n
leading_number n (c ∷ cs) =
    let more = leading_number (n * 10 + digit_to_int c) cs in if is_digit c then more else n

abbrev pub int_of : Bool → ℕ → Option ℤ
int_of negative n =
    if negative
    then (if leb n (2 ^ 31) then some (sub_ℕ 0 n) else none)
    else (if ltb n (2 ^ 31) then some (pos n) else none)

unfoldable pub stoi_unsigned : Bool → Bytes → Option ℤ
unfolding is_digit leading_number
stoi_unsigned negative [] = none
stoi_unsigned negative (c ∷ cs) =
    if is_digit c then int_of negative (leading_number 0 (c ∷ cs)) else none

unfoldable pub stoi : Bytes → Option ℤ
unfolding stoi_unsigned
stoi [] = none
stoi (c ∷ cs) =
    let rest = stoi cs in
    if is_space c
    then rest
    else if c == b'-'
    then stoi_unsigned true cs
    else if c == b'+'
    then stoi_unsigned false cs
    else stoi_unsigned false (c ∷ cs)

abbrev pub or_else {ℓ} : {A : Type ℓ} → Option A → A → A
or_else none default_value = default_value
or_else (some x) default_value = x

unfoldable pub safe_stoi : Bytes → ℤ
unfolding stoi
safe_stoi str = or_else (stoi str) (pos 0)

-- `fields[tag] = value`.
unfoldable pub assign_field : Field → List Field → List Field
assign_field f [] = f ∷ []
assign_field f (g ∷ m) =
    let rest = assign_field f m in if eqb_ℤ g.tag f.tag then f ∷ m else g ∷ rest

-- `fields.find(tag)`, or its value.
unfoldable pub lookup : ℤ → List Field → Option Bytes
lookup tag [] = none
lookup tag (g ∷ m) = let rest = lookup tag m in if eqb_ℤ g.tag tag then some g.value else rest

abbrev pub with_separator : Option ℕ → Bytes → Option Field
with_separator none field = none
with_separator (some k) field =
    let tag = safe_stoi (take k field) in
    if ltb_ℤ (pos 0) tag then some (record { tag = tag; value = drop (k + 1) field }) else none

-- The field of a piece, if it makes one.
unfoldable pub naive_field : Bytes → Option Field
unfolding find_char safe_stoi
naive_field field = if is_nil field then none else with_separator (find_char b'=' field) field

abbrev pub put : Option Field → List Field → List Field
put none m = m
put (some f) m = assign_field f m

-- The loop over the pieces.
unfoldable pub naive_loop : List Bytes → List Field → List Field
unfolding naive_field assign_field
naive_loop [] m = m
naive_loop (p ∷ ps) m = naive_loop ps (put (naive_field p) m)

unfoldable pub naive_extract_fields : Bytes → List Field
unfolding naive_loop split
naive_extract_fields message = naive_loop (split b'|' message) []

module _ (d : Doubles) (stod : Bytes → Option (d.Double)) where
  abbrev pub safe_stod : Bytes → d.Double
  safe_stod str = or_else (stod str) d.zero_point

  abbrev pub naive_price : Bytes → Tick → Tick
  naive_price v t = record t { price = double_to_price d (safe_stod v) }

  abbrev pub naive_qty : Bytes → Tick → Tick
  naive_qty v t = record t { qty = safe_stoi v }

  abbrev pub naive_side : Bytes → Tick → Tick
  naive_side v t = record t { side = fix_side_to_char (safe_stoi v) }

  -- The tick of what the map holds at the four tags.
  abbrev pub naive_tick : (ℤ → Option Bytes) → ℕ → Tick
  naive_tick at now =
      let t1 = with_field (at (pos 55)) set_symbol new_tick in
      let t2 = with_field (at (pos 44)) naive_price t1 in
      let t3 = with_field (at (pos 38)) naive_qty t2 in
      let t4 = with_field (at (pos 54)) naive_side t3 in record t4 { timestamp = now }

  unfoldable pub naive_parse_message : Bytes → ℕ → Tick
  unfolding naive_extract_fields lookup
  naive_parse_message message now =
      let fields = naive_extract_fields message in naive_tick (λ tag. lookup tag fields) now

  -- The ticks of messages from the n-th on.
  unfoldable pub naive_parse_messages : (ℕ → ℕ) → ℕ → List Bytes → List Tick
  unfolding naive_parse_message
  naive_parse_messages clock n [] = []
  naive_parse_messages clock n (m ∷ ms) =
      naive_parse_message m (clock n) ∷ naive_parse_messages clock (n + 1) ms
