-- ===== src/Views/Groups.antt =====
-- feedhandler/src/parser/repeating_group_parser.cpp: messages with repeating groups. Its Field,
-- extract_all_fields and find_first_field are, statement for statement, those of the other parsers.
use scratch.Prelude.{
  ℕ, zero, suc, ◌+◌, min, ℤ, pos, eqb_ℤ, List, [], ◌∷◌, ◌++◌, length, get_elem?, Option, none, some,
  if◌then◌else◌, Bytes,
}
use scratch.Number.Fast.{fast_atoi, fast_atof_fixed}
use scratch.Feed.Tick.{Tick, new_tick, is_valid}
use scratch.Views.Fields.{Field, extract_fields_optimized, find_field}
use scratch.Views.Lines.{for_lines}
use scratch.Views.Messages.{with_field, set_price, set_qty, set_side}

abbrev pub max_group_fields : ℕ
max_group_fields = 128

abbrev pub max_indices : ℕ
max_indices = 32

abbrev pub extract_all_fields : Bytes → ℕ → List Field
extract_all_fields message max_fields = extract_fields_optimized message max_fields

abbrev pub find_first_field : ℤ → List Field → Option Bytes
find_first_field tag fields = find_field tag fields

-- The indices of the fields with a tag, from index i on, with room for `room` more.
unfoldable pub find_all_fields : ℤ → ℕ → ℕ → List Field → List ℕ
find_all_fields tag zero i fields = []
find_all_fields tag (suc room) i [] = []
find_all_fields tag (suc room) i (f ∷ fs) =
    let others = find_all_fields tag room (i + 1) fs in
    let later = find_all_fields tag (suc room) (i + 1) fs in
    if eqb_ℤ f.tag tag then i ∷ others else later

-- The side of an MDEntryType: 0 is a bid, 1 an offer, all else a trade.
abbrev pub entry_side : ℤ → ℕ
entry_side entry_type =
    if eqb_ℤ entry_type (pos 0) then b'B' else if eqb_ℤ entry_type (pos 1) then b'S' else b'T'

abbrev pub set_entry_side : Bytes → Tick → Tick
set_entry_side v t = record t { side = entry_side (fast_atoi v) }

-- `if (field = first) … else if (field = second) …`.
abbrev pub with_either :
    Option Bytes → (Bytes → Tick → Tick) → Option Bytes → (Bytes → Tick → Tick) → Tick → Tick
with_either (some v) use_first second use_second t = use_first v t
with_either none use_first second use_second t = with_field second use_second t

abbrev pub push_valid : Tick → List Tick → List Tick
push_valid t ticks = if is_valid t then ticks ++ t ∷ [] else ticks

-- A message without groups.
unfoldable pub single_tick : List Field → Bytes → ℕ → Tick
unfolding find_field
single_tick fields symbol now =
    let t1 = record new_tick { symbol = symbol } in
    let t2 =
      with_either (find_first_field (pos 44) fields) set_price (find_first_field (pos 270) fields)
        set_price t1 in
    let t3 =
      with_either (find_first_field (pos 38) fields) set_qty (find_first_field (pos 271) fields)
        set_qty t2 in
    let t4 =
      with_either (find_first_field (pos 54) fields) set_side (find_first_field (pos 269) fields)
        set_entry_side t3 in
    record t4 { timestamp = now }

-- The value at an index; the indices that the source takes are those of fields.
abbrev pub value_of : Option Field → Bytes
value_of none = []
value_of (some f) = f.value

abbrev pub value_at : List Field → Option ℕ → Bytes
value_at fields none = []
value_at fields (some i) = value_of (get_elem? fields i)

-- The tick of an entry, from its type, price and size.
abbrev pub entry_tick : Bytes → Bytes → Bytes → Bytes → ℕ → Tick
entry_tick symbol type_value price_value size_value now = record new_tick {
  symbol = symbol;
  side = entry_side (fast_atoi type_value);
  price = fast_atof_fixed 10000 price_value;
  qty = fast_atoi size_value;
  timestamp = now;
}

-- The loop over the entries: round i of `n` more. `clock i` is the reading in round i.
module _ (clock : ℕ → ℕ) (fields : List Field) (symbol : Bytes)
    (type_indices price_indices size_indices : List ℕ) where
  unfoldable pub entry_loop : ℕ → ℕ → List Tick → List Tick
  entry_loop zero i ticks = ticks
  entry_loop (suc n) i ticks = entry_loop n (i + 1) (
      push_valid
        (entry_tick symbol (value_at fields (get_elem? type_indices i))
          (value_at fields (get_elem? price_indices i)) (value_at fields (get_elem? size_indices i))
          (clock i))
        ticks)

abbrev pub text_or_empty : Option Bytes → Bytes
text_or_empty none = []
text_or_empty (some v) = v

abbrev pub number_or_zero : Option Bytes → ℤ
number_or_zero none = pos 0
number_or_zero (some v) = fast_atoi v

-- NoMDEntries, or the number of entry types where it is absent or 0.
unfoldable pub count_entries : List Field → ℤ
unfolding find_field find_all_fields
count_entries fields =
    let given = number_or_zero (find_first_field (pos 268) fields) in
    if eqb_ℤ given (pos 0)
    then pos (length (find_all_fields (pos 269) max_indices 0 fields))
    else given

unfoldable pub ticks_of_fields : (ℕ → ℕ) → List Field → List Tick
unfolding find_field find_all_fields entry_loop single_tick count_entries
ticks_of_fields clock fields =
    let symbol = text_or_empty (find_first_field (pos 55) fields) in
    if eqb_ℤ (count_entries fields) (pos 0)
    then push_valid (single_tick fields symbol (clock 0)) []
    else let type_indices = find_all_fields (pos 269) max_indices 0 fields in
      let price_indices = find_all_fields (pos 270) max_indices 0 fields in
      let size_indices = find_all_fields (pos 271) max_indices 0 fields in
      entry_loop clock fields symbol type_indices price_indices size_indices
        (min (length type_indices) (min (length price_indices) (length size_indices))) 0 []

unfoldable pub parse_repeating_groups : (ℕ → ℕ) → Bytes → List Tick
unfolding extract_fields_optimized ticks_of_fields
parse_repeating_groups clock message =
    ticks_of_fields clock (extract_all_fields message max_group_fields)

-- The ticks of all lines; `clock n` is the clock of a line that starts with n ticks made.
unfoldable pub parse_buffer_with_repeating_groups : (ℕ → ℕ → ℕ) → Bytes → List Tick
unfolding for_lines parse_repeating_groups
parse_buffer_with_repeating_groups clock buffer =
    for_lines (λ message ticks. ticks ++ parse_repeating_groups (clock (length ticks)) message)
      buffer []
