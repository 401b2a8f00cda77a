-- ===== src/Fsm/State.antt =====
-- feedhandler/include/parser/fsm_fix_parser.hpp and feedhandler/src/parser/fsm_fix_parser.cpp: the
-- streaming parser. The filled part of value_buffer_ and of tag_buffer_ is a list of bytes, whose
-- length is value_length_ or tag_length_. symbol_start_ and symbol_length_, which the source only
-- ever sets to 0, are left out.
use scratch.Prelude.{
  ℕ, ◌+◌, ◌==◌, ltb, leb, length, ℤ, pos, eqb_ℤ, List, [], ◌∷◌, ◌++◌, Bool, true, false, not, ◌&&◌,
  ◌||◌, if◌then◌else◌, Bytes,
}
use scratch.Doubles.{Doubles}
use scratch.Feed.Tick.{Tick, new_tick, copy_symbol, fix_side_to_char, double_to_price}
use scratch.Number.Fast.{fast_atoi, fast_atof_fixed}

pub data State : Type 0 where
  wait_tag read_tag wait_value read_value complete : State

pub record TickBuilder : Type 0 where
  pub symbol : Bytes
  pub price : ℤ
  pub qty : ℤ
  pub side : ℕ
  pub has_symbol : Bool
  pub has_price : Bool
  pub has_qty : Bool
  pub has_side : Bool

abbrev pub empty_builder : TickBuilder
empty_builder = record {
  symbol = [];
  price = pos 0;
  qty = pos 0;
  side = 0;
  has_symbol = false;
  has_price = false;
  has_qty = false;
  has_side = false;
}

abbrev pub is_complete : TickBuilder → Bool
is_complete b = b.has_symbol && b.has_price && b.has_qty && b.has_side

pub data RecoveryState : Type 0 where
  scanning found_8 found_equals found_f found_fi recovered : RecoveryState

pub record RecoveryStats : Type 0 where
  pub error_count : ℕ
  pub recovery_count : ℕ
  pub bytes_skipped : ℕ

abbrev zero_recovery_stats : RecoveryStats
zero_recovery_stats = record { error_count = 0; recovery_count = 0; bytes_skipped = 0 }

pub record Parser : Type 0 where
  pub state : State
  pub current_tag : ℤ
  pub value : Bytes
  pub tag : Bytes
  pub tick_builder : TickBuilder
  pub garbage_recovery_enabled : Bool
  pub recovery_stats : RecoveryStats
  pub recovery_state : RecoveryState

unfoldable pub new_parser : Parser
new_parser = record {
  state = wait_tag;
  current_tag = pos 0;
  value = [];
  tag = [];
  tick_builder = empty_builder;
  garbage_recovery_enabled = false;
  recovery_stats = zero_recovery_stats;
  recovery_state = scanning;
}

unfoldable pub reset : Parser → Parser
reset p = record p {
  state = wait_tag;
  current_tag = pos 0;
  value = [];
  tag = [];
  tick_builder = empty_builder;
  recovery_state = scanning;
}

unfoldable pub set_garbage_recovery : Bool → Parser → Parser
set_garbage_recovery enable p = record p { garbage_recovery_enabled = enable }

unfoldable pub reset_recovery_stats : Parser → Parser
reset_recovery_stats p = record p { recovery_stats = zero_recovery_stats }

abbrev is_wait_tag : State → Bool
is_wait_tag wait_tag = true
is_wait_tag _ = false

unfoldable pub is_parsing : Parser → Bool
is_parsing p = not (is_wait_tag p.state) || not (eqb_ℤ p.current_tag (pos 0))

abbrev pub is_tag_digit : ℕ → Bool
is_tag_digit c = leb b'0' c && leb c b'9'

abbrev pub is_delimiter : ℕ → Bool
is_delimiter c = c == b'|' || c == 1 || c == b'\n' || c == b'\r'

-- `sizeof(tag_buffer_) - 1`, `sizeof(value_buffer_) - 1`, and `sizeof(symbol_storage)`.
abbrev pub tag_limit : ℕ
tag_limit = 15

abbrev pub value_limit : ℕ
value_limit = 255

abbrev pub symbol_size : ℕ
symbol_size = 64

-- The first digit of a tag, in the states WAIT_TAG and COMPLETE.
abbrev start_tag : ℕ → Parser → Parser
start_tag c p = if is_tag_digit c then record p { tag = c ∷ []; state = read_tag } else p

-- `case State::READ_TAG`.
abbrev read_tag_char : ℕ → Parser → Parser
read_tag_char c p =
    if is_tag_digit c
    then (if ltb (length p.tag) tag_limit then record p { tag = p.tag ++ c ∷ [] } else p)
    else if c == b'='
    then record p { current_tag = fast_atoi p.tag; value = []; state = read_value }
    else record p { state = wait_tag; current_tag = pos 0; tag = [] }

module _ (d : Doubles) where
  -- The value of tag 44: to fixed point, to double, and back with rounding.
  abbrev pub price_of : Bytes → ℤ
  price_of v = double_to_price d (d.div (d.of_int64 (fast_atof_fixed 10000 v)) d.ten_thousand)

  -- The switch over the tags that fill the tick, on the value of the field.
  unfoldable pub assign : ℤ → Bytes → TickBuilder → TickBuilder
  assign tag v b =
      if eqb_ℤ tag (pos 38)
      then record b { qty = fast_atoi v; has_qty = true }
      else if eqb_ℤ tag (pos 44)
      then record b { price = price_of v; has_price = true }
      else if eqb_ℤ tag (pos 54)
      then record b { side = fix_side_to_char (fast_atoi v); has_side = true }
      else if eqb_ℤ tag (pos 55)
      then (if ltb (length v) symbol_size then record b { symbol = v; has_symbol = true } else b)
      else b

  -- The end of a value: the field is assigned, or the checksum ends the message.
  unfoldable pub end_field : ℕ → Parser → Parser × Bool
  end_field c p =
      if eqb_ℤ p.current_tag (pos 10)
      then (record p { state = complete; current_tag = pos 0 }, true)
      else let b = assign p.current_tag p.value p.tick_builder in
        let q = record p { tick_builder = b; current_tag = pos 0; value = []; state = wait_tag } in
        if c == b'\n' && is_complete b then (record q { state = complete }, true) else (q, false)

  -- `case State::READ_VALUE`.
  abbrev pub read_value_char : ℕ → Parser → Parser × Bool
  read_value_char c p = if is_delimiter c then end_field c p else (
    if ltb (length p.value) value_limit then record p { value = p.value ++ c ∷ [] } else p,
    false,
  )

  unfoldable pub process_char_in : State → ℕ → Parser → Parser × Bool
  process_char_in wait_tag c p = (start_tag c p, false)
  process_char_in read_tag c p = (read_tag_char c p, false)
  process_char_in wait_value c p = read_value_char c (record p { state = read_value })
  process_char_in read_value c p = read_value_char c p
  process_char_in complete c p =
      (start_tag c (record p { state = wait_tag; current_tag = pos 0 }), false)

  abbrev pub process_char : ℕ → Parser → Parser × Bool
  process_char c p = process_char_in p.state c p

abbrev pub finalize_message : Parser → Parser
finalize_message p = record p { state = wait_tag }

-- The tick of a complete message, with the time at which it is made.
abbrev pub tick_of : TickBuilder → ℕ → Tick
tick_of b now = record (copy_symbol b.symbol new_tick) {
  price = b.price;
  qty = b.qty;
  side = b.side;
  timestamp = now;
}

-- `clock n` is the reading of the clock when the output holds n ticks.
module _ (d : Doubles) (clock : ℕ → ℕ) where
  -- The body of the loop of `parse`.
  unfoldable pub parse_char : ℕ → Parser × List Tick → Parser × List Tick
  parse_char c (p, ticks) =
      let (q, done) = process_char d c p in
      if not done then (q, ticks) else (
        record (finalize_message q) { tick_builder = empty_builder },
        if is_complete q.tick_builder
            then ticks ++ tick_of q.tick_builder (clock (length ticks)) ∷ []
            else ticks,
      )

  -- The loop of `parse` from byte i; `consumed` is its last value.
  unfoldable pub parse_loop : ℕ → ℕ → Bytes → Parser × List Tick → (Parser × List Tick) × ℕ
  parse_loop i consumed [] s = (s, consumed)
  parse_loop i consumed (c ∷ cs) s = parse_loop (i + 1) (i + 1) cs (parse_char c s)

  unfoldable pub parse : Bytes → Parser × List Tick → (Parser × List Tick) × ℕ
  parse buffer s = parse_loop 0 0 buffer s
