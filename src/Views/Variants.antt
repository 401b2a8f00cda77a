-- ===== src/Views/Variants.antt =====
-- That the parsers of feedhandler/src/parser/stringview_fix_parser.cpp and optimized_fix_parser.cpp
-- read the same ticks out of every text.
use scratch.Prelude.{
  ℕ, ◌+◌, List, [], ◌∷◌, ◌++◌, append_assoc, append-nil, length, length-append, take, if◌then◌else◌,
  Bytes, ◌≡◌, sym, ap, ◌∙◌, Bool-cases, inl, inr,
}
use scratch.Feed.Tick.{Tick}
use scratch.Views.Split.{split}
use scratch.Views.Fields.{is_nil}
use scratch.Views.Extract.{fields_of, extract_fields-optimized}
use scratch.Views.Lines.{over_lines, for_lines-split}
use scratch.Views.Messages.{
  tick_of_fields, max_fields, parse_message, parse_message_optimized, parse_messages_from_buffer,
  parse_messages_from_buffer_optimized,
}

-- The tick that the first fields of a text make.
abbrev pub tick_of_text : Bytes → ℕ → Tick
tick_of_text message now = tick_of_fields (take max_fields (fields_of (split b'|' message))) now

-- The ticks of the lines that are not empty, from the n-th on.
abbrev pub ticks_of_lines : (ℕ → ℕ) → ℕ → List Bytes → List Tick
ticks_of_lines clock n [] = []
ticks_of_lines clock n (l ∷ ls) =
    if is_nil l
    then ticks_of_lines clock n ls
    else tick_of_text l (clock n) ∷ ticks_of_lines clock (n + 1) ls

pub parse_message-text :
    (message : Bytes) (now : ℕ) → parse_message message now ≡ tick_of_text message now
unfolding parse_message
parse_message-text message now =
    ap (λ fs. tick_of_fields fs now) (extract_fields-optimized message max_fields).0

pub parse_message_optimized-text :
    (message : Bytes) (now : ℕ) → parse_message_optimized message now ≡ tick_of_text message now
unfolding parse_message_optimized
parse_message_optimized-text message now =
    ap (λ fs. tick_of_fields fs now) (extract_fields-optimized message max_fields).1

module _ (clock : ℕ → ℕ) (parse : Bytes → ℕ → Tick)
    (text : (m : Bytes) (now : ℕ) → parse m now ≡ tick_of_text m now) where
  abbrev appended : Bytes → List Tick → List Tick
  appended message ticks = ticks ++ parse message (clock (length ticks)) ∷ []

  over_lines-ticks :
      (ls : List Bytes) (ticks : List Tick)
      → over_lines appended ls ticks ≡ ticks ++ ticks_of_lines clock (length ticks) ls
  over_lines-ticks [] ticks = sym (append-nil ticks)
  over_lines-ticks (l ∷ ls) ticks = elim (Bool-cases (is_nil l)) [
    | inl nothing ↦ rw nothing (over_lines-ticks ls ticks)
    | inr something ↦
        let t = tick_of_text l (clock (length ticks)) in
        rw (something, text l (clock (length ticks)))
          (over_lines-ticks ls (ticks ++ t ∷ [])
            ∙ append_assoc ticks (t ∷ []) (ticks_of_lines clock (length (ticks ++ t ∷ [])) ls)
            ∙ ap (λ n. ticks ++ t ∷ ticks_of_lines clock n ls) (length-append ticks (t ∷ [])))
  ]

-- Both parsers read the same ticks out of every buffer: one for each line that is not empty, in their
-- order, the last line also where no newline ends it. The tick is made of the first 32 fields of the
-- line, and each tag counts where it stands first among these.
pub parse_messages_from_buffer-optimized :
    (clock : ℕ → ℕ) (buffer : Bytes)
    → (parse_messages_from_buffer clock buffer ≡ ticks_of_lines clock 0 (split b'\n' buffer))
      × (parse_messages_from_buffer_optimized clock buffer
          ≡ ticks_of_lines clock 0 (split b'\n' buffer))
unfolding parse_messages_from_buffer parse_messages_from_buffer_optimized
parse_messages_from_buffer-optimized clock buffer = (
  for_lines-split (appended clock parse_message parse_message-text) buffer []
      ∙ over_lines-ticks clock parse_message parse_message-text (split b'\n' buffer) [],
  for_lines-split (appended clock parse_message_optimized parse_message_optimized-text) buffer []
      ∙ over_lines-ticks clock parse_message_optimized parse_message_optimized-text
          (split b'\n' buffer) [],
)
