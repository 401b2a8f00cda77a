-- ===== src/Views/Printed.antt =====
-- The fields that the loops of feedhandler/src/parser read out of a printed message.
use scratch.Prelude.{
  ℕ, ◌==◌, pos, ltb_ℤ, [], ◌∷◌, ◌++◌, append_assoc, some, true, false, Bytes, ◌≡◌, refl, sym, ap,
  ◌∙◌, arith, All,
}
use scratch.Number.Fast.{fast_atoi}
use scratch.Fsm.State.{is_tag_digit, is_delimiter}
use scratch.Fsm.Message.{tag_of, print, IsField}
use scratch.Fsm.Message
use scratch.Views.Split.{grow, split, until, from_sep}
use scratch.Views.Fields.{Field, scanned_field, store}
use scratch.Views.Extract.{fields_of}

abbrev Other : ℕ → ℕ → Type 0
Other sep c = (c == sep) ≡ false

until-Other : (sep : ℕ) (s rest : Bytes) → All (Other sep) s → until sep (s ++ sep ∷ rest) ≡ s
unfolding until
until-Other sep [] rest h = ground arith
until-Other sep (c ∷ s) rest h = ground (arith, until-Other sep s rest h.1)

from_sep-Other :
    (sep : ℕ) (s rest : Bytes) → All (Other sep) s → from_sep sep (s ++ sep ∷ rest) ≡ sep ∷ rest
unfolding from_sep
from_sep-Other sep [] rest h = ground arith
from_sep-Other sep (c ∷ s) rest h = ground (arith, from_sep-Other sep s rest h.1)

split-Other_then :
    (sep : ℕ) (s rest : Bytes)
    → All (Other sep) s
    → split sep (s ++ sep ∷ rest) ≡ s ∷ split sep rest
unfolding split
split-Other_then sep [] rest h = ground arith
split-Other_then sep (c ∷ s) rest h =
    rw (h.0, split) (ap (grow c) (split-Other_then sep s rest h.1))

digit-not_equals : (cs : Bytes) → All (λ c. is_tag_digit c ≡ true) cs → All (Other b'=') cs
digit-not_equals [] h = tt
digit-not_equals (c ∷ cs) h = (ground arith, digit-not_equals cs h.1)

digit-not_bar : (cs : Bytes) → All (λ c. is_tag_digit c ≡ true) cs → All (Other b'|') cs
digit-not_bar [] h = tt
digit-not_bar (c ∷ cs) h = (ground arith, digit-not_bar cs h.1)

plain-not_bar : (cs : Bytes) → All (λ c. is_delimiter c ≡ false) cs → All (Other b'|') cs
plain-not_bar [] h = tt
plain-not_bar (c ∷ cs) h = (ground arith, plain-not_bar cs h.1)

not_bar-append : (a b : Bytes) → All (Other b'|') a → All (Other b'|') b → All (Other b'|') (a ++ b)
not_bar-append [] b h k = k
not_bar-append (c ∷ a) b h k = (h.0, not_bar-append a b h.1 k)

-- The field that a printed field is read as.
abbrev pub seen : Message.Field → Field
seen f = record { tag = fast_atoi (tag_of f); value = f.value }

-- The text of a field, without its delimiter.
abbrev pub piece : Message.Field → Bytes
piece f = tag_of f ++ b'=' ∷ f.value

print-piece : (f : Message.Field) (rest : Bytes) → print f rest ≡ piece f ++ f.delimiter ∷ rest
print-piece f rest =
    ap (◌∷◌ f.first) (sym (append_assoc f.digits (b'=' ∷ f.value) (f.delimiter ∷ rest)))

piece-not_bar : (f : Message.Field) → IsField f → All (Other b'|') (piece f)
piece-not_bar f v =
    not_bar-append (tag_of f) (b'=' ∷ f.value)
      (digit-not_bar (tag_of f) (v.first_digit, v.other_digits))
      (refl, plain-not_bar f.value v.plain_value)

scanned_field-piece :
    (f : Message.Field)
    → IsField f
    → ltb_ℤ (pos 0) (fast_atoi (tag_of f)) ≡ true
    → scanned_field (piece f) ≡ some (seen f)
unfolding scanned_field
scanned_field-piece f v positive =
    let plain = digit-not_equals (tag_of f) (v.first_digit, v.other_digits) in
    rw
      (
        from_sep-Other b'=' (tag_of f) f.value plain,
        until-Other b'=' (tag_of f) f.value plain,
        positive,
      )
      refl

-- A field closed by '|' comes first.
pub fields_of-print :
    (f : Message.Field) (rest : Bytes)
    → IsField f
    → (f.delimiter == b'|') ≡ true
    → ltb_ℤ (pos 0) (fast_atoi (tag_of f)) ≡ true
    → fields_of (split b'|' (print f rest)) ≡ seen f ∷ fields_of (split b'|' rest)
fields_of-print f rest v bar positive =
    let e : f.delimiter ≡ b'|' = ground arith in
    ap (λ s. fields_of (split b'|' s)) (print-piece f rest ∙ ap (λ c. piece f ++ c ∷ rest) e)
    ∙ ap fields_of (split-Other_then b'|' (piece f) rest (piece-not_bar f v))
    ∙ ap (λ found. store found (fields_of (split b'|' rest))) (scanned_field-piece f v positive)
