-- ===== src/Algorithms/Examples.antt =====
-- Runs of the number texts of algorithms/.
use scratch.Prelude.{Bytes, [], ◌∷◌, true, ◌≡◌, refl, negsuc}
use scratch.Algorithms.ValidNumber.{is_number, run_from}
use scratch.Algorithms.Numeral.{is_numeral, is_number-is_numeral}
use scratch.Algorithms.Atoi.{my_atoi, skip_spaces, digit_loop}

-- -.9e+1
abbrev text : Bytes
text = b'-' ∷ b'.' ∷ b'9' ∷ b'e' ∷ b'+' ∷ b'1' ∷ []

text-is_number : is_number text ≡ true
unfolding is_number run_from
text-is_number = refl

is_number-is_numeral_example : is_number text ≡ is_numeral text
is_number-is_numeral_example = is_number-is_numeral text

-- Two spaces and -42x.
abbrev spaced : Bytes
spaced = b' ' ∷ b' ' ∷ b'-' ∷ b'4' ∷ b'2' ∷ b'x' ∷ []

spaced_value : my_atoi spaced ≡ negsuc 41
unfolding my_atoi skip_spaces digit_loop
spaced_value = refl
