-- ===== src/Views/Lines.antt =====
-- The loop over the lines of a buffer in parse_messages_from_buffer of
-- feedhandler/src/parser/stringview_fix_parser.cpp and optimized_fix_parser.cpp and in
-- parse_buffer_with_repeating_groups of repeating_group_parser.cpp.
use scratch.Prelude.{
  ℕ, suc, ◌+◌, ◌-◌, ◌==◌, ltb, List, [], ◌∷◌, ◌++◌, append-nil, append_assoc, true, false, ◌||◌,
  if◌then◌else◌, length, length-append, take, drop, Bytes, ◌≡◌, refl, sym, ap, ◌∙◌, arith,
  Bool-cases, inl, inr,
}
use native.Mathlib.Nat.{suc-add}
use scratch.Views.Extract.{drop-add}
use scratch.Views.Split.{split, grow, until, from_sep, split-until}
use scratch.Views.Fields.{is_nil}

module _ {ℓ} {S : Type ℓ} (body : Bytes → S → S) where
  -- The bytes between two positions are a message, if there are any.
  abbrev pub taken : Bytes → ℕ → ℕ → S → S
  taken buffer start end s =
      if ltb start end then body (take (end - start) (drop start buffer)) s else s

  -- One round at the byte c.
  abbrev pub next_start : Bytes → ℕ → ℕ → ℕ → ℕ
  next_start buffer start position c =
      if c == b'\n' || position == length buffer - 1 then position + 1 else start

  abbrev pub next_state : Bytes → ℕ → ℕ → ℕ → S → S
  next_state buffer start position c s =
      if c == b'\n' || position == length buffer - 1
      then taken buffer start (if c == b'\n' then position else position + 1) s
      else s

  -- The loop at a position, with the bytes from there on; `body` takes each message.
  unfoldable pub line_loop : Bytes → ℕ → ℕ → Bytes → S → S
  line_loop buffer start position [] s = s
  line_loop buffer start position (c ∷ cs) s =
      line_loop buffer (next_start buffer start position c) (position + 1) cs
        (next_state buffer start position c s)

  unfoldable pub for_lines : Bytes → S → S
  unfolding line_loop
  for_lines buffer s = line_loop buffer 0 0 buffer s

  -- The body over the lines that are not empty.
  abbrev pub over_lines : List Bytes → S → S
  over_lines [] s = s
  over_lines (l ∷ ls) s = over_lines ls (if is_nil l then s else body l s)

  abbrev pub behind : Bytes → List Bytes → List Bytes
  behind line [] = []
  behind line (p ∷ ps) = (line ++ p) ∷ ps

  take_line : (line rest : Bytes) → take (length line) (line ++ rest) ≡ line
  take_line [] rest = refl
  take_line (c ∷ line) rest = ap (◌∷◌ c) (take_line line rest)

  taken_line :
      (buffer : Bytes) (start end : ℕ) (line rest : Bytes) (s : S)
      → end ≡ start + length line
      → drop start buffer ≡ line ++ rest
      → taken buffer start end s ≡ (if is_nil line then s else body line s)
  taken_line buffer start end [] rest s at here =
      ap (λ b. if b then body (take (end - start) (drop start buffer)) s else s)
        (let e : ltb start end ≡ false = ground arith in e)
  taken_line buffer start end (c ∷ line) rest s at here =
      let e : ltb start end ≡ true = ground arith in
      let n : end - start ≡ length (c ∷ line) = omega arith in
      rw (e, here, n) (ap (λ l. body (c ∷ l) s) (take_line line rest))

  drop_line :
      (line : Bytes) (c : ℕ) (rest : Bytes) → drop (length line + 1) (line ++ c ∷ rest) ≡ rest
  drop_line [] c rest = refl
  drop_line (x ∷ line) c rest = rw suc-add (drop_line line c rest)

  next_line :
      (buffer : Bytes) (start position : ℕ) (line : Bytes) (c : ℕ) (rest : Bytes)
      → position ≡ start + length line
      → drop start buffer ≡ line ++ c ∷ rest
      → drop (position + 1) buffer ≡ rest
  next_line buffer start position line c rest at here =
      ap (λ n. drop n buffer) (let e : position + 1 ≡ start + (length line + 1) = omega arith in e)
      ∙ drop-add start (length line + 1) buffer
      ∙ ap (drop (length line + 1)) here
      ∙ drop_line line c rest

  behind_nil : (ls : List Bytes) → behind [] ls ≡ ls
  behind_nil [] = refl
  behind_nil (l ∷ ls) = refl

  -- A byte that is no newline belongs to the line in front of it.
  behind-grow :
      (line : Bytes) (c : ℕ) (cs : Bytes)
      → behind line (grow c (split b'\n' cs)) ≡ behind (line ++ c ∷ []) (split b'\n' cs)
  behind-grow line c cs = rw (split-until b'\n' cs) (
      ap
        (λ l.
          l ∷ elim (from_sep b'\n' cs) as (λ _. List Bytes) [ [] ↦ [] | ◌∷◌ x r ↦ split b'\n' r ])
        (sym (append_assoc line (c ∷ []) (until b'\n' cs))))

  split_newline :
      (c : ℕ) (cs : Bytes) → (c == b'\n') ≡ true → split b'\n' (c ∷ cs) ≡ [] ∷ split b'\n' cs
  unfolding split
  split_newline c cs e = rw e refl

  split_other :
      (c : ℕ) (cs : Bytes) → (c == b'\n') ≡ false → split b'\n' (c ∷ cs) ≡ grow c (split b'\n' cs)
  unfolding split
  split_other c cs e = rw e refl

  last_line :
      (buffer : Bytes) (start position : ℕ) (line : Bytes) (c : ℕ) (s : S)
      → position ≡ start + length line
      → length buffer ≡ position + 1
      → drop start buffer ≡ line ++ c ∷ []
      → next_state buffer start position c s ≡ over_lines (behind line (split b'\n' (c ∷ []))) s
  unfolding split
  last_line buffer start position line c s at size here = elim (Bool-cases (c == b'\n')) [
    | inl newline ↦
        rw (newline, append-nil line) (taken_line buffer start position line (c ∷ []) s at here)
    | inr other ↦
        let e : (position == length buffer - 1) ≡ true = ground arith in
        rw (other, e)
          (taken_line buffer start (position + 1) (line ++ c ∷ []) [] s
            (omega (arith, length-append line (c ∷ []))) (here ∙ sym (append-nil (line ++ c ∷ []))))
  ]

  line_loop_lem :
      (buffer : Bytes) (start position : ℕ) (line : Bytes) (c : ℕ) (cs : Bytes) (s : S)
      → position ≡ start + length line
      → length buffer ≡ position + suc (length cs)
      → drop start buffer ≡ line ++ c ∷ cs
      → line_loop buffer start position (c ∷ cs) s
        ≡ over_lines (behind line (split b'\n' (c ∷ cs))) s
  unfolding line_loop
  line_loop_lem buffer start position line c [] s at size here =
      last_line buffer start position line c s at size here
  line_loop_lem buffer start position line c (c' ∷ cs) s at size here =
      elim (Bool-cases (c == b'\n')) [
        | inl newline ↦ rw newline (
            line_loop_lem buffer (position + 1) (position + 1) [] c' cs
              (taken buffer start position s) (omega arith) (omega arith)
              (next_line buffer start position line c (c' ∷ cs) at here)
            ∙ ap (λ ls. over_lines ls (taken buffer start position s))
                (behind_nil (split b'\n' (c' ∷ cs)))
            ∙ rw (split_newline c (c' ∷ cs) newline, append-nil line)
                (ap (over_lines (split b'\n' (c' ∷ cs)))
                  (taken_line buffer start position line (c ∷ c' ∷ cs) s at here)))
        | inr other ↦
            let e : (position == length buffer - 1) ≡ false = ground arith in
            rw (other, e)
              (line_loop_lem buffer start (position + 1) (line ++ c ∷ []) c' cs s
                  (omega (arith, length-append line (c ∷ []))) (omega arith)
                  (here ∙ sym (append_assoc line (c ∷ []) (c' ∷ cs)))
                ∙ ap (λ ls. over_lines ls s)
                    (sym (behind-grow line c (c' ∷ cs))
                      ∙ ap (behind line) (sym (split_other c (c' ∷ cs) other))))
      ]

  -- The loop hands each line of the buffer that is not empty to the body, in their order, the last
  -- one also where no newline ends it.
  pub for_lines-split :
      (buffer : Bytes) (s : S) → for_lines buffer s ≡ over_lines (split b'\n' buffer) s
  unfolding for_lines split
  for_lines-split [] s = refl
  for_lines-split (c ∷ cs) s =
      line_loop_lem (c ∷ cs) 0 0 [] c cs s (omega arith) (omega arith) refl
      ∙ ap (λ ls. over_lines ls s) (behind_nil (split b'\n' (c ∷ cs)))
