-- ===== src/Simd/Fields.antt =====
-- The loop over the delimiters of feedhandler/src/parser/simd_fix_parser.cpp against a machine that
-- takes one byte at a time.
use scratch.Prelude.{
  ℕ, ◌+◌, ◌-◌, ◌≤◌, ◌<◌, ◌==◌, leb, List, [], ◌∷◌, ◌++◌, append_assoc, append-nil, Bool, true,
  false, ◌&&◌, not, Option, none, some, if◌then◌else◌, length, length-append, take, drop, Bytes,
  ◌≡◌, refl, sym, ap, ◌∙◌, arith, Bool-cases, Option-cases, inl, inr,
}
use scratch.Doubles.{Doubles}
use scratch.Views.Split.{find_char}
use scratch.Views.Fields.{is_nil}
use scratch.Views.Extract.{drop-add}
use scratch.Simd.Delimiters.{remaining_bytes}
use scratch.Simd.Parser.{soh, Run, on_field, field_at, with_eq, field_loop}

take_front : (xs ys : Bytes) → take (length xs) (xs ++ ys) ≡ xs
take_front [] ys = refl
take_front (x ∷ xs) ys = ap (◌∷◌ x) (take_front xs ys)

-- A delimiter ends a field, unless the field is empty: then it begins the field.
abbrev pub ends : Bytes → ℕ → Bool
ends field c = c == soh && not (is_nil field)

-- The bytes behind the last field with a '='.
abbrev pub keep : Option ℕ → Bytes → Bytes
keep none kept = kept
keep (some k) kept = []

abbrev next_kept : Bytes → Bytes → ℕ → Bytes
next_kept kept field c =
    if ends field c then keep (find_char b'=' field) (kept ++ c ∷ []) else kept ++ c ∷ []

unfoldable pub keep_bytes : Bytes → Bytes → Bytes → Bytes
keep_bytes kept field [] = kept
keep_bytes kept field (c ∷ cs) =
    keep_bytes (next_kept kept field c) (if ends field c then [] else field ++ c ∷ []) cs

-- Where the loop stands: at position i of the text, with the open field and the bytes kept.
pub record Here (text : Bytes) (i start processed : ℕ) (field kept cs : Bytes) : Type 0 where
  pub rest : drop i text ≡ cs
  pub open_field : drop start text ≡ field ++ cs
  pub unread : drop processed text ≡ kept ++ cs
  pub field_size : i ≡ start + length field
  pub kept_size : i ≡ processed + length kept
  pub size : length text ≡ i + length cs

module _ (text : Bytes) (i start processed : ℕ) (field kept : Bytes) (c : ℕ) (cs : Bytes) where
  next_rest : drop i text ≡ c ∷ cs → drop (i + 1) text ≡ cs
  next_rest h = drop-add i 1 text ∙ ap (drop 1) h

  Here-grow :
      Here text i start processed field kept (c ∷ cs)
      → Here text (i + 1) start processed (field ++ c ∷ []) (kept ++ c ∷ []) cs
  Here-grow h = record {
    rest = next_rest h.rest;
    open_field = h.open_field ∙ sym (append_assoc field (c ∷ []) cs);
    unread = h.unread ∙ sym (append_assoc kept (c ∷ []) cs);
    field_size = omega (arith, length-append field (c ∷ []), h.field_size);
    kept_size = omega (arith, length-append kept (c ∷ []), h.kept_size);
    size = omega (arith, h.size);
  }

  Here-skip :
      Here text i start processed field kept (c ∷ cs)
      → Here text (i + 1) (i + 1) processed [] (kept ++ c ∷ []) cs
  Here-skip h = record {
    rest = next_rest h.rest;
    open_field = next_rest h.rest;
    unread = h.unread ∙ sym (append_assoc kept (c ∷ []) cs);
    field_size = omega arith;
    kept_size = omega (arith, length-append kept (c ∷ []), h.kept_size);
    size = omega (arith, h.size);
  }

  Here-process :
      Here text i start processed field kept (c ∷ cs) → Here text (i + 1) (i + 1) (i + 1) [] [] cs
  Here-process h = record {
    rest = next_rest h.rest;
    open_field = next_rest h.rest;
    unread = next_rest h.rest;
    field_size = omega arith;
    kept_size = omega arith;
    size = omega (arith, h.size);
  }

  -- The bytes between the two positions are the open field.
  field_at_lem : Here text i start processed field kept (c ∷ cs) → field_at text i start ≡ field
  field_at_lem h =
      let n : i - start ≡ length field = omega (arith, h.field_size) in
      rw (n, h.open_field) (take_front field (c ∷ cs))

ends_parts :
    (field : Bytes) (c : ℕ) → ends field c ≡ true → ((c == soh) ≡ true) × (0 < length field)
ends_parts [] c e = ground arith
ends_parts (f ∷ field) c e = ground arith

ends_not : (field : Bytes) (c : ℕ) → ends field c ≡ false → (c == soh) ≡ true → length field ≡ 0
ends_not [] c e s = refl
ends_not (f ∷ field) c e s = ground arith

-- One step of each loop, by what the byte does.
module _ (i c : ℕ) (cs : Bytes) where
  remaining_bytes-soh :
      (c == soh) ≡ true → remaining_bytes soh i (c ∷ cs) ≡ i ∷ remaining_bytes soh (i + 1) cs
  unfolding remaining_bytes
  remaining_bytes-soh e = rw e refl

  remaining_bytes_other :
      (c == soh) ≡ false → remaining_bytes soh i (c ∷ cs) ≡ remaining_bytes soh (i + 1) cs
  unfolding remaining_bytes
  remaining_bytes_other e = rw e refl

module _ (kept field : Bytes) (c : ℕ) (cs : Bytes) where
  pub keep_bytes_grows :
      ends field c ≡ false
      → keep_bytes kept field (c ∷ cs) ≡ keep_bytes (kept ++ c ∷ []) (field ++ c ∷ []) cs
  unfolding keep_bytes
  keep_bytes_grows e = rw e refl

  pub keep_bytes-ends :
      ends field c ≡ true
      → keep_bytes kept field (c ∷ cs)
        ≡ keep_bytes (keep (find_char b'=' field) (kept ++ c ∷ [])) [] cs
  unfolding keep_bytes
  keep_bytes-ends e = rw e refl

module _ (d : Doubles) (ten : d.Double) (negate : d.Double → d.Double) where
  module _ (clock : ℕ → ℕ) (shown : Bytes → Bytes) where
    -- The field that the bytes leave open, and the run.
    unfoldable pub feed : Bytes → Bytes → Run → Bytes × Run
    feed field [] r = (field, r)
    feed field (c ∷ cs) r =
        feed (if ends field c then [] else field ++ c ∷ []) cs
          (if ends field c then on_field d ten negate clock shown field r else r)

    pub feed-append :
        (field xs ys : Bytes) (r : Run)
        → feed field (xs ++ ys) r ≡ feed ((feed field xs r).0) ys ((feed field xs r).1)
    unfolding feed
    feed-append field [] ys r = refl
    feed-append field (x ∷ xs) ys r =
        feed-append (if ends field x then [] else field ++ x ∷ []) xs ys
          (if ends field x then on_field d ten negate clock shown field r else r)

    module _ (field : Bytes) (c : ℕ) (cs : Bytes) (r : Run) where
      pub feed_grows : ends field c ≡ false → feed field (c ∷ cs) r ≡ feed (field ++ c ∷ []) cs r
      unfolding feed
      feed_grows e = rw e refl

      pub feed-ends :
          ends field c ≡ true
          → feed field (c ∷ cs) r ≡ feed [] cs (on_field d ten negate clock shown field r)
      unfolding feed
      feed-ends e = rw e refl

    module _ (text : Bytes) (i : ℕ) (positions : List ℕ) (start processed : ℕ) (r : Run) where
      field_loop_empty :
          leb i start ≡ true
          → field_loop d ten negate clock shown text (i ∷ positions) start processed r
            ≡ field_loop d ten negate clock shown text positions start processed r
      unfolding field_loop
      field_loop_empty e = rw e refl

      field_loop_field :
          (field : Bytes)
          → leb i start ≡ false
          → field_at text i start ≡ field
          → field_loop d ten negate clock shown text (i ∷ positions) start processed r
            ≡ field_loop d ten negate clock shown text positions
                (i + 1)
                (with_eq (find_char b'=' field) i processed)
                (on_field d ten negate clock shown field r)
      unfolding field_loop
      field_loop_field field e m = rw (e, m) refl

    abbrev pub FedBy : Bytes → ℕ × Run → Bytes → Bytes → Bytes → Run → Type 0
    FedBy text out field kept cs r =
        (out.1 ≡ (feed field cs r).1)
        × (drop (out.0) text ≡ keep_bytes kept field cs)
        × (out.0 ≤ length text)

    FedBy-done :
        (text : Bytes) (i start processed : ℕ) (field kept : Bytes) (r : Run)
        → Here text i start processed field kept []
        → FedBy text
            (field_loop d ten negate clock shown text (remaining_bytes soh i []) start processed r)
            field
            kept
            []
            r
    unfolding field_loop feed keep_bytes remaining_bytes
    FedBy-done text i start processed field kept r h =
        (refl, h.unread ∙ append-nil kept, omega (arith, h.kept_size, h.size))

    pub field_loop_lem :
        (text : Bytes) (i start processed : ℕ) (field kept cs : Bytes) (r : Run)
        → Here text i start processed field kept cs
        → FedBy text
            (field_loop d ten negate clock shown text (remaining_bytes soh i cs) start processed r)
            field
            kept
            cs
            r
    field_loop_lem text i start processed field kept [] r h =
        FedBy-done text i start processed field kept r h
    field_loop_lem text i start processed field kept (c ∷ cs) r h =
        let grown =
          field_loop_lem text (i + 1) start processed (field ++ c ∷ []) (kept ++ c ∷ []) cs r
            (Here-grow text i start processed field kept c cs h) in
        let next = on_field d ten negate clock shown field r in
        elim (Bool-cases (ends field c)) [
          | inl e ↦
              let p = ends_parts field c e in
              let n : leb i start ≡ false = ground (arith, h.field_size) in
              rw
                (
                  remaining_bytes-soh i c cs (p.0),
                  field_loop_field text i (remaining_bytes soh (i + 1) cs) start processed r field n
                      (field_at_lem text i start processed field kept c cs h),
                  feed-ends field c cs r e,
                  keep_bytes-ends kept field c cs e,
                )
                (elim (Option-cases (find_char b'=' field)) [
                  | inl o ↦ rw o (
                      field_loop_lem text (i + 1) (i + 1) processed [] (kept ++ c ∷ []) cs next
                        (Here-skip text i start processed field kept c cs h))
                  | inr (k, o) ↦ rw o (
                      field_loop_lem text (i + 1) (i + 1) (i + 1) [] [] cs next
                        (Here-process text i start processed field kept c cs h))
                ])
          | inr e ↦
              rw (feed_grows field c cs r e, keep_bytes_grows kept field c cs e)
                (elim (Bool-cases (c == soh)) [
                  | inl s ↦
                      let n : leb i start ≡ true =
                        ground (arith, h.field_size, ends_not field c e s) in
                      rw
                        (
                          remaining_bytes-soh i c cs s,
                          field_loop_empty text i (remaining_bytes soh (i + 1) cs) start processed r
                              n,
                        )
                        grown
                  | inr s ↦ rw (remaining_bytes_other i c cs s) grown
                ])
        ]
