-- ===== src/Simd/Kept.antt =====
-- The bytes that parse of feedhandler/src/parser/simd_fix_parser.cpp keeps in its buffer: a later call
-- that reads them again makes nothing of them but the open field.
use scratch.Prelude.{
  ℕ, [], ◌∷◌, ◌++◌, true, false, if◌then◌else◌, none, Bytes, ◌≡◌, refl, ◌∙◌, Bool-cases,
  Option-cases, inl, inr,
}
use scratch.Doubles.{Doubles}
use scratch.Views.Split.{find_char}
use scratch.Simd.Parser.{Run, on_field}
use scratch.Simd.Fields.{
  ends, keep, keep_bytes, feed, feed-append, feed_grows, feed-ends, keep_bytes_grows,
  keep_bytes-ends,
}
use scratch.Simd.Contents.{open_field}

pub keep_bytes_done : (kept field : Bytes) → keep_bytes kept field [] ≡ kept
unfolding keep_bytes
keep_bytes_done kept field = refl

open_field-append :
    (field xs ys : Bytes) → open_field field (xs ++ ys) ≡ open_field (open_field field xs) ys
unfolding open_field
open_field-append field [] ys = refl
open_field-append field (x ∷ xs) ys =
    open_field-append (if ends field x then [] else field ++ x ∷ []) xs ys

pub keep_bytes-append :
    (kept field xs ys : Bytes)
    → keep_bytes kept field (xs ++ ys)
      ≡ keep_bytes (keep_bytes kept field xs) (open_field field xs) ys
unfolding open_field keep_bytes
keep_bytes-append kept field [] ys = refl
keep_bytes-append kept field (x ∷ xs) ys =
    keep_bytes-append
      (if ends field x then keep (find_char b'=' field) (kept ++ x ∷ []) else kept ++ x ∷ [])
      (if ends field x then [] else field ++ x ∷ []) xs ys

module _ (d : Doubles) (ten : d.Double) (negate : d.Double → d.Double) where
  module _ (clock : ℕ → ℕ) (shown : Bytes → Bytes) where
    pub feed_open :
        (field cs : Bytes) (r : Run)
        → (feed d ten negate clock shown field cs r).0 ≡ open_field field cs
    unfolding feed open_field
    feed_open field [] r = refl
    feed_open field (c ∷ cs) r =
        feed_open (if ends field c then [] else field ++ c ∷ []) cs
          (if ends field c then on_field d ten negate clock shown field r else r)

    -- Reading the bytes again changes no run, opens the same field, and keeps all of them.
    pub record IsKept (kept field : Bytes) : Type 0 where
      pub idle : (r : Run) → feed d ten negate clock shown [] kept r ≡ (field, r)
      pub opens : open_field [] kept ≡ field
      pub again : keep_bytes [] [] kept ≡ kept

    pub IsKept-nil : IsKept [] []
    unfolding feed open_field keep_bytes
    IsKept-nil = record { idle = λ r. refl; opens = refl; again = refl }

    IsKept-grows :
        (kept field : Bytes) (c : ℕ)
        → IsKept kept field
        → ends field c ≡ false
        → IsKept (kept ++ c ∷ []) (field ++ c ∷ [])
    unfolding feed open_field
    IsKept-grows kept field c h e = record {
      idle = λ r.
          feed-append d ten negate clock shown [] kept (c ∷ []) r
          ∙ rw (h.idle r) (feed_grows d ten negate clock shown field c [] r e);
      opens = open_field-append [] kept (c ∷ []) ∙ rw (h.opens, e) refl;
      again =
          keep_bytes-append [] [] kept (c ∷ [])
          ∙ rw (h.again, h.opens)
              (keep_bytes_grows kept field c [] e ∙ keep_bytes_done _ (field ++ c ∷ []));
    }

    IsKept-ends :
        (kept field : Bytes) (c : ℕ)
        → IsKept kept field
        → ends field c ≡ true
        → find_char b'=' field ≡ none
        → IsKept (kept ++ c ∷ []) []
    unfolding feed on_field open_field
    IsKept-ends kept field c h e o = record {
      idle = λ r.
          feed-append d ten negate clock shown [] kept (c ∷ []) r
          ∙ rw (h.idle r) (feed-ends d ten negate clock shown field c [] r e ∙ rw o refl);
      opens = open_field-append [] kept (c ∷ []) ∙ rw (h.opens, e) refl;
      again =
          keep_bytes-append [] [] kept (c ∷ [])
          ∙ rw (h.again, h.opens) (keep_bytes-ends kept field c [] e ∙ rw o (keep_bytes_done _ []));
    }

    pub keep_bytes-IsKept :
        (kept field cs : Bytes)
        → IsKept kept field
        → IsKept (keep_bytes kept field cs) (open_field field cs)
    unfolding open_field
    keep_bytes-IsKept kept field [] h = rw (keep_bytes_done kept field) h
    keep_bytes-IsKept kept field (c ∷ cs) h = elim (Bool-cases (ends field c)) [
      | inl e ↦
          rw (keep_bytes-ends kept field c cs e, e)
            (elim (Option-cases (find_char b'=' field)) [
              | inl o ↦
                  rw o (keep_bytes-IsKept (kept ++ c ∷ []) [] cs (IsKept-ends kept field c h e o))
              | inr (k, o) ↦ rw o (keep_bytes-IsKept [] [] cs IsKept-nil)
            ])
      | inr e ↦
          rw (keep_bytes_grows kept field c cs e, e)
            (keep_bytes-IsKept (kept ++ c ∷ []) (field ++ c ∷ []) cs
              (IsKept-grows kept field c h e))
    ]

    pub kept-IsKept : (cs : Bytes) → IsKept (keep_bytes [] [] cs) (open_field [] cs)
    kept-IsKept cs = keep_bytes-IsKept [] [] cs IsKept-nil
