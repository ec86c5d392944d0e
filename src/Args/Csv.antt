-- ===== src/Args/Csv.antt =====
-- `split_csv` gives the non-empty tokens between commas, and undoes joining.
use ispass2026_concurrent_qu.Common.{
  ◌≡◌, ◌≢◌, refl, sym, ◌∙◌, ap, List, [], ◌∷◌, ◌++◌, ◌==◌, All, arith, Bool-cases, inl, inr,
}
use mathlib.Core.List.{append_assoc, append-nil}
use ispass2026_concurrent_qu.Args.{Text, comma, flush, split_from, split_csv}

-- Not empty, and without a comma.
abbrev pub IsToken : Text → Type 0
IsToken t = (t ≢ []) × All (λ c. c ≢ comma) t

abbrev pub join : List Text → Text
join [] = []
join (t ∷ []) = t
join (t ∷ u ∷ ts) = t ++ comma ∷ join (u ∷ ts)

-- Reading on to the next comma.
split_from-append :
    (tok t s : Text) → All (λ c. c ≢ comma) t → split_from tok (t ++ s) ≡ split_from (tok ++ t) s
unfolding split_from
split_from-append tok [] s h = ap (λ x. split_from x s) (sym (append-nil tok))
split_from-append tok (c ∷ t) s h = elim (Bool-cases (c == comma)) [
  | inl at_comma ↦ absurd (h.0 (ground arith))
  | inr other ↦ rw other (
      split_from-append (tok ++ c ∷ []) t s h.1
      ∙ ap (λ x. split_from x s) (append_assoc tok (c ∷ []) t))
]

flush-token : (t : Text) (out : List Text) → t ≢ [] → flush t out ≡ t ∷ out
unfolding flush
flush-token [] out h = absurd (h refl)
flush-token (c ∷ t) out h = refl

split_from-end : (t : Text) → split_from t [] ≡ flush t []
unfolding split_from
split_from-end t = refl

split_from-comma : (t s : Text) → split_from t (comma ∷ s) ≡ flush t (split_from [] s)
unfolding split_from
split_from-comma t s = refl

-- Splitting the tokens joined by commas gives the tokens back.
pub split_csv-join : (ts : List Text) → All IsToken ts → split_csv (join ts) ≡ ts
unfolding split_csv
split_csv-join [] h = refl
split_csv-join (t ∷ []) h =
    ap (split_from []) (sym (append-nil t))
    ∙ split_from-append [] t [] h.0.1
    ∙ split_from-end t
    ∙ flush-token t [] h.0.0
split_csv-join (t ∷ u ∷ ts) h =
    split_from-append [] t (comma ∷ join (u ∷ ts)) h.0.1
    ∙ split_from-comma t (join (u ∷ ts))
    ∙ flush-token t _ h.0.0
    ∙ ap (λ x. t ∷ x) (split_csv-join (u ∷ ts) h.1)
