-- ===== src/Cron/Parse/InRange.antt =====
-- What `parse_cron` of src/assistant/scheduler/cron.py accepts.
use xone_assistant.Prelude.{
  ℕ, Option, none, some, List, [], ◌∷◌, ◌≡◌, Text, ◌==◌, Bool-cases, inl, inr,
}
use xone_assistant.Cron.Split.{Unicode, strip, split_words}
use xone_assistant.Cron.Field.{minute, hour, dom, month, dow, expand_field}
use xone_assistant.Cron.Field.Bounds.{Filled, Holds, expand_field-Filled}
use xone_assistant.Cron.Parse.{CronExpr, parse_fields, parse_stripped, parse_cron, ◌>>=◌}

-- Each field has a value, and its values are in range.
pub record IsInRange (e : CronExpr) : Type 0 where
  pub minutes_in : Filled 0 59 e.minutes
  pub hours_in : Filled 0 23 e.hours
  pub doms_in : Filled 1 31 e.doms
  pub months_in : Filled 1 12 e.months
  pub dows_in : Filled 0 6 e.dows

-- The same, of a parse that may have failed.
abbrev pub Accepted : Option CronExpr → Type 0
Accepted none = Unit
Accepted (some e) = IsInRange e

Accepted-bind :
    (P : List ℕ → Type 0) (o : Option (List ℕ)) (k : List ℕ → Option CronExpr)
    → Holds P o
    → ((xs : List ℕ) → P xs → Accepted (k xs))
    → Accepted (o >>= k)
Accepted-bind P none k h f = tt
Accepted-bind P (some xs) k h f = f xs h

module _ (u : Unicode) where
  parse_fields-Accepted : (fields : List Text) → Accepted (parse_fields u fields)
  unfolding parse_fields
  parse_fields-Accepted (m ∷ h ∷ d ∷ mo ∷ w ∷ []) =
      Accepted-bind (Filled 0 59) (expand_field u minute m) _ (expand_field-Filled u minute m)
        λ ms in₁.
          Accepted-bind (Filled 0 23) (expand_field u hour h) _ (expand_field-Filled u hour h)
            λ hs in₂.
              Accepted-bind (Filled 1 31) (expand_field u dom d) _ (expand_field-Filled u dom d)
                λ ds in₃.
                  Accepted-bind (Filled 1 12) (expand_field u month mo) _
                    (expand_field-Filled u month mo)
                    λ mos in₄.
                      Accepted-bind (Filled 0 6) (expand_field u dow w) _
                        (expand_field-Filled u dow w)
                        λ ws in₅. record {
                          minutes_in = in₁;
                          hours_in = in₂;
                          doms_in = in₃;
                          months_in = in₄;
                          dows_in = in₅;
                        }
  parse_fields-Accepted _ = tt

  parse_stripped-Accepted : (s : Text) → Accepted (parse_stripped u s)
  unfolding parse_stripped
  parse_stripped-Accepted [] = tt
  parse_stripped-Accepted (c ∷ s) = elim (Bool-cases (c == b'@')) [
    | inl at ↦ rw at tt
    | inr other ↦ rw other (parse_fields-Accepted (split_words u (c ∷ s)))
  ]

-- An expression that is accepted has at least one value in each of its five fields, and the values
-- are in range: minutes to 59, hours to 23, days 1 to 31, months 1 to 12, weekdays 0 to 6.
pub parse_cron-IsInRange :
    (u : Unicode) (text : Text) (e : CronExpr) → parse_cron u text ≡ some e → IsInRange e
unfolding parse_cron
parse_cron-IsInRange u text e h = rw h at (parse_stripped-Accepted u (strip u text))
