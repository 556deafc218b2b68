-- ===== src/Cron/Parse.antt =====
-- `parse_cron` of src/assistant/scheduler/cron.py.
pub mod InRange
use xone_assistant.Prelude.{
  ℕ, Bool, Option, none, some, List, [], ◌∷◌, if◌then◌else◌, Text, text_eq, ◌==◌,
}
use xone_assistant.Cron.Split.{Unicode, strip, split_words}
use xone_assistant.Cron.Field.{minute, hour, dom, month, dow, expand_field}

-- The frozensets stand as lists; only membership is asked of them.
pub record CronExpr : Type 0 where
  pub minutes : List ℕ
  pub hours : List ℕ
  pub doms : List ℕ
  pub months : List ℕ
  pub dows : List ℕ
  pub raw_dom_star : Bool
  pub raw_dow_star : Bool

infixl 5 ◌>>=◌
abbrev pub ◌>>=◌ {ℓ κ} : {A : Type ℓ} {B : Type κ} → Option A → (A → Option B) → Option B
none >>= f = none
some a >>= f = f a

module _ (u : Unicode) where
  unfoldable pub parse_fields : List Text → Option CronExpr
  unfolding expand_field
  parse_fields (m ∷ h ∷ d ∷ mo ∷ w ∷ []) = do
    minutes ← expand_field u minute m
    hours ← expand_field u hour h
    doms ← expand_field u dom d
    months ← expand_field u month mo
    dows ← expand_field u dow w
    some (record {
      minutes = minutes;
      hours = hours;
      doms = doms;
      months = months;
      dows = dows;
      raw_dom_star = text_eq d (b'*' ∷ []);
      raw_dow_star = text_eq w (b'*' ∷ []);
    })
  parse_fields _ = none

  unfoldable pub parse_stripped : Text → Option CronExpr
  unfolding parse_fields split_words
  parse_stripped [] = none
  parse_stripped (c ∷ s) = if c == b'@' then none else parse_fields (split_words u (c ∷ s))

  unfoldable pub parse_cron : Text → Option CronExpr
  unfolding parse_stripped strip
  parse_cron expr = parse_stripped (strip u expr)
