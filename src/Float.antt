-- ===== src/Float.antt =====
-- Python's float, which no definition of the program implements: a type with the operations that the
-- program uses. No law is assumed; a theorem that needs one names it.
use video_journal_be.Prelude.{◌≡◌, ◌⊎◌, true, false, ℕ, ℤ, Bool, Option, List}
use video_journal_be.Errors.{Text}

pub record FloatOps (F : Type 0) : Type 0 where
  -- `float(n)` of an integer literal or value
  pub of_ℕ : ℕ → F
  pub of_ℤ : ℤ → F
  pub add : F → F → F
  pub sub : F → F → F
  pub mul : F → F → F
  pub div : F → F → F
  -- `sum(xs)`
  pub sum : List F → F
  -- `a < b` and `a <= b`; both are false where a NaN stands
  pub lt : F → F → Bool
  pub le : F → F → Bool
  -- `math.floor(x)` and `int(x)`; `none` is the exception that a NaN or an infinity raises
  pub floor : F → Option ℤ
  pub trunc : F → Option ℤ
  -- `float(s)`; `none` is ValueError
  pub parse : Text → Option F
  -- `str(x)` and `f"{x:.4f}"`
  pub show : F → Text
  pub show_4f : F → Text

-- The order of the floats that are no NaN: strict, and two floats are apart from any third on one side at least.
pub record IsOrdered {F : Type 0} (ops : FloatOps F) : Type 0 where
  pub lt_irrefl : (a : F) → ops.lt a a ≡ false
  pub lt_trans : (a b c : F) → ops.lt a b ≡ true → ops.lt b c ≡ true → ops.lt a c ≡ true
  pub lt_cotrans : (a b c : F) → ops.lt a c ≡ true → (ops.lt a b ≡ true) ⊎ (ops.lt b c ≡ true)
