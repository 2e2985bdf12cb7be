-- ===== src/Text/Decimal.antt =====
-- `int(str(n))` gives `n` back.
use video_journal_be.Prelude.{
  ℕ, zero, suc, ◌+◌, ◌*◌, ◌/◌, ◌%◌, ◌<◌, ◌≡◌, ◌≢◌, refl, ◌∙◌, Bool, true, false, [], ◌∷◌, ◌++◌,
  append-nil, append_assoc, Option, some, arith, Bool-cases, inl, inr, ltb, pos, sub_ℕ,
}
use video_journal_be.Errors.{Text}
use video_journal_be.Text.{
  is_digit, is_space, scan_digits, int_of, int_of_stripped, decimal, decimal_fuel, strip,
}
use video_journal_be.Text.Laws.{IsDigits, All-append, strip-digits, strip-solid, IsDigits-IsSolid}

decimal_fuel-IsDigits : (f n : ℕ) → IsDigits (decimal_fuel f n)
unfolding decimal_fuel
decimal_fuel-IsDigits zero n = tt
decimal_fuel-IsDigits (suc f) n = elim (Bool-cases (ltb n 10)) [
  | inl small ↦ rw small (unfold is_digit in ground arith, tt)
  | inr large ↦ rw large (
      All-append (λ c. is_digit c ≡ true) (decimal_fuel f (n / 10)) ((48 + n % 10) ∷ [])
        (decimal_fuel-IsDigits f (n / 10)) (unfold is_digit in ground arith, tt))
]

pub decimal-IsDigits : (n : ℕ) → IsDigits (decimal n)
unfolding decimal
decimal-IsDigits n = decimal_fuel-IsDigits (suc n) n

-- One more digit: `v` is the number that it completes.
scan_one :
    (r : Bool) (acc d v : ℕ) (rest : Text)
    → d < 10
    → v ≡ acc * 10 + d
    → scan_digits r acc ((48 + d) ∷ rest) ≡ scan_digits true v rest
unfolding scan_digits
scan_one r acc d v rest h e = ground arith

scan_digits-decimal_fuel :
    (f n : ℕ) (r : Bool) (rest : Text)
    → n < f
    → scan_digits r 0 (decimal_fuel f n ++ rest) ≡ scan_digits true n rest
unfolding decimal_fuel
scan_digits-decimal_fuel zero n r rest h = elim h [ ]
scan_digits-decimal_fuel (suc f) n r rest h = elim (Bool-cases (ltb n 10)) [
  | inl small ↦ rw small (scan_one r 0 n n rest (ground arith) (omega arith))
  | inr large ↦
      rw (large, append_assoc)
        (scan_digits-decimal_fuel f (n / 10) r ((48 + n % 10) ∷ rest) (ground arith)
          ∙ scan_one true (n / 10) (n % 10) n rest (omega arith) (omega arith))
]

scan_digits-decimal : (n : ℕ) → scan_digits false 0 (decimal n) ≡ some n
unfolding decimal scan_digits
scan_digits-decimal n =
    rw (← append-nil (decimal_fuel (suc n) n))
      (scan_digits-decimal_fuel (suc n) n false [] (omega arith))

int_of_stripped-digits :
    (s : Text) (n : ℕ)
    → IsDigits s
    → scan_digits false 0 s ≡ some n
    → int_of_stripped s ≡ some (pos n)
unfolding int_of_stripped is_digit
int_of_stripped-digits [] n d h = unfold scan_digits in ground arith
int_of_stripped-digits (c ∷ s) n d h = ground arith

-- An integer survives printing and parsing.
pub int_of-decimal : (n : ℕ) → int_of (decimal n) ≡ some (pos n)
unfolding int_of
int_of-decimal n =
    rw (strip-digits (decimal n) (decimal-IsDigits n))
      (int_of_stripped-digits (decimal n) n (decimal-IsDigits n) (scan_digits-decimal n))

pub decimal-ne-nil : (n : ℕ) → decimal n ≢ []
decimal-ne-nil n e = ground (arith, int_of-decimal n, empty_fails)
  where
    empty_fails : int_of [] ≡ Option.none
    empty_fails = unfold int_of in refl

strip-minus : (n : ℕ) → strip (b'-' ∷ decimal n) ≡ b'-' ∷ decimal n
unfolding is_space
strip-minus n =
    strip-solid (b'-' ∷ decimal n) (refl, IsDigits-IsSolid (decimal n) (decimal-IsDigits n))

-- A minus sign before the digits makes the number negative.
pub int_of-minus : (n : ℕ) → int_of (b'-' ∷ decimal n) ≡ some (sub_ℕ 0 n)
unfolding int_of int_of_stripped
int_of-minus n = rw (strip-minus n) (ground (arith, scan_digits-decimal n))

pub int_of-stripped_minus : (n : ℕ) → int_of (strip (b'-' ∷ decimal n)) ≡ some (sub_ℕ 0 n)
int_of-stripped_minus n = rw (strip-minus n) (int_of-minus n)
