-- ===== src/Text/Laws.antt =====
-- Laws of the text operations.
use video_journal_be.Prelude.{
  ℕ, ◌≡◌, refl, ◌↔◌, true, false, List, [], ◌∷◌, ◌++◌, reverse, some, arith, All, ==_refl,
}
use mathlib.Core.List.{reverse-reverse, reverse-append}
use video_journal_be.Errors.{Text}
use video_journal_be.Text.{text_eq, is_digit, is_space, lstrip, strip, strip_prefix, split_once}

pub text_eq_sound : (s t : Text) → text_eq s t ≡ true → s ≡ t
text_eq_sound [] [] h = refl
text_eq_sound [] (d ∷ t) h = cc
text_eq_sound (c ∷ s) [] h = cc
text_eq_sound (c ∷ s) (d ∷ t) h = ground (arith, text_eq_sound s t)

pub text_eq_refl : (s : Text) → text_eq s s ≡ true
text_eq_refl [] = refl
text_eq_refl (c ∷ s) = ground (arith, text_eq_refl s)

pub text_eq_iff : (s t : Text) → (text_eq s t ≡ true) ↔ (s ≡ t)
text_eq_iff s t = (text_eq_sound s t, λ e. subst_right e)
  where
    subst_right : s ≡ t → text_eq s t ≡ true
    subst_right e = rw (← e) (text_eq_refl s)

abbrev pub IsDigits : Text → Type 0
IsDigits = All (λ c. is_digit c ≡ true)

pub is_space-digit : (c : ℕ) → is_digit c ≡ true → is_space c ≡ false
unfolding is_digit is_space
is_space-digit c h = ground arith

-- A text with no white space is not changed by `strip`.
abbrev pub IsSolid : Text → Type 0
IsSolid = All (λ c. is_space c ≡ false)

pub IsDigits-IsSolid : (s : Text) → IsDigits s → IsSolid s
IsDigits-IsSolid [] h = tt
IsDigits-IsSolid (c ∷ s) h = (is_space-digit c h.0, IsDigits-IsSolid s h.1)

pub lstrip-solid : (s : Text) → IsSolid s → lstrip s ≡ s
unfolding lstrip
lstrip-solid [] h = refl
lstrip-solid (c ∷ s) h = rw h.0

pub All-append {ℓ κ} :
    {A : Type ℓ} (P : A → Type κ) (s t : List A) → All P s → All P t → All P (s ++ t)
All-append P [] t h k = k
All-append P (c ∷ s) t h k = (h.0, All-append P s t h.1 k)

pub All-reverse {ℓ κ} : {A : Type ℓ} (P : A → Type κ) (s : List A) → All P s → All P (reverse s)
All-reverse P [] h = tt
All-reverse P (c ∷ s) h =
    rw (reverse-append (c ∷ []) s)
      (All-append P (reverse s) (c ∷ []) (All-reverse P s h.1) (h.0, tt))

pub strip-solid : (s : Text) → IsSolid s → strip s ≡ s
unfolding strip
strip-solid s h =
    rw (lstrip-solid s h) (
      rw (lstrip-solid (reverse s) (All-reverse (λ c. is_space c ≡ false) s h)) (reverse-reverse s))

pub strip-digits : (s : Text) → IsDigits s → strip s ≡ s
strip-digits s h = strip-solid s (IsDigits-IsSolid s h)

pub strip_prefix-append : (p s : Text) → strip_prefix p (p ++ s) ≡ some s
unfolding strip_prefix
strip_prefix-append [] s = refl
strip_prefix-append (c ∷ p) s = rw (==_refl c) (strip_prefix-append p s)

-- A run of digits holds no dash, so the first dash behind it splits.
pub split_once-digits : (s t : Text) → IsDigits s → split_once 45 (s ++ 45 ∷ t) ≡ some (s, t)
unfolding split_once is_digit
split_once-digits [] t h = refl
split_once-digits (c ∷ s) t h = ground (arith, split_once-digits s t h.1)
