-- ===== src/Uuid/Injective.antt =====
-- Different UUIDs have different texts, all of 36 characters.
use video_journal_be.Prelude.{
  ℕ, zero, suc, ◌/◌, ◌%◌, ◌^◌, ◌<◌, ◌≡◌, refl, ap₂, subst₂, sym, ◌∙◌, List, [], ◌∷◌, ◌++◌, length,
  length-append, arith,
}
use video_journal_be.Errors.{Text}
use video_journal_be.Uuid.{hex_digit, hex, uuid_text}

pub length-hex : (w n : ℕ) → length (hex w n) ≡ w
unfolding hex
length-hex zero n = refl
length-hex (suc w) n =
    omega (arith, length-append (hex w (n / 16)) (hex_digit (n % 16) ∷ []), length-hex w (n / 16))

hex_digit-injective : (a b : ℕ) → a < 16 → b < 16 → hex_digit a ≡ hex_digit b → a ≡ b
unfolding hex_digit
hex_digit-injective a b p q e = ground arith

cons-injective {ℓ} : {A : Type ℓ} {x y : A} {xs ys : List A} → x ∷ xs ≡ y ∷ ys → (x ≡ y) × (xs ≡ ys)
cons-injective e = (cc, cc)

-- Texts with parts of equal length are equal only part by part.
pub append-injective {ℓ} :
    {A : Type ℓ} (xs ys : List A) {us vs : List A}
    → length xs ≡ length ys
    → xs ++ us ≡ ys ++ vs
    → (xs ≡ ys) × (us ≡ vs)
append-injective [] [] h e = (refl, e)
append-injective [] (y ∷ ys) h e = absurd (omega arith)
append-injective (x ∷ xs) [] h e = absurd (omega arith)
append-injective (x ∷ xs) (y ∷ ys) h e =
    let (heads, tails) = cons-injective e in
    let (p, q) = append-injective xs ys (omega arith) tails in (ap₂ (λ a l. a ∷ l) heads p, q)

-- The digits that `hex` prints, from the last one on.
abbrev SameDigits : ℕ → ℕ → ℕ → Type 0
SameDigits zero a b = Unit
SameDigits (suc w) a b = (a % 16 ≡ b % 16) × SameDigits w (a / 16) (b / 16)

hex-SameDigits : (w a b : ℕ) → hex w a ≡ hex w b → SameDigits w a b
unfolding hex
hex-SameDigits zero a b e = tt
hex-SameDigits (suc w) a b e =
    let (p, q) =
      append-injective (hex w (a / 16)) (hex w (b / 16))
        (length-hex w (a / 16) ∙ sym (length-hex w (b / 16))) e in
    let (d, _) = cons-injective q in
    (
      hex_digit-injective (a % 16) (b % 16) (omega arith) (omega arith) d,
      hex-SameDigits w (a / 16) (b / 16) p,
    )

-- The first four of at least four digits.
four_digits : (w a b : ℕ) → SameDigits (suc (suc (suc (suc w)))) a b → a % 65536 ≡ b % 65536
four_digits w a b h = omega (arith, h.0, h.1.0, h.1.1.0, h.1.1.1.0)

-- The digits behind the first four.
next_digits :
    (w a b : ℕ) → SameDigits (suc (suc (suc (suc w)))) a b → SameDigits w (a / 65536) (b / 65536)
next_digits w a b h = subst₂ (SameDigits w) (omega arith) (omega arith) h.1.1.1.1

eight_digits :
    (w a b : ℕ)
    → SameDigits (suc (suc (suc (suc (suc (suc (suc (suc w)))))))) a b
    → a % 4294967296 ≡ b % 4294967296
eight_digits w a b h =
    let low : a % 65536 ≡ b % 65536 = four_digits (suc (suc (suc (suc w)))) a b h in
    let high : a / 65536 % 65536 ≡ b / 65536 % 65536 =
      four_digits w (a / 65536) (b / 65536) (next_digits (suc (suc (suc (suc w)))) a b h) in
    omega arith

twelve_digits : (a b : ℕ) → SameDigits 12 a b → a % 281474976710656 ≡ b % 281474976710656
twelve_digits a b h =
    let low : a % 65536 ≡ b % 65536 = four_digits 8 a b h in
    let high : a / 65536 % 4294967296 ≡ b / 65536 % 4294967296 =
      eight_digits 0 (a / 65536) (b / 65536) (next_digits 8 a b h) in
    omega arith

-- A number of 128 bits is determined by its groups.
same_groups :
    (u v : ℕ)
    → u < 2 ^ 128
    → v < 2 ^ 128
    → u / 2 ^ 96 % 2 ^ 32 ≡ v / 2 ^ 96 % 2 ^ 32
    → u / 2 ^ 80 % 2 ^ 16 ≡ v / 2 ^ 80 % 2 ^ 16
    → u / 2 ^ 64 % 2 ^ 16 ≡ v / 2 ^ 64 % 2 ^ 16
    → u / 2 ^ 48 % 2 ^ 16 ≡ v / 2 ^ 48 % 2 ^ 16
    → u % 2 ^ 48 ≡ v % 2 ^ 48
    → u ≡ v
same_groups u v hu hv g1 g2 g3 g4 g5 = omega arith

-- The group of digits in front of a dash, and what follows it.
group :
    (w a b : ℕ) {s t : Text}
    → hex w a ++ b'-' ∷ s ≡ hex w b ++ b'-' ∷ t
    → SameDigits w a b × (s ≡ t)
group w a b e =
    let (p, q) = append-injective (hex w a) (hex w b) (length-hex w a ∙ sym (length-hex w b)) e in
    let (_, r) = cons-injective q in (hex-SameDigits w a b p, r)

-- Two UUIDs with the same text are the same.
pub uuid_text-injective : (u v : ℕ) → u < 2 ^ 128 → v < 2 ^ 128 → uuid_text u ≡ uuid_text v → u ≡ v
unfolding uuid_text
uuid_text-injective u v hu hv e =
    let (g1, e1) = group 8 (u / 2 ^ 96) (v / 2 ^ 96) e in
    let (g2, e2) = group 4 (u / 2 ^ 80) (v / 2 ^ 80) e1 in
    let (g3, e3) = group 4 (u / 2 ^ 64) (v / 2 ^ 64) e2 in
    let (g4, e4) = group 4 (u / 2 ^ 48) (v / 2 ^ 48) e3 in
    same_groups u v hu hv (eight_digits 0 (u / 2 ^ 96) (v / 2 ^ 96) g1)
      (four_digits 0 (u / 2 ^ 80) (v / 2 ^ 80) g2) (four_digits 0 (u / 2 ^ 64) (v / 2 ^ 64) g3)
      (four_digits 0 (u / 2 ^ 48) (v / 2 ^ 48) g4) (twelve_digits u v (hex-SameDigits 12 u v e4))

pub length-uuid_text : (u : ℕ) → length (uuid_text u) ≡ 36
unfolding uuid_text
length-uuid_text u = refl
