-- ===== src/Uuid.antt =====
-- `str(uuid)`: 32 hexadecimal digits in five groups, of a UUID as its 128-bit number.
pub mod Injective
use video_journal_be.Prelude.{
  ℕ, zero, suc, ◌+◌, ◌/◌, ◌%◌, ◌^◌, List, [], ◌∷◌, ◌++◌, ltb, if◌then◌else◌,
}
use video_journal_be.Errors.{Text}

unfoldable pub hex_digit : ℕ → ℕ
hex_digit d = if ltb d 10 then 48 + d else 87 + d

-- The last `w` hexadecimal digits of `n`.
unfoldable pub hex : ℕ → ℕ → Text
unfolding hex_digit
hex zero n = []
hex (suc w) n = hex w (n / 16) ++ hex_digit (n % 16) ∷ []

unfoldable pub uuid_text : ℕ → Text
unfolding hex
uuid_text u =
    hex 8 (u / 2 ^ 96)
    ++ (b'-' ∷ hex 4 (u / 2 ^ 80)
        ++ (b'-' ∷ hex 4 (u / 2 ^ 64) ++ (b'-' ∷ hex 4 (u / 2 ^ 48) ++ (b'-' ∷ hex 12 u))))
