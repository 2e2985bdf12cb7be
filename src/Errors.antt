-- ===== src/Errors.antt =====
-- The exceptions of src/app/common/exceptions.py, and of the modules that subclass AppError
-- (media/ffmpeg.py, media/ffprobe.py, domains/clips/exceptions.py), with the status that
-- core/exception_handlers.py answers.
pub mod Listed
use video_journal_be.Prelude.{
  ℕ, List, Option, none, some, Bool, true, false, ◌≡◌, refl, ◌⊎◌, inl, inr,
}

-- Texts are lists of code points.
abbrev pub Text : Type 0
Text = List ℕ

abbrev pub Bytes : Type 0
Bytes = List ℕ

-- An error carries the message where the program reads it back; `validation_error` is FastAPI's refusal of a body, and
-- `unexpected` any other exception that is no AppError (ValueError, OSError, an error of the database).
pub data Error : Type 0 where
  not_found conflict unsupported_media_type upload_too_large range_not_satisfiable : Error
  invalid_trim ffprobe_error validation_error unexpected : Error
  ffmpeg_error : Text → Error

-- What a call returns or raises.
pub data Result {ℓ} (T : Type ℓ) : Type ℓ where
  err : Error → Result T
  ok : T → Result T

-- The status that the handlers answer: `status_code` of each class and 422 for a refused body; any other exception has
-- no handler and ends as 500.
abbrev pub status_code : Error → ℕ
status_code not_found = 404
status_code conflict = 409
status_code unsupported_media_type = 415
status_code upload_too_large = 413
status_code range_not_satisfiable = 416
status_code invalid_trim = 422
status_code ffprobe_error = 422
status_code validation_error = 422
status_code (ffmpeg_error m) = 422
status_code unexpected = 500

infixl 5 ◌>>=◌ ◌>>◌
abbrev pub ◌>>=◌ {ℓ κ} : {S : Type ℓ} {T : Type κ} → Result S → (S → Result T) → Result T
err e >>= next = err e
ok x >>= next = next x

abbrev pub ◌>>◌ {ℓ} : {T : Type ℓ} → Result (Unit {0}) → Result T → Result T
first >> second = first >>= λ _. second

abbrev pub raise_if : Bool → Error → Result (Unit {0})
raise_if b e = elim b [ true ↦ err e | false ↦ ok tt ]

-- `x if x is not None else raise`
abbrev pub or_raise {ℓ} : {A : Type ℓ} → Option A → Error → Result A
or_raise none e = err e
or_raise (some a) e = ok a

-- A chain that returns has had every step return.
pub >>=-eq-ok {ℓ κ} :
    {S : Type ℓ} {T : Type κ} (r : Result S) (next : S → Result T) {y : T}
    → (r >>= next) ≡ ok y
    → (x : S) × (r ≡ ok x) × (next x ≡ ok y)
>>=-eq-ok (err e) next done = cc
>>=-eq-ok (ok x) next done = (x, refl, done)

pub Result-cases {ℓ} :
    {A : Type ℓ} (r : Result A) → ((a : A) × (r ≡ ok a)) ⊎ ((e : Error) × (r ≡ err e))
Result-cases (ok a) = inl (a, refl)
Result-cases (err e) = inr (e, refl)
