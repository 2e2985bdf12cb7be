-- ===== src/Naming/Extensions.antt =====
-- Which file names an upload may have.
use video_journal_be.Prelude.{
  ℕ, ◌≡◌, refl, true, false, Option, none, some, List, [], ◌∷◌, ◌++◌, ◌==◌, if◌then◌else◌, arith,
  All, Bool-cases, inl, inr, subst, sym,
}
use video_journal_be.Errors.{Text, ok, err, unsupported_media_type}
use mathlib.Core.Bool.{false≢true}
use video_journal_be.Errors.Listed.{
  IsListed, HasListed, HasListed-ok, HasListed-err, HasListed-bind, HasListed-or_raise,
  HasListed-raise_if,
}
use video_journal_be.Text.Laws.{text_eq_sound}
use video_journal_be.Text.{text_eq, text_in, lower}
use video_journal_be.Storage.Paths.{HasNoSlash}
use video_journal_be.Naming.{
  after_last, checked_extension, clip_extension, clip_extensions, soundtrack_extension,
  soundtrack_extensions,
}

-- A text without the character `sep`.
abbrev pub IsFreeOf : ℕ → Text → Type 0
IsFreeOf sep = All (λ c. (c == sep) ≡ false)

after_last-none : (sep : ℕ) (s : Text) → IsFreeOf sep s → after_last sep s ≡ none
unfolding after_last
after_last-none sep [] h = refl
after_last-none sep (c ∷ s) h = rw (after_last-none sep s h.1, h.0)

pub after_last-append :
    (sep : ℕ) (s t : Text) → IsFreeOf sep t → after_last sep (s ++ sep ∷ t) ≡ some t
unfolding after_last
after_last-append sep [] t h = ground (arith, after_last-none sep t h)
after_last-append sep (c ∷ s) t h = rw (after_last-append sep s t h)

-- A name with a dot is accepted exactly when the text behind its last dot is, in lower case and with the
-- dot, an allowed extension; that extension is the result. `stem` may hold dots, `tail` does not.
pub checked_extension-dot :
    (allowed : List Text) (stem tail : Text)
    → IsFreeOf b'.' tail
    → checked_extension allowed (some (stem ++ b'.' ∷ tail)) ≡ (
        if text_in (b'.' ∷ lower tail) allowed
        then ok (b'.' ∷ lower tail)
        else err unsupported_media_type)
unfolding checked_extension
checked_extension-dot allowed [] tail h = ground (arith, after_last-append b'.' [] tail h)
checked_extension-dot allowed (c ∷ stem) tail h =
    ground (arith, after_last-append b'.' (c ∷ stem) tail h)

-- A missing name and a name without a dot are refused.
pub checked_extension-no_dot :
    (allowed : List Text) (name : Text)
    → IsFreeOf b'.' name
    → (checked_extension allowed none ≡ err unsupported_media_type)
      × (checked_extension allowed (some name) ≡ err unsupported_media_type)
unfolding checked_extension
checked_extension-no_dot allowed [] h = (refl, refl)
checked_extension-no_dot allowed (c ∷ name) h = (refl, rw (after_last-none b'.' (c ∷ name) h))

-- What is accepted is one of the allowed extensions.
pub checked_extension-allowed :
    (allowed : List Text) (name : Option Text) {ext : Text}
    → checked_extension allowed name ≡ ok ext
    → text_in ext allowed ≡ true
unfolding checked_extension
checked_extension-allowed allowed none h = cc
checked_extension-allowed allowed (some []) h = cc
checked_extension-allowed allowed (some (c ∷ name)) h = ground arith

pub All-text_in {ℓ} :
    (P : Text → Type ℓ) (x : Text) (ys : List Text) → All P ys → text_in x ys ≡ true → P x
unfolding text_in
All-text_in P x [] h e = absurd (false≢true e)
All-text_in P x (y ∷ ys) h e = elim (Bool-cases (text_eq x y)) [
  | inl same ↦ subst P (sym (text_eq_sound x y same)) h.0
  | inr other ↦ All-text_in P x ys h.1 (ground arith)
]

pub clip_extensions-HasNoSlash : (ext : Text) → text_in ext clip_extensions ≡ true → HasNoSlash ext
clip_extensions-HasNoSlash ext h = All-text_in HasNoSlash ext clip_extensions (ground arith) h

pub soundtrack_extensions-HasNoSlash :
    (ext : Text) → text_in ext soundtrack_extensions ≡ true → HasNoSlash ext
soundtrack_extensions-HasNoSlash ext h =
    All-text_in HasNoSlash ext soundtrack_extensions (ground arith) h

pub clip_extension-allowed :
    (name : Option Text) (ext : Text)
    → clip_extension name ≡ ok ext
    → text_in ext clip_extensions ≡ true
unfolding clip_extension
clip_extension-allowed name ext h = checked_extension-allowed clip_extensions name h

pub soundtrack_extension-allowed :
    (name : Option Text) (ext : Text)
    → soundtrack_extension name ≡ ok ext
    → text_in ext soundtrack_extensions ≡ true
unfolding soundtrack_extension
soundtrack_extension-allowed name ext h = checked_extension-allowed soundtrack_extensions name h

-- An accepted extension holds no slash, so the key of the upload lies in the directory of the originals.
pub clip_extension-HasNoSlash :
    (name : Option Text) {ext : Text} → clip_extension name ≡ ok ext → HasNoSlash ext
clip_extension-HasNoSlash name {ext} h =
    clip_extensions-HasNoSlash ext (clip_extension-allowed name ext h)

-- A file name is refused with UnsupportedMediaTypeError alone.
pub checked_extension-HasListed :
    (statuses : List ℕ) (listed : IsListed statuses unsupported_media_type) (allowed : List Text)
    (name : Option Text)
    → HasListed statuses (checked_extension allowed name)
unfolding checked_extension
checked_extension-HasListed statuses listed allowed none =
    HasListed-err unsupported_media_type listed
checked_extension-HasListed statuses listed allowed (some []) =
    HasListed-err unsupported_media_type listed
checked_extension-HasListed statuses listed allowed (some (c ∷ name)) =
    HasListed-bind (HasListed-or_raise (after_last b'.' (c ∷ name)) unsupported_media_type listed)
      (λ tail.
        HasListed-bind (HasListed-raise_if _ unsupported_media_type listed) (λ _. HasListed-ok _))

pub clip_extension-HasListed :
    (statuses : List ℕ) (listed : IsListed statuses unsupported_media_type) (name : Option Text)
    → HasListed statuses (clip_extension name)
unfolding clip_extension
clip_extension-HasListed statuses listed name =
    checked_extension-HasListed statuses listed clip_extensions name

pub soundtrack_extension-HasListed :
    (statuses : List ℕ) (listed : IsListed statuses unsupported_media_type) (name : Option Text)
    → HasListed statuses (soundtrack_extension name)
unfolding soundtrack_extension
soundtrack_extension-HasListed statuses listed name =
    checked_extension-HasListed statuses listed soundtrack_extensions name
