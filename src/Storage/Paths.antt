-- ===== src/Storage/Paths.antt =====
-- No key leads outside the base directory.
use video_journal_be.Prelude.{
  ◌≡◌, refl, true, false, List, [], ◌∷◌, ◌++◌, ◌==◌, arith, Bool-cases, inl, inr, All, ap,
  append_assoc, ap₂, ◌∙◌, sym, append-nil,
}
use video_journal_be.Errors.{Text, ok}
use video_journal_be.Text.{codes, text_eq}
use video_journal_be.Text.Laws.{text_eq_sound, text_eq_refl, All-append}
use video_journal_be.Storage.{
  FilePath, is_relative_to, is_absolute, walk, enter, drop_last, resolve, split_all,
}

pub is_relative_to_sound :
    (path base : FilePath)
    → is_relative_to path base ≡ true
    → (rest : FilePath) × (path ≡ base ++ rest)
unfolding is_relative_to
is_relative_to_sound path [] h = (path, refl)
is_relative_to_sound [] (b ∷ base) h = cc
is_relative_to_sound (p ∷ path) (b ∷ base) h = elim (Bool-cases (text_eq p b)) [
  | inl same ↦
      let (rest, e) = is_relative_to_sound path base (ground arith) in
      (rest, ap₂ (λ a l. a ∷ l) (text_eq_sound p b same) e)
  | inr other ↦ cc
]

-- A component that names an entry of its directory.
abbrev pub IsName : Text → Type 0
IsName t =
    (text_eq t [] ≡ false) × (text_eq t (codes ".") ≡ false) × (text_eq t (codes "..") ≡ false)

drop_last-All {ℓ κ} : {A : Type ℓ} (P : A → Type κ) (l : List A) → All P l → All P (drop_last l)
unfolding drop_last
drop_last-All P [] h = tt
drop_last-All P (x ∷ []) h = tt
drop_last-All P (x ∷ y ∷ l) h = (h.0, drop_last-All P (y ∷ l) h.1)

enter-names : (path : FilePath) (name : Text) → All IsName path → All IsName (enter path name)
unfolding enter
enter-names path name h = elim (Bool-cases (text_eq name [])) [
  | inl e ↦ rw e h
  | inr e ↦ elim (Bool-cases (text_eq name (codes "."))) [
    | inl f ↦ rw (e, f) h
    | inr f ↦ elim (Bool-cases (text_eq name (codes ".."))) [
      | inl g ↦ rw (e, f, g) (drop_last-All IsName path h)
      | inr g ↦ rw (e, f, g) (All-append IsName path (name ∷ []) h ((e, f, g), tt))
    ]
  ]
]

walk-names : (path names : FilePath) → All IsName path → All IsName (walk path names)
unfolding walk
walk-names path [] h = h
walk-names path (name ∷ names) h = walk-names (enter path name) names (enter-names path name h)

All-behind {ℓ κ} : {A : Type ℓ} (P : A → Type κ) (xs ys : List A) → All P (xs ++ ys) → All P ys
All-behind P [] ys h = h
All-behind P (x ∷ xs) ys h = All-behind P xs ys h.1

resolve-ok :
    (base : FilePath) (key : Text) {path : FilePath}
    → resolve base key ≡ ok path
    → (is_relative_to (walk base (split_all b'/' key)) base ≡ true)
      × (path ≡ walk base (split_all b'/' key))
unfolding resolve
resolve-ok base key h = ground arith

-- A key that is resolved lies below the base directory, by entries that are neither empty nor `.` nor `..`.
pub resolve_contained :
    (base : FilePath) (key : Text) {path : FilePath}
    → All IsName base
    → resolve base key ≡ ok path
    → (rest : FilePath) × (path ≡ base ++ rest) × All IsName rest
resolve_contained base key {path} names h =
    let (inside, e) = resolve-ok base key h in
    let (rest, split) = is_relative_to_sound (walk base (split_all b'/' key)) base inside in
    (
      rest,
      e ∙ split,
      All-behind IsName base rest (rw split at (walk-names base (split_all b'/' key) names)),
    )

is_relative_to-append : (base rest : FilePath) → is_relative_to (base ++ rest) base ≡ true
unfolding is_relative_to
is_relative_to-append [] rest = refl
is_relative_to-append (b ∷ base) rest = rw (text_eq_refl b) (is_relative_to-append base rest)

-- The text of a relative path.
abbrev pub join : List Text → Text
join [] = []
join (n ∷ []) = n
join (n ∷ m ∷ ns) = n ++ b'/' ∷ join (m ∷ ns)

-- A text without a slash.
abbrev pub HasNoSlash : Text → Type 0
HasNoSlash = All (λ c. (c == b'/') ≡ false)

split_all-one : (n : Text) → HasNoSlash n → split_all b'/' n ≡ n ∷ []
unfolding split_all
split_all-one [] h = refl
split_all-one (c ∷ n) h = rw (h.0, split_all-one n h.1)

split_all-slash :
    (n s : Text) → HasNoSlash n → split_all b'/' (n ++ b'/' ∷ s) ≡ n ∷ split_all b'/' s
unfolding split_all
split_all-slash [] s h = refl
split_all-slash (c ∷ n) s h = rw (h.0, split_all-slash n s h.1)

pub split_all-join :
    (n : Text) (ns : List Text) → All HasNoSlash (n ∷ ns) → split_all b'/' (join (n ∷ ns)) ≡ n ∷ ns
split_all-join n [] h = split_all-one n h.0
split_all-join n (m ∷ ns) h =
    split_all-slash n (join (m ∷ ns)) h.0 ∙ ap (λ l. n ∷ l) (split_all-join m ns h.1)

walk-append : (path names : FilePath) → All IsName names → walk path names ≡ path ++ names
unfolding walk
walk-append path [] h = sym (append-nil path)
walk-append path (n ∷ names) h =
    rw (enter_name path n h.0)
      (walk-append (path ++ n ∷ []) names h.1 ∙ append_assoc path (n ∷ []) names)
  where
    enter_name : (path : FilePath) (n : Text) → IsName n → enter path n ≡ path ++ n ∷ []
    enter_name path n k = unfold enter in rw (k.0, k.1, k.2)

relative :
    (n : Text) (ns : List Text) → IsName n → HasNoSlash n → is_absolute (join (n ∷ ns)) ≡ false
unfolding is_absolute
relative [] ns k h = cc
relative (c ∷ n) [] k h = h.0
relative (c ∷ n) (m ∷ ns) k h = h.0

-- A key of plain names is resolved to those entries below the base directory.
pub resolve-join :
    (base : FilePath) (n : Text) (ns : List Text)
    → All IsName (n ∷ ns)
    → All HasNoSlash (n ∷ ns)
    → resolve base (join (n ∷ ns)) ≡ ok (base ++ n ∷ ns)
unfolding resolve
resolve-join base n ns k h = rw (
  relative n ns k.0 h.0,
  split_all-join n ns h,
  walk-append base (n ∷ ns) k,
  is_relative_to-append base (n ∷ ns),
)
