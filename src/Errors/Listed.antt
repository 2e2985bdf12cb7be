-- ===== src/Errors/Listed.antt =====
-- Results whose error, if any, has a status from a list; 500 is always on it.
use video_journal_be.Prelude.{
  ℕ, ◌≡◌, Bool, true, false, ◌||◌, ◌==◌, if◌then◌else◌, Option, none, some, List, [], ◌∷◌,
}
use video_journal_be.Errors.{Error, Result, ok, err, status_code, ◌>>=◌, or_raise, raise_if}

abbrev pub member : ℕ → List ℕ → Bool
member n [] = false
member n (m ∷ ms) = n == m || member n ms

abbrev pub IsListed : List ℕ → Error → Type 0
IsListed statuses e = member (status_code e) (500 ∷ statuses) ≡ true

abbrev pub IsTold : {A : Type 0} → List ℕ → Result A → Type 0
IsTold statuses (ok a) = Unit
IsTold statuses (err e) = IsListed statuses e

pub record HasListed {A : Type 0} (statuses : List ℕ) (r : Result A) : Type 0 where
  pub told : IsTold statuses r

module _ {statuses : List ℕ} where
  pub HasListed-ok : {A : Type 0} (a : A) → HasListed statuses (ok a)
  HasListed-ok a = record { told = tt }

  pub HasListed-err :
      {A : Type 0} (e : Error) → IsListed statuses e → HasListed {A = A} statuses (err e)
  HasListed-err e h = record { told = h }

  pub HasListed-bind :
      {A B : Type 0} {r : Result A} {f : A → Result B}
      → HasListed statuses r
      → ((a : A) → HasListed statuses (f a))
      → HasListed statuses (r >>= f)
  HasListed-bind {A} {B} {r} {f} h k = go r h.told
    where
      go : (r : Result A) → IsTold statuses r → HasListed statuses (r >>= f)
      go (ok a) l = k a
      go (err e) l = HasListed-err e l

  pub HasListed-or_raise :
      {A : Type 0} (o : Option A) (e : Error)
      → IsListed statuses e
      → HasListed statuses (or_raise o e)
  HasListed-or_raise none e h = HasListed-err e h
  HasListed-or_raise (some a) e h = HasListed-ok a

  pub HasListed-if :
      {A : Type 0} (b : Bool) {r s : Result A}
      → HasListed statuses r
      → HasListed statuses s
      → HasListed statuses (if b then r else s)
  HasListed-if true h k = h
  HasListed-if false h k = k

  pub HasListed-raise_if :
      (b : Bool) (e : Error) → IsListed statuses e → HasListed statuses (raise_if b e)
  HasListed-raise_if true e h = HasListed-err e h
  HasListed-raise_if false e h = HasListed-ok tt
