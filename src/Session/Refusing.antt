-- ===== src/Session/Refusing.antt =====
-- Actions whose errors have statuses from a list, and how they compose.
use video_journal_be.Prelude.{
  ℕ, refl, inl, inr, Bool, true, false, Option, none, some, List, if◌then◌else◌,
}
use video_journal_be.Errors.{Text, Error, Result, ok, err}
use video_journal_be.Errors.Listed.{IsListed, HasListed}
use video_journal_be.Storage.{Stream, path_or_url}
use video_journal_be.Storage.Files.{resolve-HasListed, save-HasListed, delete-HasListed}
use video_journal_be.Session.{
  World, Env, M, pure, raise, lift, gets, require, ◌>>=◌, ◌>>◌, raise_when, Change, flush, commit,
  request, save_file, delete_file, path_of, try_except,
}
use video_journal_be.Session.Laws.{
  Outcome, Outcome-bind, Outcome-mono, Outcome-try, flush_lem, commit_lem, request-Outcome,
}

pub record Refuses {F A : Type 0} (statuses : List ℕ) (m : M F A) : Type 0 where
  pub refuses : (w : World F) → Outcome (λ _ _. Unit {0}) (λ e _. IsListed statuses e) (m w)

module _ {F A B : Type 0} {statuses : List ℕ} where
  pub Refuses-bind :
      {m : M F A} {f : A → M F B}
      → Refuses statuses m
      → ((a : A) → Refuses statuses (f a))
      → Refuses statuses (m >>= f)
  Refuses-bind {m} {f} h k = record {
    refuses = λ w.
        Outcome-bind _ _ m f w
          (Outcome-mono _ _ _ _ (m w) (λ a w1 _. (k a).refuses w1) (λ e w1 g. g) (h.refuses w));
  }

  pub Refuses-then :
      {m : M F A} {k : M F B} → Refuses statuses m → Refuses statuses k → Refuses statuses (m >> k)
  Refuses-then h k = Refuses-bind h (λ _. k)

module _ {F A : Type 0} {statuses : List ℕ} where
  pub Refuses-pure : (a : A) → Refuses {F = F} statuses (pure a)
  Refuses-pure a = record { refuses = λ w. tt }

  pub Refuses-raise : (e : Error) → IsListed statuses e → Refuses {F = F} {A = A} statuses (raise e)
  Refuses-raise e h = record { refuses = λ w. h }

  pub Refuses-gets : (f : World F → A) → Refuses statuses (gets f)
  Refuses-gets f = record { refuses = λ w. tt }

  pub Refuses-require :
      (o : Option A) (e : Error) → IsListed statuses e → Refuses {F = F} statuses (require o e)
  Refuses-require none e h = Refuses-raise e h
  Refuses-require (some a) e h = Refuses-pure a

  -- An action that ends as a result says.
  pub Refuses-told : (m : M F A) → ((w : World F) → HasListed statuses (m w).0) → Refuses statuses m
  Refuses-told m h = record { refuses = λ w. go (m w) (h w) }
    where
      go :
          (r : Result A × World F)
          → HasListed statuses r.0
          → Outcome (λ _ _. Unit {0}) (λ e _. IsListed statuses e) r
      go (ok a, w) k = tt
      go (err e, w) k = k.told

  pub Refuses-lift : {r : Result A} → HasListed statuses r → Refuses {F = F} statuses (lift r)
  Refuses-lift {r} h = Refuses-told (lift r) (λ w. h)

  pub Refuses-look :
      {k : World F → M F A}
      → ((w : World F) → Refuses statuses (k w))
      → Refuses statuses (λ w. k w w)
  Refuses-look h = record { refuses = λ w. (h w).refuses w }

  pub Refuses-try :
      {m : M F A} {handler : Error → M F A}
      → Refuses statuses m
      → ((e : Error) → IsListed statuses e → Refuses statuses (handler e))
      → Refuses statuses (try_except m handler)
  Refuses-try {m} {handler} h k = record {
    refuses = λ w.
        Outcome-try _ _ m handler w
          (Outcome-mono _ _ _ _ (m w) (λ a w1 g. g) (λ e w1 g. (k e g).refuses w1) (h.refuses w));
  }

  pub Refuses-if :
      {m n : M F A} (b : Bool)
      → Refuses statuses m
      → Refuses statuses n
      → Refuses statuses (if b then m else n)
  Refuses-if true h k = h
  Refuses-if false h k = k

module _ {F : Type 0} {statuses : List ℕ} where
  pub Refuses-raise_when :
      (b : Bool) (e : Error) → IsListed statuses e → Refuses {F = F} statuses (raise_when b e)
  Refuses-raise_when true e h = record { refuses = λ w. h }
  Refuses-raise_when false e h = record { refuses = λ w. tt }

module _ {F : Type 0} (env : Env F) {statuses : List ℕ} where
  pub Refuses-save_file :
      (s : Stream) (key : Text)
      → HasListed statuses s.ending
      → Refuses statuses (save_file env s key)
  unfolding save_file
  Refuses-save_file s key h =
      Refuses-told (save_file env s key) (λ w. save-HasListed statuses env.base s key w.files h)

  pub Refuses-delete_file : (key : Text) → Refuses statuses (delete_file env key)
  unfolding delete_file
  Refuses-delete_file key =
      Refuses-told (delete_file env key) (λ w. delete-HasListed statuses env.base key w.files)

  pub Refuses-path_of : (key : Text) → Refuses statuses (path_of env key)
  unfolding path_of path_or_url
  Refuses-path_of key =
      Refuses-told (path_of env key) (λ w. resolve-HasListed statuses env.base key)

  pub Refuses-flush : (c : Change F) → Refuses statuses (flush env c)
  Refuses-flush c = record {
    refuses =
        λ w. elim (flush_lem env c w) [ inl done ↦ rw done tt | inr refused ↦ rw refused refl ];
  }

  pub Refuses-commit : Refuses statuses (commit env)
  Refuses-commit = record {
    refuses = λ w. elim (commit_lem env w) [
      | inl (intact, done) ↦ rw done tt
      | inr refused ↦ rw refused refl
    ];
  }

  pub Refuses-request :
      {A : Type 0} {m : M F A} → Refuses statuses m → Refuses statuses (request env m)
  Refuses-request {A} {m} h = record {
    refuses = λ w. request-Outcome env _ _ m w (
        Outcome-mono _ _ _ _ (m (record w { working = w.committed; broken = false }))
          (λ a w1 g. (λ intact. tt, refl)) (λ e w1 g. g)
          (h.refuses (record w { working = w.committed; broken = false })));
  }
