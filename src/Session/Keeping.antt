-- ===== src/Session/Keeping.antt =====
-- Actions that leave consistent tables consistent, and how they compose.
use video_journal_be.Prelude.{
  ◌≡◌, refl, inl, inr, Bool, true, false, not, Option, none, some, subst, sym, List, if◌then◌else◌,
}
use video_journal_be.Errors.{Text, Error, Result, Result-cases, ok, err}
use video_journal_be.Storage.{FilePath, Stream}
use video_journal_be.Session.{
  World, Env, M, pure, raise, lift, gets, require, ◌>>=◌, ◌>>◌, raise_when, Change, open_temp,
  unlink_temp, file_stream, flush, commit, rollback, request, save_file, delete_file, path_of,
  run_ffmpeg_to, try_except, try_finally,
}
use video_journal_be.Session.Laws.{
  Outcome, Outcome-bind, Outcome-mono, Outcome-try, Outcome-finally, flush_lem, commit_lem,
  request-Outcome,
}
use video_journal_be.Session.Consistent.{
  IsConsistent, IsConsistentChange, apply-IsConsistent, IsConsistentWorld,
}

abbrev pub Anything : {A : Type 0} → A → Type 0
Anything a = Unit

-- However the action ends, the tables are consistent if they were before; what it returns satisfies `P`.
pub record KeepsConsistent {F A : Type 0} (P : A → Type 0) (m : M F A) : Type 0 where
  pub keeps :
      (w : World F)
      → IsConsistentWorld w
      → Outcome (λ a w'. IsConsistentWorld w' × P a) (λ _ w'. IsConsistentWorld w') (m w)

module _ {F A B : Type 0} where
  pub KeepsConsistent-bind :
      {P : A → Type 0} {Q : B → Type 0} {m : M F A} {f : A → M F B}
      → KeepsConsistent P m
      → ((a : A) → P a → KeepsConsistent Q (f a))
      → KeepsConsistent Q (m >>= f)
  KeepsConsistent-bind {P} {Q} {m} {f} h k = record {
    keeps = λ w c.
        Outcome-bind _ _ m f w (
          Outcome-mono _ _ _ _ (m w) (λ a w1 g. (k a g.1).keeps w1 g.0) (λ e w1 g. g)
            (h.keeps w c));
  }

  -- What the first action returns is not used.
  pub KeepsConsistent-then :
      {P : A → Type 0} {Q : B → Type 0} {m : M F A} {k : M F B}
      → KeepsConsistent P m
      → KeepsConsistent Q k
      → KeepsConsistent Q (m >> k)
  KeepsConsistent-then h k = KeepsConsistent-bind h (λ _ _. k)

module _ {F A : Type 0} where
  pub KeepsConsistent-pure : {P : A → Type 0} (a : A) → P a → KeepsConsistent {F = F} P (pure a)
  KeepsConsistent-pure a h = record { keeps = λ w c. (c, h) }

  pub KeepsConsistent-raise : {P : A → Type 0} (e : Error) → KeepsConsistent {F = F} P (raise e)
  KeepsConsistent-raise e = record { keeps = λ w c. c }

  pub KeepsConsistent-gets :
      {P : A → Type 0} (f : World F → A)
      → ((w : World F) → IsConsistentWorld w → P (f w))
      → KeepsConsistent P (gets f)
  KeepsConsistent-gets f h = record { keeps = λ w c. (c, h w c) }

  pub KeepsConsistent-lift :
      {P : A → Type 0} (r : Result A)
      → ((a : A) → r ≡ ok a → P a)
      → KeepsConsistent {F = F} P (lift r)
  KeepsConsistent-lift (ok a) h = record { keeps = λ w c. (c, h a refl) }
  KeepsConsistent-lift (err e) h = record { keeps = λ w c. c }

  pub KeepsConsistent-require :
      {P : A → Type 0} (o : Option A) (e : Error)
      → ((a : A) → o ≡ some a → P a)
      → KeepsConsistent {F = F} P (require o e)
  KeepsConsistent-require none e h = KeepsConsistent-raise e
  KeepsConsistent-require (some a) e h = KeepsConsistent-pure a (h a refl)

  -- An action that first looks at the world.
  pub KeepsConsistent-look :
      {P : A → Type 0} {k : World F → M F A}
      → ((w : World F) → IsConsistentWorld w → KeepsConsistent P (k w))
      → KeepsConsistent P (λ w. k w w)
  KeepsConsistent-look h = record { keeps = λ w c. (h w c).keeps w c }

  -- An action that leaves the tables alone.
  pub KeepsConsistent-same :
      (m : M F A)
      → ((w : World F) → ((m w).1.committed ≡ w.committed) × ((m w).1.working ≡ w.working))
      → KeepsConsistent Anything m
  KeepsConsistent-same m h = record {
    keeps = λ w c.
        go (m w) (subst IsConsistent (sym (h w).0) c.0, subst IsConsistent (sym (h w).1) c.1);
  }
    where
      go :
          (r : Result A × World F)
          → IsConsistentWorld r.1
          → Outcome (λ a w'. IsConsistentWorld w' × Anything a) (λ _ w'. IsConsistentWorld w') r
      go (ok a, w) c = (c, tt)
      go (err e, w) c = c

  pub KeepsConsistent-mono :
      {P Q : A → Type 0} {m : M F A}
      → ((a : A) → P a → Q a)
      → KeepsConsistent P m
      → KeepsConsistent Q m
  KeepsConsistent-mono {P} {Q} {m} f h = record {
    keeps =
        λ w c. Outcome-mono _ _ _ _ (m w) (λ a w1 g. (g.0, f a g.1)) (λ e w1 g. g) (h.keeps w c);
  }

  pub KeepsConsistent-try :
      {P : A → Type 0} {m : M F A} {handler : Error → M F A}
      → KeepsConsistent P m
      → ((e : Error) → KeepsConsistent P (handler e))
      → KeepsConsistent P (try_except m handler)
  KeepsConsistent-try {P} {m} {handler} h k = record {
    keeps = λ w c.
        Outcome-try _ _ m handler w
          (Outcome-mono _ _ _ _ (m w) (λ a w1 g. g) (λ e w1 g. (k e).keeps w1 g) (h.keeps w c));
  }

  pub KeepsConsistent-unlink :
      {P : A → Type 0} {m : M F A} (name : FilePath)
      → KeepsConsistent P m
      → KeepsConsistent P (try_finally m (unlink_temp name))
  unfolding unlink_temp
  KeepsConsistent-unlink {P} {m} name h = record {
    keeps = λ w c. Outcome-finally _ _ m (unlink_temp name) w (h.keeps w c);
  }

  pub KeepsConsistent-if :
      {P : A → Type 0} {m n : M F A} (b : Bool)
      → KeepsConsistent P m
      → KeepsConsistent P n
      → KeepsConsistent P (if b then m else n)
  KeepsConsistent-if true h k = h
  KeepsConsistent-if false h k = k

module _ {F : Type 0} where
  pub KeepsConsistent-raise_when :
      (b : Bool) (e : Error) → KeepsConsistent {F = F} Anything (raise_when b e)
  KeepsConsistent-raise_when b e = KeepsConsistent-same (raise_when b e) (λ w. (refl, refl))

  -- `if not b: raise`, and what follows knows `b`.
  pub KeepsConsistent-guard :
      {A : Type 0} {P : A → Type 0} {m : M F A} (b : Bool) (e : Error)
      → (b ≡ true → KeepsConsistent P m)
      → KeepsConsistent P (raise_when (not b) e >> m)
  KeepsConsistent-guard true e h = record { keeps = λ w c. (h refl).keeps w c }
  KeepsConsistent-guard false e h = record { keeps = λ w c. c }

  pub KeepsConsistent-open_temp :
      (name : FilePath) → KeepsConsistent {F = F} Anything (open_temp name)
  unfolding open_temp
  KeepsConsistent-open_temp name = KeepsConsistent-same (open_temp name) (λ w. (refl, refl))

  pub KeepsConsistent-file_stream :
      (name : FilePath) → KeepsConsistent {F = F} Anything (file_stream name)
  unfolding file_stream
  KeepsConsistent-file_stream name = KeepsConsistent-same (file_stream name) (λ w. (refl, refl))

module _ {F : Type 0} (env : Env F) where
  pub KeepsConsistent-save_file :
      (s : Stream) (key : Text) → KeepsConsistent Anything (save_file env s key)
  unfolding save_file
  KeepsConsistent-save_file s key = KeepsConsistent-same (save_file env s key) (λ w. (refl, refl))

  pub KeepsConsistent-delete_file : (key : Text) → KeepsConsistent Anything (delete_file env key)
  unfolding delete_file
  KeepsConsistent-delete_file key = KeepsConsistent-same (delete_file env key) (λ w. (refl, refl))

  pub KeepsConsistent-path_of : (key : Text) → KeepsConsistent Anything (path_of env key)
  unfolding path_of
  KeepsConsistent-path_of key = KeepsConsistent-same (path_of env key) (λ w. (refl, refl))

  pub KeepsConsistent-run_ffmpeg_to :
      (name : FilePath) (args : List Text) → KeepsConsistent Anything (run_ffmpeg_to env name args)
  unfolding run_ffmpeg_to
  KeepsConsistent-run_ffmpeg_to name args = KeepsConsistent-same (run_ffmpeg_to env name args) (λ w.
      elim (Result-cases (env.run_ffmpeg args w.files w.temps)) [
        | inl (b, e) ↦ rw e (refl, refl)
        | inr (x, e) ↦ rw e (refl, refl)
      ])

  pub KeepsConsistent-flush :
      (c : Change F) → IsConsistentChange c → KeepsConsistent Anything (flush env c)
  KeepsConsistent-flush c h = record {
    keeps = λ w k. elim (flush_lem env c w) [
      | inl done ↦ rw done ((k.0, apply-IsConsistent c w.working h k.1), tt)
      | inr refused ↦ rw refused k
    ];
  }

  pub KeepsConsistent-commit : KeepsConsistent Anything (commit env)
  KeepsConsistent-commit = record {
    keeps = λ w k. elim (commit_lem env w) [
      | inl (intact, done) ↦ rw done ((k.1, k.1), tt)
      | inr refused ↦ rw refused k
    ];
  }

  pub KeepsConsistent-rollback : KeepsConsistent Anything (rollback env)
  unfolding rollback
  KeepsConsistent-rollback = record { keeps = λ w k. ((k.0, k.0), tt) }

  -- A handler in a session of its own.
  pub KeepsConsistent-request :
      {A : Type 0} {P : A → Type 0} {m : M F A}
      → KeepsConsistent P m
      → KeepsConsistent P (request env m)
  KeepsConsistent-request {A} {P} {m} h = record {
    keeps = λ w k.
        request-Outcome env (λ a w'. IsConsistentWorld w' × P a) (λ _ w'. IsConsistentWorld w') m w
          (Outcome-mono _ _ _ _ (m (record w { working = w.committed; broken = false }))
            (λ a w1 g. (λ intact. ((g.0.1, g.0.1), g.1), (g.0.0, g.0.0))) (λ e w1 g. (g.0, g.0))
            (h.keeps (record w { working = w.committed; broken = false }) (k.0, k.0)));
  }
