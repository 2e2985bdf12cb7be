-- ===== src/Session/Laws.antt =====
-- Rules for actions, and the storage methods as updates of the disk.
use mathlib.Core.List.{flatten}
use video_journal_be.Prelude.{
  ◌||◌, Bool-cases, ◌∙◌, ◌≡◌, refl, ap, true, false, List, ◌⊎◌, inl, inr, arith,
}
use video_journal_be.Errors
use video_journal_be.Errors.{Text, Bytes, Error, Result, Result-cases, ok, err, unexpected}
use video_journal_be.Storage.{FilePath, Stream, resolve, save, delete, path_or_url, write, unlink}
use video_journal_be.Session.{
  World, Env, M, continue, recover, ◌>>=◌, pure, flush, commit, rollback, request, commit_after,
  settle, save_file, delete_file, path_of, Change, apply, try_except, try_finally, run_ffmpeg_to,
}

-- How an action has ended: `P` where it returned, `Q` where it raised.
abbrev pub Outcome :
    {F A : Type 0}
    → (A → World F → Type 0)
    → (Error → World F → Type 0)
    → Result A × World F
    → Type 0
Outcome P Q (ok a, w) = P a w
Outcome P Q (err e, w) = Q e w

module _ {F A B : Type 0} where
  -- A step that has returned, and one that has raised.
  pub >>=-ok :
      (m : M F A) (f : A → M F B) (w : World F) {a : A} {w' : World F}
      → m w ≡ (ok a, w')
      → (m >>= f) w ≡ f a w'
  >>=-ok m f w h = ap (continue f) h

  pub >>=-err :
      (m : M F A) (f : A → M F B) (w : World F) {e : Error} {w' : World F}
      → m w ≡ (err e, w')
      → (m >>= f) w ≡ (err e, w')
  >>=-err m f w h = ap (continue f) h

  pub Outcome-bind :
      (P : B → World F → Type 0) (Q : Error → World F → Type 0) (m : M F A) (f : A → M F B)
      (w : World F)
      → Outcome (λ a w'. Outcome P Q (f a w')) Q (m w)
      → Outcome P Q ((m >>= f) w)
  Outcome-bind P Q m f w h = go (m w) h
    where
      go :
          (r : Result A × World F)
          → Outcome (λ a w'. Outcome P Q (f a w')) Q r
          → Outcome P Q (continue f r)
      go (ok a, w') k = k
      go (err e, w') k = k

module _ {F A : Type 0} where
  pub Outcome-mono :
      (P P' : A → World F → Type 0) (Q Q' : Error → World F → Type 0) (r : Result A × World F)
      → ((a : A) (w : World F) → P a w → P' a w)
      → ((e : Error) (w : World F) → Q e w → Q' e w)
      → Outcome P Q r
      → Outcome P' Q' r
  Outcome-mono P P' Q Q' (ok a, w) f g h = f a w h
  Outcome-mono P P' Q Q' (err e, w) f g h = g e w h

module _ {F A : Type 0} where
  pub Outcome-try :
      (P : A → World F → Type 0) (Q : Error → World F → Type 0) (m : M F A)
      (handler : Error → M F A) (w : World F)
      → Outcome P (λ e w'. Outcome P Q (handler e w')) (m w)
      → Outcome P Q (try_except m handler w)
  Outcome-try P Q m handler w h = go (m w) h
    where
      go :
          (r : Result A × World F)
          → Outcome P (λ e w'. Outcome P Q (handler e w')) r
          → Outcome P Q (recover handler r)
      go (ok a, w') k = k
      go (err e, w') k = k

module _ {F A : Type 0} where
  pub Outcome-finally :
      (P : A → World F → Type 0) (Q : Error → World F → Type 0) (m : M F A)
      (clean : World F → World F) (w : World F)
      → Outcome (λ a w'. P a (clean w')) (λ e w'. Q e (clean w')) (m w)
      → Outcome P Q (try_finally m clean w)
  Outcome-finally P Q m clean w h = go (m w) h
    where
      go :
          (r : Result A × World F)
          → Outcome (λ a w'. P a (clean w')) (λ e w'. Q e (clean w')) r
          → Outcome P Q (let (s, w') = r in (s, clean w'))
      go (ok a, w') k = k
      go (err e, w') k = k

-- Two worlds that differ at most in the temporary files.
abbrev pub Keeps : {F : Type 0} → World F → World F → Type 0
Keeps w w' =
    (w'.committed ≡ w.committed)
    × (w'.working ≡ w.working)
    × (w'.broken ≡ w.broken)
    × (w'.files ≡ w.files)

module _ {F : Type 0} (env : Env F) where
  pub run_ffmpeg_to-Keeps :
      (name : FilePath) (args : List Text) (w : World F)
      → Outcome (λ _ w'. Keeps w w') (λ _ w'. Keeps w w') (run_ffmpeg_to env name args w)
  unfolding run_ffmpeg_to
  run_ffmpeg_to-Keeps name args w = elim (Result-cases (env.run_ffmpeg args w.files w.temps)) [
    | inl (bytes, done) ↦ rw done (refl, refl, refl, refl)
    | inr (e, failed) ↦ rw failed (refl, refl, refl, refl)
  ]

  -- What ffmpeg returns is the content of its temporary file.
  pub run_ffmpeg_to-ok :
      (name : FilePath) (args : List Text) (w : World F) {b : Bytes}
      → env.run_ffmpeg args w.files w.temps ≡ ok b
      → run_ffmpeg_to env name args w ≡ (ok tt, record w { temps = write name b w.temps })
  unfolding run_ffmpeg_to
  run_ffmpeg_to-ok name args w h = rw h refl

  pub run_ffmpeg_to-err :
      (name : FilePath) (args : List Text) (w : World F) {e : Error}
      → env.run_ffmpeg args w.files w.temps ≡ err e
      → run_ffmpeg_to env name args w ≡ (err e, w)
  unfolding run_ffmpeg_to
  run_ffmpeg_to-err name args w h = rw h refl

  -- A flush either takes effect or breaks the session.
  pub flush_lem :
      (c : Change F) (w : World F)
      → (flush env c w ≡ (ok tt, record w { working = apply c w.working }))
        ⊎ (flush env c w ≡ (err unexpected, record w { broken = true }))
  unfolding flush
  flush_lem c w = ground arith

  pub save_file_lem :
      (s : Stream) (key : Text) (p : FilePath) (w : World F)
      → resolve env.base key ≡ ok p
      → save_file env s key w
        ≡ (Errors.◌>>◌ s.ending (ok key), record w { files = write p (flatten s.chunks) w.files })
  unfolding save_file save
  save_file_lem s key p w h = rw h

  pub delete_file_lem :
      (key : Text) (p : FilePath) (w : World F)
      → resolve env.base key ≡ ok p
      → delete_file env key w ≡ (ok tt, record w { files = unlink p w.files })
  unfolding delete_file delete
  delete_file_lem key p w h = rw h

  pub path_of_lem :
      (key : Text) (p : FilePath) (w : World F)
      → resolve env.base key ≡ ok p
      → path_of env key w ≡ (ok p, w)
  unfolding path_of path_or_url
  path_of_lem key p w h = rw h

  pub commit_lem :
      (w : World F)
      → ((w.broken ≡ false) × (commit env w ≡ (ok tt, record w { committed = w.working })))
        ⊎ (commit env w ≡ (err unexpected, record w { broken = true }))
  unfolding commit
  commit_lem w = ground arith

  -- How a request ends when its handler has returned.
  settle_lem :
      {A : Type 0} (a : A) (w : World F)
      → ((w.broken ≡ false)
          × (settle env (commit_after env (ok a, w)) ≡ (ok a, record w { committed = w.working })))
        ⊎ (settle env (commit_after env (ok a, w))
            ≡ (err unexpected, record w { working = w.committed; broken = false }))
  unfolding rollback settle commit_after
  settle_lem a w = elim (commit_lem w) [
    | inl (intact, granted) ↦
        inl (intact, ap (settle env) (>>=-ok (commit env) (λ _. pure a) w granted))
    | inr refused ↦ inr (ap (settle env) (>>=-err (commit env) (λ _. pure a) w refused))
  ]

  -- A request commits what its handler wrote, or rolls back to what was last committed: where the handler
  -- raises, and where the commit fails, as it does in a broken session.
  pub request-Outcome :
      {A : Type 0} (P : A → World F → Type 0) (Q : Error → World F → Type 0) (m : M F A)
      (w : World F)
      → Outcome
          (λ a w'.
            (w'.broken ≡ false → P a (record w' { committed = w'.working }))
            × Q unexpected (record w' { working = w'.committed; broken = false }))
          (λ e w'. Q e (record w' { working = w'.committed; broken = false }))
          (m (record w { working = w.committed; broken = false }))
      → Outcome P Q (request env m w)
  unfolding request rollback commit
  request-Outcome P Q m w h = go (m (record w { working = w.committed; broken = false })) h
    where
      go :
          (r : Result _ × World F)
          → Outcome
              (λ a w'.
                (w'.broken ≡ false → P a (record w' { committed = w'.working }))
                × Q unexpected (record w' { working = w'.committed; broken = false }))
              (λ e w'. Q e (record w' { working = w'.committed; broken = false }))
              r
          → Outcome P Q (settle env (commit_after env r))
      go (err e, w') k = k
      go (ok a, w') k = elim (settle_lem a w') [
        | inl (intact, granted) ↦ rw granted (k.0 intact)
        | inr refused ↦ rw refused k.1
      ]

  -- A handler that commits before it returns ends like one that leaves the commit to `get_session`, whose own
  -- commit then has nothing to do.
  pub request-commit :
      {A : Type 0} (P : A → World F → Type 0) (Q : Error → World F → Type 0) (m : M F A)
      (w : World F)
      → Outcome
          (λ a w'.
            (w'.broken ≡ false → P a (record w' { committed = w'.working }))
            × Q unexpected (record w' { working = w'.committed; broken = false }))
          (λ e w'. Q e (record w' { working = w'.committed; broken = false }))
          (m (record w { working = w.committed; broken = false }))
      → Outcome P Q (request env (m >>= λ a. commit env >>= λ _. pure a) w)
  unfolding request rollback commit settle commit_after
  request-commit P Q m w h = go (m (record w { working = w.committed; broken = false })) h
    where
      go :
          (r : Result _ × World F)
          → Outcome
              (λ a w'.
                (w'.broken ≡ false → P a (record w' { committed = w'.working }))
                × Q unexpected (record w' { working = w'.committed; broken = false }))
              (λ e w'. Q e (record w' { working = w'.committed; broken = false }))
              r
          → Outcome P Q
              (settle env (commit_after env (continue (λ a. commit env >>= λ _. pure a) r)))
      go (err e, w') k = k
      go (ok a, w') k = elim (Bool-cases (w'.broken || env.refuses_commit w'.working)) [
        | inl refused ↦ rw refused k.1
        | inr granted ↦
            let intact : w'.broken ≡ false = ground arith in rw (granted, granted) (k.0 intact)
      ]

  pub request_raised :
      {A : Type 0} (m : M F A) (w : World F) {e : Error} {w' : World F}
      → m (record w { working = w.committed; broken = false }) ≡ (err e, w')
      → request env m w ≡ (err e, record w' { working = w'.committed; broken = false })
  unfolding request settle commit_after rollback
  request_raised m w h = ap (λ r. settle env (commit_after env r)) h

  pub flush_refused :
      (c : Change F) (w : World F)
      → env.refuses c w.working ≡ true
      → flush env c w ≡ (err unexpected, record w { broken = true })
  unfolding flush
  flush_refused c w h = ground arith

  pub flush_broken :
      (c : Change F) (w : World F)
      → w.broken ≡ true
      → flush env c w ≡ (err unexpected, record w { broken = true })
  unfolding flush
  flush_broken c w h = ground arith

  -- A request that reads only, where the database has nothing to object to.
  pub request_reads :
      {A : Type 0} (m : M F A) (w : World F) (r : Result A)
      → m (record w { working = w.committed; broken = false })
        ≡ (r, record w { working = w.committed; broken = false })
      → env.refuses_commit w.committed ≡ false
      → request env m w ≡ (r, record w { working = w.committed; broken = false })
  unfolding request settle commit_after rollback commit
  request_reads m w (ok a) h granted = ap (λ s. settle env (commit_after env s)) h ∙ rw granted refl
  request_reads m w (err e) h granted = ap (λ s. settle env (commit_after env s)) h
