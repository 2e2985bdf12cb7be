-- ===== src/Compilations/Rendering/Keeping.antt =====
-- The steps of a render before its commit leave what is committed as it is.
use video_journal_be.Prelude.{
  ℕ, ◌≡◌, refl, ◌∙◌, Option, none, some, List, [], ◌∷◌, if◌then◌else◌, inl, inr, Bool-cases,
}
use video_journal_be.Errors.{Text, Error, Result, ok, err, not_found}
use video_journal_be.Session.Rows.{find}
use video_journal_be.Compilations.Service.{find_soundtrack}
use video_journal_be.Compilations.Queries.{clips_of, sorted_clips}
use video_journal_be.Models.{Tables, Clip, Compilation, CompilationClip}
use video_journal_be.Storage.{FilePath}
use video_journal_be.Media.{path_text}
use video_journal_be.Session.{
  World, Env, M, pure, raise, lift, gets, require, ◌>>=◌, path_of, recover,
}
use video_journal_be.Session.Laws.{Outcome, Outcome-bind, Outcome-mono}
use video_journal_be.Compilations.Rendering.{
  specs_of, build_clip_specs, resolve_soundtrack_path, probe_duration, probed, is_probe_error,
  usable, spec_of,
}

-- Whatever the action does and however it ends, what was committed stays.
pub record KeepsCommitted {F A : Type 0} (m : M F A) : Type 0 where
  pub keeps :
      (w : World F)
      → Outcome (λ _ w'. w'.committed ≡ w.committed) (λ _ w'. w'.committed ≡ w.committed) (m w)

module _ {F A B : Type 0} where
  pub KeepsCommitted-bind :
      (m : M F A) (f : A → M F B)
      → KeepsCommitted m
      → ((a : A) → KeepsCommitted (f a))
      → KeepsCommitted (m >>= f)
  KeepsCommitted-bind m f h k = record {
    keeps = λ w. Outcome-bind _ _ m f w (
        Outcome-mono _ _ _ _ (m w)
          (λ a w1 e.
            Outcome-mono _ _ _ _ (f a w1) (λ b w2 g. g ∙ e) (λ x w2 g. g ∙ e) ((k a).keeps w1))
          (λ x w1 e. e) (h.keeps w));
  }

module _ {F A : Type 0} where
  pub KeepsCommitted-pure : (a : A) → KeepsCommitted {F = F} (pure a)
  KeepsCommitted-pure a = record { keeps = λ w. refl }

  pub KeepsCommitted-gets : (f : World F → A) → KeepsCommitted (gets f)
  KeepsCommitted-gets f = record { keeps = λ w. refl }

  pub KeepsCommitted-lift : (r : Result A) → KeepsCommitted {F = F} (lift r)
  KeepsCommitted-lift (ok a) = record { keeps = λ w. refl }
  KeepsCommitted-lift (err e) = record { keeps = λ w. refl }

  pub KeepsCommitted-require : (o : Option A) (e : Error) → KeepsCommitted {F = F} (require o e)
  KeepsCommitted-require none e = record { keeps = λ w. refl }
  KeepsCommitted-require (some a) e = record { keeps = λ w. refl }

module _ {F A B : Type 0} where
  require_bind :
      (o : Option A) (e : Error) (f : A → M F B)
      → ((a : A) → KeepsCommitted (f a))
      → KeepsCommitted (require o e >>= f)
  require_bind o e f k = KeepsCommitted-bind (require o e) f (KeepsCommitted-require o e) k

  gets_bind :
      (g : World F → A) (f : A → M F B)
      → ((a : A) → KeepsCommitted (f a))
      → KeepsCommitted (gets g >>= f)
  gets_bind g f k = KeepsCommitted-bind (gets g) f (KeepsCommitted-gets g) k

module _ {F : Type 0} (env : Env F) where
  KeepsCommitted-path_of : (key : Text) → KeepsCommitted (path_of env key)
  unfolding path_of
  KeepsCommitted-path_of key = KeepsCommitted-lift _

module _ {F : Type 0} (env : Env F) (dst : FilePath) where
  specs_of-KeepsCommitted : (ccs : List (CompilationClip F)) → KeepsCommitted (specs_of env dst ccs)
  unfolding specs_of
  specs_of-KeepsCommitted [] = KeepsCommitted-pure []
  specs_of-KeepsCommitted (c ∷ ccs) =
      gets_bind (λ (w : World F). w.working.clips) _
        (λ clips.
          require_bind (usable env dst (find (λ (x : Clip F). x.id) c.clip_id clips)) not_found _
            (λ found.
              KeepsCommitted-bind (path_of env found.1) _ (KeepsCommitted-path_of env found.1)
                (λ path.
                  KeepsCommitted-bind (specs_of env dst ccs) _ (specs_of-KeepsCommitted ccs)
                    (λ rest. KeepsCommitted-pure (spec_of env dst c found.0 path ∷ rest)))))

  pub build_clip_specs-KeepsCommitted :
      (compilation_id : ℕ) → KeepsCommitted (build_clip_specs env dst compilation_id)
  unfolding build_clip_specs
  build_clip_specs-KeepsCommitted compilation_id =
      gets_bind (λ (w : World F). w.working.compilation_clips) _
        (λ (rows : List (CompilationClip F)).
          specs_of-KeepsCommitted (sorted_clips (clips_of compilation_id rows)))

  pub resolve_soundtrack_path-KeepsCommitted :
      (compilation : Compilation F) → KeepsCommitted (resolve_soundtrack_path env dst compilation)
  unfolding resolve_soundtrack_path
  resolve_soundtrack_path-KeepsCommitted compilation =
      require_bind compilation.soundtrack_id not_found _ (λ soundtrack_id.
        gets_bind (λ (w : World F). find_soundtrack env soundtrack_id w) _
          (λ found. require_bind found not_found _ (λ soundtrack.
            KeepsCommitted-bind (path_of env soundtrack.key) _
              (KeepsCommitted-path_of env soundtrack.key)
              (λ path. KeepsCommitted-pure (path_text path)))))

  pub probe_duration_world :
      (before : Option F) (w : World F) → (probe_duration env dst before w).1 ≡ w
  unfolding probe_duration probed
  probe_duration_world before w = go _
    where
      go :
          (r : Result (Option F))
          → (recover (λ e. if is_probe_error env dst e then pure before else raise e) (r, w)).1 ≡ w
      go (ok d) = refl
      go (err e) = elim (Bool-cases (is_probe_error env dst e)) [
        | inl b ↦ rw b refl
        | inr b ↦ rw b refl
      ]

-- A step before the commit, and what follows it, where the tables `t` were committed last.
module _ {F A B : Type 0} where
  pub KeepsCommitted-then :
      (P : B → World F → Type 0) (t : Tables F) (m : M F A) (f : A → M F B) (w : World F)
      → KeepsCommitted m
      → w.committed ≡ t
      → ((a : A) (w1 : World F) → w1.committed ≡ t → Outcome P (λ _ w'. w'.committed ≡ t) (f a w1))
      → Outcome P (λ _ w'. w'.committed ≡ t) ((m >>= f) w)
  KeepsCommitted-then P t m f w h start k =
      Outcome-bind P (λ _ w'. w'.committed ≡ t) m f w
        (Outcome-mono _ _ _ _ (m w) (λ a w1 e. k a w1 (e ∙ start)) (λ x w1 e. e ∙ start)
          (h.keeps w))
