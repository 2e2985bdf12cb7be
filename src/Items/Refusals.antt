-- ===== src/Items/Refusals.antt =====
-- The statuses of the errors that the requests on items end in.
use video_journal_be.Prelude.{ℕ, refl, List, [], ◌∷◌}
use video_journal_be.Errors.{not_found, validation_error}
use video_journal_be.Errors.Listed.{IsListed}
use video_journal_be.Models.{Item}
use video_journal_be.Session.{Env, put_item, delete_item}
use video_journal_be.Session.Rows.{find}
use video_journal_be.Session.Refusing.{
  Refuses, Refuses-bind, Refuses-then, Refuses-pure, Refuses-require, Refuses-look, Refuses-if,
  Refuses-raise_when, Refuses-flush, Refuses-request,
}
use video_journal_be.Items.{
  ItemCreate, ItemUpdate, is_changed, new_item, updated_item, add_item, create_item, get_item,
  save_item, update_item, delete_item_row, post_item, patch_item, remove_item,
}

module _ {F : Type 0} (env : Env F) where
  add_item-Refuses : {statuses : List ℕ} (i : Item) → Refuses statuses (add_item env i)
  unfolding add_item
  add_item-Refuses i = Refuses-then (Refuses-flush env (put_item i)) (Refuses-pure i)

  get_item-Refuses :
      {statuses : List ℕ} (item_id : ℕ)
      → IsListed statuses not_found
      → Refuses statuses (get_item env item_id)
  unfolding get_item
  get_item-Refuses item_id h =
      Refuses-look
        (λ w. Refuses-require (find (λ (i : Item). i.id) item_id w.working.items) not_found h)

  pub post_item-Refuses :
      (item_id now : ℕ) (data_in : ItemCreate)
      → Refuses (422 ∷ []) (post_item env item_id now data_in)
  unfolding post_item create_item
  post_item-Refuses item_id now data_in = Refuses-request env (
      Refuses-then (Refuses-raise_when _ validation_error refl)
        (add_item-Refuses (new_item item_id now data_in)))

  pub patch_item-Refuses :
      (now item_id : ℕ) (u : ItemUpdate) → Refuses (404 ∷ 422 ∷ []) (patch_item env now item_id u)
  unfolding patch_item update_item save_item
  patch_item-Refuses now item_id u = Refuses-request env (
      Refuses-then (Refuses-raise_when _ validation_error refl) (
        Refuses-bind (get_item-Refuses item_id refl) (λ i.
          Refuses-if (is_changed i (updated_item u i)) (add_item-Refuses _) (Refuses-pure i))))

  pub remove_item-Refuses : (item_id : ℕ) → Refuses (404 ∷ []) (remove_item env item_id)
  unfolding remove_item delete_item_row
  remove_item-Refuses item_id =
      Refuses-request env
        (Refuses-bind (get_item-Refuses item_id refl) (λ i. Refuses-flush env (delete_item i.id)))
