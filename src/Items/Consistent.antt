-- ===== src/Items/Consistent.antt =====
-- The requests on items leave the tables consistent.
use video_journal_be.Prelude.{ℕ, ◌≡◌, true, Option, none, some, arith}
use video_journal_be.Errors.{Text, not_found, validation_error}
use video_journal_be.Models.{Item}
use video_journal_be.Session.{Env, put_item, delete_item}
use video_journal_be.Session.Rows.{find}
use video_journal_be.Session.Consistent.{IsConsistentItem, IsTable-find}
use video_journal_be.Session.Keeping.{
  Anything, KeepsConsistent, KeepsConsistent-bind, KeepsConsistent-flush, KeepsConsistent-if,
  KeepsConsistent-guard, KeepsConsistent-look, KeepsConsistent-pure, KeepsConsistent-request,
  KeepsConsistent-require, KeepsConsistent-then,
}
use video_journal_be.Clips.Service.{or_else}
use video_journal_be.Items.{
  ItemCreate, ItemUpdate, is_name, is_optional_name, is_changed, new_item, updated_item, add_item,
  create_item, get_item, save_item, update_item, delete_item_row, post_item, patch_item,
  remove_item,
}

module _ {F : Type 0} (env : Env F) where
  add_item-KeepsConsistent :
      (i : Item) → IsConsistentItem i → KeepsConsistent Anything (add_item env i)
  unfolding add_item
  add_item-KeepsConsistent i h =
      KeepsConsistent-then (KeepsConsistent-flush env (put_item i) h) (KeepsConsistent-pure i tt)

  get_item-KeepsConsistent : (item_id : ℕ) → KeepsConsistent IsConsistentItem (get_item env item_id)
  unfolding get_item
  get_item-KeepsConsistent item_id =
      let id_of : Item → ℕ = λ i. i.id in
      KeepsConsistent-look (λ w k.
        KeepsConsistent-require (find id_of item_id w.working.items) not_found
          (λ i e. IsTable-find id_of IsConsistentItem item_id w.working.items k.1.items e))

  updated_item-IsConsistentItem :
      (u : ItemUpdate) (i : Item)
      → is_optional_name u.name ≡ true
      → IsConsistentItem i
      → IsConsistentItem (updated_item u i)
  unfolding updated_item is_optional_name is_name
  updated_item-IsConsistentItem u i ok_name h = go u.name ok_name
    where
      go :
          (n : Option Text)
          → is_optional_name n ≡ true
          → IsConsistentItem (record i { name = or_else n i.name })
      go none e = h
      go (some name) e = ground arith

  save_item-KeepsConsistent :
      (now : ℕ) (before after : Item)
      → IsConsistentItem after
      → KeepsConsistent Anything (save_item env now before after)
  unfolding save_item
  save_item-KeepsConsistent now before after h =
      KeepsConsistent-if (is_changed before after) (add_item-KeepsConsistent _ h)
        (KeepsConsistent-pure before tt)

  update_item-KeepsConsistent :
      (now item_id : ℕ) (u : ItemUpdate)
      → is_optional_name u.name ≡ true
      → KeepsConsistent Anything (update_item env now item_id u)
  unfolding update_item
  update_item-KeepsConsistent now item_id u valid =
      KeepsConsistent-bind (get_item-KeepsConsistent item_id) (λ i h.
        save_item-KeepsConsistent now i (updated_item u i)
          (updated_item-IsConsistentItem u i valid h))

  create_item-KeepsConsistent :
      (item_id now : ℕ) (data_in : ItemCreate)
      → is_name data_in.name ≡ true
      → KeepsConsistent Anything (create_item env item_id now data_in)
  unfolding create_item new_item is_name
  create_item-KeepsConsistent item_id now data_in valid = add_item-KeepsConsistent _ (ground arith)

  pub post_item-KeepsConsistent :
      (item_id now : ℕ) (data_in : ItemCreate)
      → KeepsConsistent Anything (post_item env item_id now data_in)
  unfolding post_item
  post_item-KeepsConsistent item_id now data_in = KeepsConsistent-request env (
      KeepsConsistent-guard (is_name data_in.name) validation_error
        (create_item-KeepsConsistent item_id now data_in))

  pub patch_item-KeepsConsistent :
      (now item_id : ℕ) (u : ItemUpdate) → KeepsConsistent Anything (patch_item env now item_id u)
  unfolding patch_item
  patch_item-KeepsConsistent now item_id u = KeepsConsistent-request env (
      KeepsConsistent-guard (is_optional_name u.name) validation_error
        (update_item-KeepsConsistent now item_id u))

  delete_item_row-KeepsConsistent :
      (item_id : ℕ) → KeepsConsistent Anything (delete_item_row env item_id)
  unfolding delete_item_row
  delete_item_row-KeepsConsistent item_id =
      KeepsConsistent-bind (get_item-KeepsConsistent item_id)
        (λ i h. KeepsConsistent-flush env (delete_item i.id) tt)

  pub remove_item-KeepsConsistent :
      (item_id : ℕ) → KeepsConsistent Anything (remove_item env item_id)
  unfolding remove_item
  remove_item-KeepsConsistent item_id =
      KeepsConsistent-request env (delete_item_row-KeepsConsistent item_id)
