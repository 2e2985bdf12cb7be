-- ===== src/Items.antt =====
-- The items: domains/items, schemas.py with the bounds of the name, service.py, repository.py and router.py.
pub mod Consistent
pub mod Refusals
use video_journal_be.Prelude.{
  negsuc, pos_part, take, pos, drop, ℤ, ℕ, Bool, true, false, not, ◌&&◌, ◌||◌, Option, none, some,
  List, if◌then◌else◌, leb, length,
}
use video_journal_be.Errors.{Text, not_found, validation_error}
use video_journal_be.Text.{text_eq}
use video_journal_be.Models.{Item}
use video_journal_be.Session.{
  World, Env, M, pure, raise, gets, require, ◌>>=◌, ◌>>◌, raise_when, put_item, delete_item, flush,
  request,
}
use video_journal_be.Session.Rows.{find}
use video_journal_be.Clips.Service.{or_else, or_option}

-- `ItemCreate`
pub record ItemCreate : Type 0 where
  pub name : Text
  pub description : Option Text

-- `ItemUpdate`
pub record ItemUpdate : Type 0 where
  pub name : Option Text
  pub description : Option Text

-- `Field(min_length=1, max_length=200)`
unfoldable pub is_name : Text → Bool
is_name name = leb 1 (length name) && leb (length name) 200

unfoldable pub is_optional_name : Option Text → Bool
unfolding is_name
is_optional_name none = true
is_optional_name (some name) = is_name name

option_eq : Option Text → Option Text → Bool
option_eq none none = true
option_eq (some a) (some b) = text_eq a b
option_eq _ _ = false

-- Whether the two rows differ in what a PATCH can set.
unfoldable pub is_changed : Item → Item → Bool
unfolding option_eq
is_changed a b = not (text_eq a.name b.name) || not (option_eq a.description b.description)

unfoldable pub new_item : ℕ → ℕ → ItemCreate → Item
new_item item_id now data_in = record {
  id = item_id;
  name = data_in.name;
  description = data_in.description;
  created_at = now;
  updated_at = now;
}

unfoldable pub updated_item : ItemUpdate → Item → Item
updated_item u item = record item {
  name = or_else u.name item.name;
  description = or_option u.description item.description;
}

module _ {F : Type 0} (env : Env F) where
  -- `repository.add` of a new row
  unfoldable pub add_item : Item → M F Item
  add_item item = do flush env (put_item item); pure item

  -- `create` of the service
  unfoldable pub create_item : ℕ → ℕ → ItemCreate → M F Item
  unfolding add_item new_item
  create_item item_id now data_in = add_item (new_item item_id now data_in)

  unfoldable pub get_item : ℕ → M F Item
  get_item item_id w = require (find (λ (i : Item). i.id) item_id w.working.items) not_found w

  -- LIMIT, of which SQLite takes a negative one for none.
  unfoldable pub limited : ℤ → List Item → List Item
  limited (pos n) rows = take n rows
  limited (negsuc n) rows = rows

  -- In the order of the table, since the query has no ORDER BY. The route bounds neither number; SQLite takes a negative
  -- OFFSET for 0.
  unfoldable pub list_items : ℤ → ℤ → M F (List Item)
  unfolding limited
  list_items limit offset = gets (λ w. limited limit (drop (pos_part offset) w.working.items))

  -- `repository.add` of a row that the session has loaded: an UPDATE, which sets `updated_at`, where a column has
  -- changed, and no statement where none has.
  unfoldable pub save_item : ℕ → Item → Item → M F Item
  unfolding is_changed add_item
  save_item now before after =
      if is_changed before after then add_item (record after { updated_at = now }) else pure before

  -- `update` of the service
  unfoldable pub update_item : ℕ → ℕ → ItemUpdate → M F Item
  unfolding get_item save_item updated_item
  update_item now item_id u = do item ← get_item item_id; save_item now item (updated_item u item)

  -- `delete` of the service
  unfoldable pub delete_item_row : ℕ → M F (Unit {0})
  unfolding get_item
  delete_item_row item_id = do item ← get_item item_id; flush env (delete_item item.id)

  -- The handlers, each in a session of its own, behind the check of the body.
  unfoldable pub post_item : ℕ → ℕ → ItemCreate → M F Item
  unfolding create_item is_name
  post_item item_id now data_in =
      request env (do
        raise_when (not (is_name data_in.name)) validation_error
        create_item item_id now data_in)

  unfoldable pub patch_item : ℕ → ℕ → ItemUpdate → M F Item
  unfolding update_item is_optional_name
  patch_item now item_id u =
      request env
        (do raise_when (not (is_optional_name u.name)) validation_error; update_item now item_id u)

  unfoldable pub remove_item : ℕ → M F (Unit {0})
  unfolding delete_item_row
  remove_item item_id = request env (delete_item_row item_id)
