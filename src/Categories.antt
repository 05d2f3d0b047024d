-- ===== src/Categories.antt =====
-- backend/app/api/routes/categories.py: the categories of a household are created, renamed one by one
-- or by group, and deleted. Texts of a payload are those that schemas.py has stripped.
pub mod Groups
pub mod Sound
pub mod Steps
use money_flow_service.Prelude.{
  map, ◌+◌, ◌++◌, not, ◌&&◌, option_eq, nat_eq, ltb, max, false, none, [], if◌then◌else◌, true,
  ◌==◌, ◌∷◌, Bool, some, ℕ, List, Option,
}
use money_flow_service.Errors.{
  category_duplicate, category_in_use, app_error, category_group_not_found, category_not_found,
  http_exception,
}
use money_flow_service.Session.{
  pure, raise_if, modify, query, ◌>>=◌, ◌>>◌, raise, Handler, commit, Verdict,
}
use money_flow_service.Models.{flow_eq, Household, Transaction, Database, FlowType, Category}
use money_flow_service.Prelude.Text.{text_eq, Text}
use money_flow_service.Prelude.Tables.{update, exists, count, delete, select, find?}

pub record CategoryRead : Type 0 where
  pub id : ℕ
  pub flow_type : FlowType
  pub major : Text
  pub minor : Text
  pub sort_order : ℕ
  pub usage_count : ℕ

abbrev pub to_category_read : Category → (usage_count : ℕ) → CategoryRead
to_category_read category usage_count = record {
  id = category.id;
  flow_type = category.flow_type;
  major = category.major;
  minor = category.minor;
  sort_order = category.sort_order;
  usage_count = usage_count;
}

abbrev pub has_category_id : ℕ → Category → Bool
has_category_id i category = category.id == i

-- The transactions of a category, counted.
unfoldable pub usage_count_of : (category_id : ℕ) → Database → ℕ
unfolding count
usage_count_of category_id db =
    count (λ (t : Transaction). t.category_id == some category_id) db.transactions

abbrev check_household : (household_id : ℕ) → Option Category → Handler Category
check_household household_id none = raise (http_exception 404 category_not_found)
check_household household_id (some category) =
    if category.household_id == household_id
    then pure category
    else raise (http_exception 404 category_not_found)

unfoldable pub load_household_category : (household_id category_id : ℕ) → Handler Category
unfolding find?
load_household_category household_id category_id = do
  row ← query (λ db. find? (has_category_id category_id) db.categories)
  check_household household_id row

-- The columns of the constraint `uq_category_major_minor`
abbrev pub is_named : (household_id : ℕ) → FlowType → (major minor : Text) → Category → Bool
is_named household_id flow major minor c =
    c.household_id == household_id && c.flow_type == flow && c.major == major && c.minor == minor

-- schemas.py, `CategoryCreate`
pub record CategoryCreate : Type 0 where
  pub flow_type : FlowType
  pub major : Text
  pub minor : Text

-- `coalesce(max(sort_order), 0)` over the household's categories
unfoldable pub max_sort_order : (household_id : ℕ) → List Category → ℕ
max_sort_order household_id [] = 0
max_sort_order household_id (c ∷ cs) =
    let rest = max_sort_order household_id cs in
    if c.household_id == household_id then max c.sort_order rest else rest

abbrev pub new_category : (fresh_id household_id sort_order : ℕ) → CategoryCreate → Category
new_category fresh_id household_id sort_order payload = record {
  id = fresh_id;
  household_id = household_id;
  flow_type = payload.flow_type;
  major = payload.major;
  minor = payload.minor;
  sort_order = sort_order;
}

-- `db.add`, `db.commit()` and the response
abbrev add_category : Verdict → Category → Handler CategoryRead
add_category verdict category = do
  modify (λ db. record db { categories = db.categories ++ category ∷ [] })
  commit verdict
  pure (to_category_read category 0)

unfoldable pub create_category :
    Verdict → (fresh_id : ℕ) → Household → CategoryCreate → Handler CategoryRead
unfolding exists max_sort_order commit
create_category verdict fresh_id household payload = do
  duplicate ← query (λ db.
      exists (is_named household.id payload.flow_type payload.major payload.minor) db.categories)
  raise_if duplicate (app_error 409 category_duplicate)
  largest ← query (λ db. max_sort_order household.id db.categories)
  add_category verdict (new_category fresh_id household.id (largest + 1) payload)

-- schemas.py, `CategoryPatch`: a name that is left out or null stays.
pub record CategoryPatch : Type 0 where
  pub major : Option Text
  pub minor : Option Text

abbrev name_or : Option Text → Text → Text
name_or none current = current
name_or (some name) current = name

abbrev pub patched_category : CategoryPatch → Category → Category
patched_category payload c = record c {
  major = name_or payload.major c.major;
  minor = name_or payload.minor c.minor;
}

-- `patch_category` once the row is found, with its next names.
abbrev pub rename_found :
    Verdict → (household_id : ℕ) → (category renamed : Category) → Handler CategoryRead
rename_found verdict household_id category renamed = do
  duplicate ← query (λ db.
      exists
        (λ c.
          is_named household_id category.flow_type renamed.major renamed.minor c
          && not (c.id == category.id))
        db.categories)
  raise_if duplicate (app_error 409 category_duplicate)
  modify (λ db. record db {
    categories =
        update (has_category_id category.id)
          (λ c. record c { major = renamed.major; minor = renamed.minor }) db.categories;
  })
  commit verdict
  usage_count ← query (usage_count_of category.id)
  pure (to_category_read renamed usage_count)

unfoldable pub patch_category :
    Verdict → Household → (category_id : ℕ) → CategoryPatch → Handler CategoryRead
unfolding load_household_category exists update commit usage_count_of
patch_category verdict household category_id payload = do
  category ← load_household_category household.id category_id
  rename_found verdict household.id category (patched_category payload category)

abbrev pub delete_unused : Verdict → Category → Handler Unit
delete_unused verdict category = do
  usage_count ← query (usage_count_of category.id)
  raise_if (ltb 0 usage_count) (app_error 409 category_in_use)
  modify (λ db. record db { categories = delete (has_category_id category.id) db.categories })
  commit verdict

unfoldable pub delete_category : Verdict → Household → (category_id : ℕ) → Handler Unit
unfolding load_household_category usage_count_of delete commit
delete_category verdict household category_id = do
  category ← load_household_category household.id category_id
  delete_unused verdict category
