-- ===== src/Categories/Groups.antt =====
-- categories.py, `rename_major_category_group`: the categories of one major name are renamed together.
use money_flow_service.Prelude.{
  nat_eq, option_eq, map, not, ◌&&◌, ltb, false, ◌==◌, true, [], if◌then◌else◌, ◌∷◌, Bool, List, ℕ,
}
use money_flow_service.Models.{flow_eq, Household, FlowType, Category}
use money_flow_service.Prelude.Text.{text_eq, Text}
use money_flow_service.Categories.{to_category_read, modify, usage_count_of, CategoryRead}
use money_flow_service.Errors.{
  category_duplicate, app_error, category_group_not_found, http_exception,
}
use money_flow_service.Session.{raise_if, ◌>>◌, query, ◌>>=◌, raise, commit, Handler, Verdict}
use money_flow_service.Prelude.Tables.{update, exists, select}

-- schemas.py, `CategoryRenameMajorRequest`
pub record CategoryRenameMajorRequest : Type 0 where
  pub flow_type : FlowType
  pub current_major : Text
  pub next_major : Text

abbrev pub in_group : (household_id : ℕ) → FlowType → (major : Text) → Category → Bool
in_group household_id flow major c =
    c.household_id == household_id && c.flow_type == flow && c.major == major

abbrev pub has_minor_of : List Category → Category → Bool
has_minor_of group c = exists (λ (d : Category). d.minor == c.minor) group

abbrev pub is_one_of : List Category → Category → Bool
is_one_of group c = exists (λ (d : Category). d.id == c.id) group

-- `ORDER BY sort_order, minor` only orders the response; texts are compared by their characters.
unfoldable pub leq_text : Text → Text → Bool
leq_text [] b = true
leq_text (c ∷ cs) [] = false
leq_text (c ∷ cs) (d ∷ ds) =
    let rest = leq_text cs ds in if ltb c d then true else if ltb d c then false else rest

abbrev leq_in_group : Category → Category → Bool
leq_in_group a b =
    if ltb a.sort_order b.sort_order
    then true
    else if ltb b.sort_order a.sort_order
    then false
    else leq_text a.minor b.minor

unfoldable insert_category : Category → List Category → List Category
unfolding leq_text
insert_category c [] = c ∷ []
insert_category c (d ∷ ds) =
    let rest = insert_category c ds in if leq_in_group c d then c ∷ d ∷ ds else d ∷ rest

unfoldable pub sort_group : List Category → List Category
unfolding insert_category
sort_group [] = []
sort_group (c ∷ cs) = insert_category c (sort_group cs)

-- `rename_major_category_group` once the group is read.
abbrev pub rename_group :
    Verdict
    → (household_id : ℕ) → CategoryRenameMajorRequest
    → List Category
    → Handler (List CategoryRead)
rename_group verdict household_id payload [] = raise (http_exception 404 category_group_not_found)
rename_group verdict household_id payload (first ∷ others) = do
  conflicts ← query (λ db.
      exists
        (λ c.
          in_group household_id payload.flow_type payload.next_major c
          && has_minor_of (first ∷ others) c
          && not (is_one_of (first ∷ others) c))
        db.categories)
  raise_if conflicts (app_error 409 category_duplicate)
  modify (λ db. record db {
    categories =
        update (is_one_of (first ∷ others)) (λ c. record c { major = payload.next_major })
          db.categories;
  })
  commit verdict
  query (λ db.
      map
        (λ (c : Category).
          to_category_read (record c { major = payload.next_major }) (usage_count_of c.id db))
        (sort_group (first ∷ others)))

unfoldable pub rename_major_category_group :
    Verdict → Household → CategoryRenameMajorRequest → Handler (List CategoryRead)
unfolding select exists update commit usage_count_of sort_group
rename_major_category_group verdict household payload = do
  group ←
      query
        (λ db. select (in_group household.id payload.flow_type payload.current_major) db.categories)
  rename_group verdict household.id payload group
