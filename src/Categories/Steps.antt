-- ===== src/Categories/Steps.antt =====
-- Soundness of the transactions through the handlers of categories.py.
use money_flow_service.Prelude.Tables.{count, count-le-count, update, find?, delete, exists, select}
use money_flow_service.Prelude.{
  option_eq, nat_eq, ap, some, refl, arith, [], ◌==◌, not, ◌++◌, ◌&&◌, ltb, Option-cases, inl, ◌+◌,
  Bool-cases, ◌∷◌, inr, ◌⊎◌, ◌≡◌, List, ℕ,
}
use money_flow_service.Categories.Sound.{
  is_sound-delete, is_sound-append, update-IsSound_categories, count-none_of,
}
use money_flow_service.Models.{Transaction, Category, Database, Household}
use money_flow_service.Ledger.Sound.{is_sound, IsSound}
use money_flow_service.Errors.{category_not_found, http_exception, AppError}
use money_flow_service.Categories.{
  has_category_id, is_named, patched_category, max_sort_order, new_category, CategoryCreate,
  CategoryPatch, usage_count_of, load_household_category, patch_category, create_category,
  delete_category,
}
use money_flow_service.Categories.Groups.{
  is_one_of, has_minor_of, in_group, rename_group, CategoryRenameMajorRequest,
  rename_major_category_group,
}
use money_flow_service.Session.{
  raised, open_session, ok, stored_after, Session, Verdict, try_commit, commit,
}

pub create_category-IsSound :
    (verdict : Verdict) (fresh_id : ℕ) (household : Household) (payload : CategoryCreate)
    (db : Database)
    → IsSound db
    → IsSound (stored_after (create_category verdict fresh_id household payload) db)
unfolding create_category commit try_commit
create_category-IsSound verdict fresh_id household payload db sound =
    let new =
      new_category fresh_id household.id (max_sort_order household.id db.categories + 1) payload in
    elim (Bool-cases (
      exists (is_named household.id payload.flow_type payload.major payload.minor) db.categories)) [
        | inl d ↦ rw d sound
        | inr d ↦
            elim (Option-cases (verdict (record db { categories = db.categories ++ new ∷ [] }))) [
              | inl v ↦
                  rw (d, v)
                    (omega (
                      arith,
                      sound,
                      count-le-count (λ t. not (is_sound (db.categories ++ new ∷ []) t))
                          (λ t. not (is_sound db.categories t)) db.transactions
                          (λ t e. ground (arith, is_sound-append db.categories new t)),
                    ))
              | inr (x, v) ↦ rw (d, v) sound
            ]
      ]

-- `_load_household_category` gives a category or an error.
load_household_category_cases :
    (household_id category_id : ℕ) (s : Session)
    → ((c : Category) × (load_household_category household_id category_id s ≡ (ok c, s)))
      ⊎ ((e : AppError) × (load_household_category household_id category_id s ≡ (raised e, s)))
unfolding load_household_category
load_household_category_cases household_id category_id s =
    elim (Option-cases (find? (has_category_id category_id) s.working.categories)) [
      | inl e ↦ inr (http_exception 404 category_not_found, rw e refl)
      | inr (c, e) ↦ elim (Bool-cases (c.household_id == household_id)) [
        | inl h ↦ inl (c, rw (e, h) refl)
        | inr h ↦ inr (http_exception 404 category_not_found, rw (e, h) refl)
      ]
    ]

pub patch_category-IsSound :
    (verdict : Verdict) (household : Household) (category_id : ℕ) (payload : CategoryPatch)
    (db : Database)
    → IsSound db
    → IsSound (stored_after (patch_category verdict household category_id payload) db)
unfolding patch_category commit try_commit
patch_category-IsSound verdict household category_id payload db sound =
    elim (load_household_category_cases household.id category_id (open_session db)) [
      | inr (x, l) ↦ rw l sound
      | inl (c, l) ↦
          let renamed = patched_category payload c in
          elim (Bool-cases (
            exists
              (λ d.
                is_named household.id c.flow_type renamed.major renamed.minor d
                && not (d.id == c.id))
              db.categories)) [
                | inl d ↦ rw (l, d) sound
                | inr d ↦
                    elim (Option-cases (
                      verdict (record db {
                        categories =
                            update (has_category_id c.id)
                              (λ (e : Category). record e {
                                major = renamed.major;
                                minor = renamed.minor;
                              })
                              db.categories;
                      }))) [
                        | inl v ↦
                            rw (l, d, v)
                              (update-IsSound_categories (has_category_id c.id)
                                (λ (e : Category). record e {
                                  major = renamed.major;
                                  minor = renamed.minor;
                                })
                                db (λ e. (refl, refl, refl)) sound)
                        | inr (x, v) ↦ rw (l, d, v) sound
                      ]
              ]
    ]

pub delete_category-IsSound :
    (verdict : Verdict) (household : Household) (category_id : ℕ) (db : Database)
    → IsSound db
    → IsSound (stored_after (delete_category verdict household category_id) db)
unfolding delete_category usage_count_of commit try_commit
delete_category-IsSound verdict household category_id db sound =
    elim (load_household_category_cases household.id category_id (open_session db)) [
      | inr (x, l) ↦ rw l sound
      | inl (c, l) ↦ elim (Bool-cases (ltb 0 (usage_count_of c.id db))) [
        | inl u ↦ rw (l, u) sound
        | inr u ↦
            elim (Option-cases
              (verdict (record db { categories = delete (has_category_id c.id) db.categories }))) [
                | inl v ↦
                    rw (l, u, v)
                      (count-none_of (λ t. not (is_sound db.categories t))
                        (λ (t : Transaction). t.category_id == some c.id)
                        (λ t. not (is_sound (delete (has_category_id c.id) db.categories) t))
                        db.transactions sound (ground arith)
                        (λ t h. ap not (is_sound-delete c.id db.categories t h)))
                | inr (x, v) ↦ rw (l, u, v) sound
              ]
      ]
    ]

rename_group-IsSound :
    (verdict : Verdict) (household_id : ℕ) (payload : CategoryRenameMajorRequest)
    (group : List Category) (db : Database)
    → IsSound db
    → IsSound (stored_after (rename_group verdict household_id payload group) db)
unfolding commit try_commit count exists
rename_group-IsSound verdict household_id payload [] db sound = sound
rename_group-IsSound verdict household_id payload (first ∷ rest) db sound =
    elim (Bool-cases (
      exists
        (λ c.
          in_group household_id payload.flow_type payload.next_major c
          && has_minor_of (first ∷ rest) c
          && not (is_one_of (first ∷ rest) c))
        db.categories)) [
          | inl d ↦ rw d sound
          | inr d ↦
              elim (Option-cases (
                verdict (record db {
                  categories =
                      update (is_one_of (first ∷ rest))
                        (λ (c : Category). record c { major = payload.next_major }) db.categories;
                }))) [
                  | inl v ↦
                      rw (d, v)
                        (update-IsSound_categories (is_one_of (first ∷ rest))
                          (λ (c : Category). record c { major = payload.next_major }) db
                          (λ c. (refl, refl, refl)) sound)
                  | inr (x, v) ↦ rw (d, v) sound
                ]
        ]

pub rename_major_category_group-IsSound :
    (verdict : Verdict) (household : Household) (payload : CategoryRenameMajorRequest)
    (db : Database)
    → IsSound db
    → IsSound (stored_after (rename_major_category_group verdict household payload) db)
unfolding rename_major_category_group
rename_major_category_group-IsSound verdict household payload db sound =
    rename_group-IsSound verdict household.id payload
      (select (in_group household.id payload.flow_type payload.current_major) db.categories) db
      sound
