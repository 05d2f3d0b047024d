-- ===== src/Bookkeeping.antt =====
-- The requests that write transactions and categories (transactions.py, categories.py), one after the
-- other.
pub mod Fixtures
pub mod Examples
use money_flow_service.Categories.Steps.{
  delete_category-IsSound, rename_major_category_group-IsSound, patch_category-IsSound,
  create_category-IsSound,
}
use money_flow_service.Prelude.{[], ℕ, false, ◌≡◌, ◌∷◌, List}
use money_flow_service.Session.{stored_after, Verdict}
use money_flow_service.Categories.{
  delete_category, CategoryPatch, patch_category, CategoryCreate, create_category,
}
use money_flow_service.Categories.Groups.{CategoryRenameMajorRequest, rename_major_category_group}
use money_flow_service.Ledger.Sound.Deletions.{
  delete_transaction-IsSound, bulk_delete_transactions-IsSound,
}
use money_flow_service.Ledger.Patching.{TransactionPatch, patch_transaction, has_wrong_installments}
use money_flow_service.Ledger.Sound.Patches.{patch_transaction-IsSound}
use money_flow_service.Ledger.Sound.Steps.{create_transaction-IsSound}
use money_flow_service.Ledger.Deletion.{delete_transaction, bulk_delete_transactions}
use money_flow_service.Ledger.Sound.{IsSound}
use money_flow_service.Ledger.Creation.{TransactionCreate, create_transaction}
use money_flow_service.Models.{Household, User, Database}
use money_flow_service.Household.Invitations.{Surroundings}

pub data Request : Type 0 where
  create : Surroundings → (others : Database → Database) → User → TransactionCreate → Request
  patch : User → (transaction_id : ℕ) → TransactionPatch → Request
  bulk_delete : (transaction_ids : List ℕ) → Request
  delete_one : (transaction_id : ℕ) → Request
  add_category : (fresh_id : ℕ) → CategoryCreate → Request
  rename_category : (category_id : ℕ) → CategoryPatch → Request
  rename_major : CategoryRenameMajorRequest → Request
  drop_category : (category_id : ℕ) → Request

-- What a request to a household leaves stored, whether it is granted or raises.
unfoldable pub handle : Verdict → Household → Request → Database → Database
unfolding create_transaction patch_transaction bulk_delete_transactions delete_transaction
    create_category patch_category rename_major_category_group delete_category
handle verdict household (create env others user payload) =
    stored_after (create_transaction env verdict others household user payload)
handle verdict household (patch user transaction_id payload) =
    stored_after (patch_transaction verdict household user transaction_id payload)
handle verdict household (bulk_delete transaction_ids) =
    stored_after (bulk_delete_transactions verdict household transaction_ids)
handle verdict household (delete_one transaction_id) =
    stored_after (delete_transaction verdict household transaction_id)
handle verdict household (add_category fresh_id payload) =
    stored_after (create_category verdict fresh_id household payload)
handle verdict household (rename_category category_id payload) =
    stored_after (patch_category verdict household category_id payload)
handle verdict household (rename_major payload) =
    stored_after (rename_major_category_group verdict household payload)
handle verdict household (drop_category category_id) =
    stored_after (delete_category verdict household category_id)

unfoldable pub serve : List (Verdict × Household × Request) → Database → Database
unfolding handle
serve [] db = db
serve ((verdict, household, request) ∷ rest) db = serve rest (handle verdict household request db)

-- The payload of a creation is validated (schemas.py, `validate_installment_flow_type`), and what others
-- store while its commit fails is sound.
abbrev pub IsValidated : Database → Request → Type 0
IsValidated db (create env others user payload) =
    (has_wrong_installments payload.installment_months payload.flow_type ≡ false)
    × IsSound (others db)
IsValidated db _ = Unit

abbrev pub IsValidatedRun : List (Verdict × Household × Request) → Database → Type 0
IsValidatedRun [] db = Unit
IsValidatedRun ((verdict, household, request) ∷ rest) db =
    IsValidated db request × IsValidatedRun rest (handle verdict household request db)

handle-IsSound :
    (verdict : Verdict) (household : Household) (request : Request) (db : Database)
    → IsValidated db request
    → IsSound db
    → IsSound (handle verdict household request db)
unfolding handle
handle-IsSound verdict household (create env others user payload) db (valid, sound') sound =
    create_transaction-IsSound env verdict others household user payload db sound sound' valid
handle-IsSound verdict household (patch user transaction_id payload) db valid sound =
    patch_transaction-IsSound verdict household user transaction_id payload db sound
handle-IsSound verdict household (bulk_delete transaction_ids) db valid sound =
    bulk_delete_transactions-IsSound verdict household transaction_ids db sound
handle-IsSound verdict household (delete_one transaction_id) db valid sound =
    delete_transaction-IsSound verdict household transaction_id db sound
handle-IsSound verdict household (add_category fresh_id payload) db valid sound =
    create_category-IsSound verdict fresh_id household payload db sound
handle-IsSound verdict household (rename_category category_id payload) db valid sound =
    patch_category-IsSound verdict household category_id payload db sound
handle-IsSound verdict household (rename_major payload) db valid sound =
    rename_major_category_group-IsSound verdict household payload db sound
handle-IsSound verdict household (drop_category category_id) db valid sound =
    delete_category-IsSound verdict household category_id db sound

-- If every stored transaction is sound (its category, if any, is one of its household and flow type, and
-- only an expense has instalments), then so it is after any sequence of requests on transactions and
-- categories of any households, provided that creations are validated and that what others store when
-- the commit of a creation fails is sound.
pub serve-IsSound :
    (requests : List (Verdict × Household × Request)) (db : Database)
    → IsValidatedRun requests db
    → IsSound db
    → IsSound (serve requests db)
unfolding serve
serve-IsSound [] db valid sound = sound
serve-IsSound ((verdict, household, request) ∷ rest) db (valid, later) sound =
    serve-IsSound rest (handle verdict household request db) later
      (handle-IsSound verdict household request db valid sound)
