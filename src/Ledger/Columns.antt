-- ===== src/Ledger/Columns.antt =====
-- backend/app/db/models.py, `Transaction`, as an entity that patches are merged into: the columns that
-- a `TransactionPatch` (backend/app/schemas.py) may name.
use money_flow_service.Prelude.{
  nat_eq, option_beq, nat_beq, option_beq_iff, [], nat_beq_iff, true, refl, Option, ◌==◌, ◌≢◌, ◌∷◌,
  List, Bool, ◌≡◌, ℕ,
}
use money_flow_service.Models.{flow_beq, flow_beq_iff, FlowType, Transaction}
use money_flow_service.Prelude.Text.{text_beq, text_beq_iff, text_eq, text, Text}
use money_flow_service.Merge.{Columns}
use money_flow_service.Prelude.Tables.{exists}

pub data TransactionField : Type 0 where
  amount category_id currency flow_type installment_months memo occurred_on owner_name
        owner_user_id :
      TransactionField

abbrev pub TransactionCell : TransactionField → Type 0
TransactionCell amount = ℕ
TransactionCell category_id = Option ℕ
TransactionCell currency = Text
TransactionCell flow_type = FlowType
TransactionCell installment_months = Option ℕ
TransactionCell memo = Text
TransactionCell occurred_on = ℕ
TransactionCell owner_name = Option Text
TransactionCell owner_user_id = Option ℕ

abbrev pub field_name : TransactionField → Text
field_name amount = text "amount"
field_name category_id = text "category_id"
field_name currency = text "currency"
field_name flow_type = text "flow_type"
field_name installment_months = text "installment_months"
field_name memo = text "memo"
field_name occurred_on = text "occurred_on"
field_name owner_name = text "owner_name"
field_name owner_user_id = text "owner_user_id"

abbrev pub get_column : (f : TransactionField) → Transaction → TransactionCell f
get_column amount t = t.amount
get_column category_id t = t.category_id
get_column currency t = t.currency
get_column flow_type t = t.flow_type
get_column installment_months t = t.installment_months
get_column memo t = t.memo
get_column occurred_on t = t.occurred_on
get_column owner_name t = t.owner_name
get_column owner_user_id t = t.owner_user_id

abbrev pub set_column : (f : TransactionField) → TransactionCell f → Transaction → Transaction
set_column amount v t = record t { amount = v }
set_column category_id v t = record t { category_id = v }
set_column currency v t = record t { currency = v }
set_column flow_type v t = record t { flow_type = v }
set_column installment_months v t = record t { installment_months = v }
set_column memo v t = record t { memo = v }
set_column occurred_on v t = record t { occurred_on = v }
set_column owner_name v t = record t { owner_name = v }
set_column owner_user_id v t = record t { owner_user_id = v }

abbrev pub same_cell : (f : TransactionField) → TransactionCell f → TransactionCell f → Bool
same_cell amount a b = nat_beq a b
same_cell category_id a b = option_beq a b
same_cell currency a b = text_beq a b
same_cell flow_type a b = flow_beq a b
same_cell installment_months a b = option_beq a b
same_cell memo a b = text_beq a b
same_cell occurred_on a b = nat_beq a b
same_cell owner_name a b = option_beq a b
same_cell owner_user_id a b = option_beq a b

pub same_cell-eq : (f : TransactionField) (a b : TransactionCell f) → same_cell f a b ≡ true → a ≡ b
same_cell-eq amount a b h = (nat_beq_iff a b).0 h
same_cell-eq category_id a b h = (option_beq_iff a b).0 h
same_cell-eq currency a b h = (text_beq_iff a b).0 h
same_cell-eq flow_type a b h = (flow_beq_iff a b).0 h
same_cell-eq installment_months a b h = (option_beq_iff a b).0 h
same_cell-eq memo a b h = (text_beq_iff a b).0 h
same_cell-eq occurred_on a b h = (nat_beq_iff a b).0 h
same_cell-eq owner_name a b h = (option_beq_iff a b).0 h
same_cell-eq owner_user_id a b h = (option_beq_iff a b).0 h

pub field_name-injective : (f g : TransactionField) → field_name f ≡ field_name g → f ≡ g
field_name-injective amount amount h = refl
field_name-injective amount g h = cc ((text_beq_iff (field_name amount) (field_name g)).1 h)
field_name-injective category_id category_id h = refl
field_name-injective category_id g h =
    cc ((text_beq_iff (field_name category_id) (field_name g)).1 h)
field_name-injective currency currency h = refl
field_name-injective currency g h = cc ((text_beq_iff (field_name currency) (field_name g)).1 h)
field_name-injective flow_type flow_type h = refl
field_name-injective flow_type g h = cc ((text_beq_iff (field_name flow_type) (field_name g)).1 h)
field_name-injective installment_months installment_months h = refl
field_name-injective installment_months g h =
    cc ((text_beq_iff (field_name installment_months) (field_name g)).1 h)
field_name-injective memo memo h = refl
field_name-injective memo g h = cc ((text_beq_iff (field_name memo) (field_name g)).1 h)
field_name-injective occurred_on occurred_on h = refl
field_name-injective occurred_on g h =
    cc ((text_beq_iff (field_name occurred_on) (field_name g)).1 h)
field_name-injective owner_name owner_name h = refl
field_name-injective owner_name g h = cc ((text_beq_iff (field_name owner_name) (field_name g)).1 h)
field_name-injective owner_user_id owner_user_id h = refl
field_name-injective owner_user_id g h =
    cc ((text_beq_iff (field_name owner_user_id) (field_name g)).1 h)

abbrev pub all_fields : List TransactionField
all_fields =
    amount ∷ category_id ∷ currency ∷ flow_type ∷ installment_months ∷ memo ∷ occurred_on
    ∷ owner_name ∷ owner_user_id ∷ []

pub is_field : (f : TransactionField) → exists (λ g. field_name g == field_name f) all_fields ≡ true
unfolding exists
is_field amount = refl
is_field category_id = refl
is_field currency = refl
is_field flow_type = refl
is_field installment_months = refl
is_field memo = refl
is_field occurred_on = refl
is_field owner_name = refl
is_field owner_user_id = refl

pub get-set_self :
    (f : TransactionField) (v : TransactionCell f) (t : Transaction)
    → get_column f (set_column f v t) ≡ v
get-set_self amount v t = refl
get-set_self category_id v t = refl
get-set_self currency v t = refl
get-set_self flow_type v t = refl
get-set_self installment_months v t = refl
get-set_self memo v t = refl
get-set_self occurred_on v t = refl
get-set_self owner_name v t = refl
get-set_self owner_user_id v t = refl

pub get-set_ne :
    (f g : TransactionField) (v : TransactionCell f) (t : Transaction)
    → field_name g ≢ field_name f
    → get_column g (set_column f v t) ≡ get_column g t
get-set_ne amount amount v t ne = absurd (ne refl)
get-set_ne amount _ v t ne = refl
get-set_ne category_id category_id v t ne = absurd (ne refl)
get-set_ne category_id _ v t ne = refl
get-set_ne currency currency v t ne = absurd (ne refl)
get-set_ne currency _ v t ne = refl
get-set_ne flow_type flow_type v t ne = absurd (ne refl)
get-set_ne flow_type _ v t ne = refl
get-set_ne installment_months installment_months v t ne = absurd (ne refl)
get-set_ne installment_months _ v t ne = refl
get-set_ne memo memo v t ne = absurd (ne refl)
get-set_ne memo _ v t ne = refl
get-set_ne occurred_on occurred_on v t ne = absurd (ne refl)
get-set_ne occurred_on _ v t ne = refl
get-set_ne owner_name owner_name v t ne = absurd (ne refl)
get-set_ne owner_name _ v t ne = refl
get-set_ne owner_user_id owner_user_id v t ne = absurd (ne refl)
get-set_ne owner_user_id _ v t ne = refl

pub get-set_version :
    (f : TransactionField) (n : ℕ) (t : Transaction)
    → get_column f (record t { version = n }) ≡ get_column f t
get-set_version amount n t = refl
get-set_version category_id n t = refl
get-set_version currency n t = refl
get-set_version flow_type n t = refl
get-set_version installment_months n t = refl
get-set_version memo n t = refl
get-set_version occurred_on n t = refl
get-set_version owner_name n t = refl
get-set_version owner_user_id n t = refl

pub id-set_column :
    (f : TransactionField) (v : TransactionCell f) (t : Transaction) → (set_column f v t).id ≡ t.id
id-set_column amount v t = refl
id-set_column category_id v t = refl
id-set_column currency v t = refl
id-set_column flow_type v t = refl
id-set_column installment_months v t = refl
id-set_column memo v t = refl
id-set_column occurred_on v t = refl
id-set_column owner_name v t = refl
id-set_column owner_user_id v t = refl

pub version-set_column :
    (f : TransactionField) (v : TransactionCell f) (t : Transaction)
    → (set_column f v t).version ≡ t.version
version-set_column amount v t = refl
version-set_column category_id v t = refl
version-set_column currency v t = refl
version-set_column flow_type v t = refl
version-set_column installment_months v t = refl
version-set_column memo v t = refl
version-set_column occurred_on v t = refl
version-set_column owner_name v t = refl
version-set_column owner_user_id v t = refl

abbrev pub transaction_columns : Columns Transaction TransactionField
transaction_columns = record {
  Cell = TransactionCell;
  columns = all_fields;
  name = field_name;
  getattr = get_column;
  setattr = set_column;
  same = same_cell;
  entity_id = λ t. t.id;
  version = λ t. t.version;
  set_version = λ n t. record t { version = n };
  same→eq = same_cell-eq;
  name-injective = field_name-injective;
  is_column = is_field;
  getattr-setattr_self = get-set_self;
  getattr-setattr_ne = get-set_ne;
  getattr-set_version = get-set_version;
  entity_id-setattr = id-set_column;
  entity_id-set_version = λ n t. refl;
  version-setattr = version-set_column;
  version-set_version = λ n t. refl;
}
