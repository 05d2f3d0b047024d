-- ===== src/Holdings/Columns.antt =====
-- backend/app/db/models.py, `Holding`, as an entity that patches are merged into: the columns that a
-- `HoldingPatch` (backend/app/schemas.py) may name.
use money_flow_service.Prelude.Text.{text_beq_iff, text_eq, text, text_beq, Text}
use money_flow_service.Prelude.{
  ap, nat_eq, nat_beq_iff, option_beq_iff, ◌∙◌, nat_beq, [], option_beq, ◌==◌, ◌≢◌, sym, true, ◌∷◌,
  refl, Option, Bool, some, ℕ, List, ◌≡◌,
}
use money_flow_service.Models.{Holding}
use money_flow_service.Prelude.Tables.{exists, find?}
use money_flow_service.Merge.{Columns}

pub data HoldingField : Type 0 where
  account_name average_cost category currency display_order market_symbol name owner_name
        owner_user_id quantity type_key :
      HoldingField

abbrev pub HoldingCell : HoldingField → Type 0
HoldingCell account_name = Option Text
HoldingCell average_cost = ℕ
HoldingCell category = Text
HoldingCell currency = Text
HoldingCell display_order = ℕ
HoldingCell market_symbol = Text
HoldingCell name = Text
HoldingCell owner_name = Option Text
HoldingCell owner_user_id = Option ℕ
HoldingCell quantity = ℕ
HoldingCell type_key = Option Text

abbrev pub field_name : HoldingField → Text
field_name account_name = text "account_name"
field_name average_cost = text "average_cost"
field_name category = text "category"
field_name currency = text "currency"
field_name display_order = text "display_order"
field_name market_symbol = text "market_symbol"
field_name name = text "name"
field_name owner_name = text "owner_name"
field_name owner_user_id = text "owner_user_id"
field_name quantity = text "quantity"
field_name type_key = text "type_key"

abbrev pub get_column : (f : HoldingField) → Holding → HoldingCell f
get_column account_name h = h.account_name
get_column average_cost h = h.average_cost
get_column category h = h.category
get_column currency h = h.currency
get_column display_order h = h.display_order
get_column market_symbol h = h.market_symbol
get_column name h = h.name
get_column owner_name h = h.owner_name
get_column owner_user_id h = h.owner_user_id
get_column quantity h = h.quantity
get_column type_key h = h.type_key

abbrev pub set_column : (f : HoldingField) → HoldingCell f → Holding → Holding
set_column account_name v h = record h { account_name = v }
set_column average_cost v h = record h { average_cost = v }
set_column category v h = record h { category = v }
set_column currency v h = record h { currency = v }
set_column display_order v h = record h { display_order = v }
set_column market_symbol v h = record h { market_symbol = v }
set_column name v h = record h { name = v }
set_column owner_name v h = record h { owner_name = v }
set_column owner_user_id v h = record h { owner_user_id = v }
set_column quantity v h = record h { quantity = v }
set_column type_key v h = record h { type_key = v }

abbrev pub same_cell : (f : HoldingField) → HoldingCell f → HoldingCell f → Bool
same_cell account_name a b = option_beq a b
same_cell average_cost a b = nat_beq a b
same_cell category a b = text_beq a b
same_cell currency a b = text_beq a b
same_cell display_order a b = nat_beq a b
same_cell market_symbol a b = text_beq a b
same_cell name a b = text_beq a b
same_cell owner_name a b = option_beq a b
same_cell owner_user_id a b = option_beq a b
same_cell quantity a b = nat_beq a b
same_cell type_key a b = option_beq a b

pub same_cell-eq : (f : HoldingField) (a b : HoldingCell f) → same_cell f a b ≡ true → a ≡ b
same_cell-eq account_name a b h = (option_beq_iff a b).0 h
same_cell-eq average_cost a b h = (nat_beq_iff a b).0 h
same_cell-eq category a b h = (text_beq_iff a b).0 h
same_cell-eq currency a b h = (text_beq_iff a b).0 h
same_cell-eq display_order a b h = (nat_beq_iff a b).0 h
same_cell-eq market_symbol a b h = (text_beq_iff a b).0 h
same_cell-eq name a b h = (text_beq_iff a b).0 h
same_cell-eq owner_name a b h = (option_beq_iff a b).0 h
same_cell-eq owner_user_id a b h = (option_beq_iff a b).0 h
same_cell-eq quantity a b h = (nat_beq_iff a b).0 h
same_cell-eq type_key a b h = (option_beq_iff a b).0 h

-- Each name gives its field back, so no two fields share a name.
abbrev pub field_of : Text → Option HoldingField
field_of s =
    find? (λ f. text_beq (field_name f) s)
      (account_name ∷ average_cost ∷ category ∷ currency ∷ display_order ∷ market_symbol ∷ name
        ∷ owner_name ∷ owner_user_id ∷ quantity ∷ type_key ∷ [])

field_of-field_name : (f : HoldingField) → field_of (field_name f) ≡ some f
unfolding find?
field_of-field_name account_name = refl
field_of-field_name average_cost = refl
field_of-field_name category = refl
field_of-field_name currency = refl
field_of-field_name display_order = refl
field_of-field_name market_symbol = refl
field_of-field_name name = refl
field_of-field_name owner_name = refl
field_of-field_name owner_user_id = refl
field_of-field_name quantity = refl
field_of-field_name type_key = refl

some-injective : {A : Type 0} {x y : A} → some x ≡ some y → x ≡ y
some-injective h = cc

pub field_name-injective : (f g : HoldingField) → field_name f ≡ field_name g → f ≡ g
field_name-injective f g h =
    some-injective (sym (field_of-field_name f) ∙ ap field_of h ∙ field_of-field_name g)

abbrev pub all_fields : List HoldingField
all_fields =
    account_name ∷ average_cost ∷ category ∷ currency ∷ display_order ∷ market_symbol ∷ name
    ∷ owner_name ∷ owner_user_id ∷ quantity ∷ type_key ∷ []

pub is_field : (f : HoldingField) → exists (λ g. field_name g == field_name f) all_fields ≡ true
unfolding exists
is_field account_name = refl
is_field average_cost = refl
is_field category = refl
is_field currency = refl
is_field display_order = refl
is_field market_symbol = refl
is_field name = refl
is_field owner_name = refl
is_field owner_user_id = refl
is_field quantity = refl
is_field type_key = refl

pub get-set_self :
    (f : HoldingField) (v : HoldingCell f) (h : Holding) → get_column f (set_column f v h) ≡ v
get-set_self account_name v h = refl
get-set_self average_cost v h = refl
get-set_self category v h = refl
get-set_self currency v h = refl
get-set_self display_order v h = refl
get-set_self market_symbol v h = refl
get-set_self name v h = refl
get-set_self owner_name v h = refl
get-set_self owner_user_id v h = refl
get-set_self quantity v h = refl
get-set_self type_key v h = refl

pub get-set_ne :
    (f g : HoldingField) (v : HoldingCell f) (h : Holding)
    → field_name g ≢ field_name f
    → get_column g (set_column f v h) ≡ get_column g h
get-set_ne account_name account_name v h ne = absurd (ne refl)
get-set_ne account_name _ v h ne = refl
get-set_ne average_cost average_cost v h ne = absurd (ne refl)
get-set_ne average_cost _ v h ne = refl
get-set_ne category category v h ne = absurd (ne refl)
get-set_ne category _ v h ne = refl
get-set_ne currency currency v h ne = absurd (ne refl)
get-set_ne currency _ v h ne = refl
get-set_ne display_order display_order v h ne = absurd (ne refl)
get-set_ne display_order _ v h ne = refl
get-set_ne market_symbol market_symbol v h ne = absurd (ne refl)
get-set_ne market_symbol _ v h ne = refl
get-set_ne name name v h ne = absurd (ne refl)
get-set_ne name _ v h ne = refl
get-set_ne owner_name owner_name v h ne = absurd (ne refl)
get-set_ne owner_name _ v h ne = refl
get-set_ne owner_user_id owner_user_id v h ne = absurd (ne refl)
get-set_ne owner_user_id _ v h ne = refl
get-set_ne quantity quantity v h ne = absurd (ne refl)
get-set_ne quantity _ v h ne = refl
get-set_ne type_key type_key v h ne = absurd (ne refl)
get-set_ne type_key _ v h ne = refl

pub get-set_version :
    (f : HoldingField) (n : ℕ) (h : Holding)
    → get_column f (record h { version = n }) ≡ get_column f h
get-set_version account_name n h = refl
get-set_version average_cost n h = refl
get-set_version category n h = refl
get-set_version currency n h = refl
get-set_version display_order n h = refl
get-set_version market_symbol n h = refl
get-set_version name n h = refl
get-set_version owner_name n h = refl
get-set_version owner_user_id n h = refl
get-set_version quantity n h = refl
get-set_version type_key n h = refl

-- What no patch touches.
pub id-set_column :
    (f : HoldingField) (v : HoldingCell f) (h : Holding) → (set_column f v h).id ≡ h.id
id-set_column account_name v h = refl
id-set_column average_cost v h = refl
id-set_column category v h = refl
id-set_column currency v h = refl
id-set_column display_order v h = refl
id-set_column market_symbol v h = refl
id-set_column name v h = refl
id-set_column owner_name v h = refl
id-set_column owner_user_id v h = refl
id-set_column quantity v h = refl
id-set_column type_key v h = refl

pub version-set_column :
    (f : HoldingField) (v : HoldingCell f) (h : Holding) → (set_column f v h).version ≡ h.version
version-set_column account_name v h = refl
version-set_column average_cost v h = refl
version-set_column category v h = refl
version-set_column currency v h = refl
version-set_column display_order v h = refl
version-set_column market_symbol v h = refl
version-set_column name v h = refl
version-set_column owner_name v h = refl
version-set_column owner_user_id v h = refl
version-set_column quantity v h = refl
version-set_column type_key v h = refl

abbrev pub holding_columns : Columns Holding HoldingField
holding_columns = record {
  Cell = HoldingCell;
  columns = all_fields;
  name = field_name;
  getattr = get_column;
  setattr = set_column;
  same = same_cell;
  entity_id = λ h. h.id;
  version = λ h. h.version;
  set_version = λ n h. record h { version = n };
  same→eq = same_cell-eq;
  name-injective = field_name-injective;
  is_column = is_field;
  getattr-setattr_self = get-set_self;
  getattr-setattr_ne = get-set_ne;
  getattr-set_version = get-set_version;
  entity_id-setattr = id-set_column;
  entity_id-set_version = λ n h. refl;
  version-setattr = version-set_column;
  version-set_version = λ n h. refl;
}
