-- ===== src/Holdings/After.antt =====
-- holdings.py, `patch_holding`: what each column is after a patch, by the payload and the owner.
use money_flow_service.Prelude.{◌∙◌, refl, ◌≡◌, none, some, Option}
use money_flow_service.Merge.Effect.{value_after}
use money_flow_service.OwnerLinks.{normalize_optional_text}
use money_flow_service.Holdings.Columns.{
  get_column, HoldingField, holding_columns, account_name, average_cost, category, currency,
  display_order, market_symbol, name, owner_name, owner_user_id, quantity, type_key, HoldingCell,
}
use money_flow_service.Models.{Holding}
use money_flow_service.Ledger.Patching.{set_value, OwnerPatch}
use money_flow_service.Prelude.Text.{upper, strip}
use mathlib.Core.Option
use money_flow_service.Merge.{Patch}
use money_flow_service.Holdings.Patching.{holding_patch_data, HoldingPatch}

-- What a value makes of an old one: it stays where nothing is given, or null, which is refused.
abbrev pub set_or {ℓ} : {A : Type ℓ} → Option (Option A) → A → A
set_or none old = old
set_or (some none) old = old
set_or (some (some v)) old = v

abbrev pub or_old {ℓ} : {A : Type ℓ} → Option A → A → A
or_old none old = old
or_old (some v) old = v

-- Each column after a patch, by what the payload sets and the owner that it resolves to: texts are
-- trimmed, and the symbol and the currency are in upper case.
abbrev pub column_after :
    HoldingPatch → OwnerPatch → (f : HoldingField) → HoldingCell f → HoldingCell f
unfolding strip upper normalize_optional_text
column_after payload owner account_name old =
    or_old (Option.map (Option.map strip) payload.account_name) old
column_after payload owner average_cost old = set_or payload.average_cost old
column_after payload owner category old =
    set_or (Option.map (Option.map strip) payload.category) old
column_after payload owner currency old =
    set_or (Option.map (Option.map (λ s. upper (strip s))) payload.currency) old
column_after payload owner display_order old = set_or payload.display_order old
column_after payload owner market_symbol old =
    set_or (Option.map (Option.map (λ s. upper (strip s))) payload.market_symbol) old
column_after payload owner name old = set_or (Option.map (Option.map strip) payload.name) old
column_after payload none owner_name old = old
column_after payload (some o) owner_name old = o.1
column_after payload none owner_user_id old = old
column_after payload (some o) owner_user_id old = o.0
column_after payload owner quantity old = set_or payload.quantity old
column_after payload owner type_key old =
    or_old (Option.map normalize_optional_text payload.type_key) old

value_after-or_old :
    (patch : Patch holding_columns) (f : HoldingField) (p : Option (HoldingCell f))
    (old : HoldingCell f)
    → value_after holding_columns patch f p old ≡ or_old p old
value_after-or_old patch f none old = refl
value_after-or_old patch f (some v) old = refl

or_old-set :
    {A : Type 0} (o : Option (Option A)) (old : A) → or_old (set_value o) old ≡ set_or o old
or_old-set none old = refl
or_old-set (some none) old = refl
or_old-set (some (some v)) old = refl

or_old-map :
    {A : Type 0} (g : A → A) (o : Option (Option A)) (old : A)
    → or_old (Option.map g (set_value o)) old ≡ set_or (Option.map (Option.map g) o) old
or_old-map g none old = refl
or_old-map g (some none) old = refl
or_old-map g (some (some v)) old = refl

or_old-patch :
    (payload : HoldingPatch) (owner : OwnerPatch) (f : HoldingField) (old : HoldingCell f)
    → or_old (holding_patch_data payload owner f) old ≡ column_after payload owner f old
unfolding holding_patch_data
or_old-patch payload owner account_name old = refl
or_old-patch payload owner average_cost old = or_old-set payload.average_cost old
or_old-patch payload owner category old = or_old-map strip payload.category old
or_old-patch payload owner currency old = or_old-map (λ s. upper (strip s)) payload.currency old
or_old-patch payload owner display_order old = or_old-set payload.display_order old
or_old-patch payload owner market_symbol old =
    or_old-map (λ s. upper (strip s)) payload.market_symbol old
or_old-patch payload owner name old = or_old-map strip payload.name old
or_old-patch payload none owner_name old = refl
or_old-patch payload (some o) owner_name old = refl
or_old-patch payload none owner_user_id old = refl
or_old-patch payload (some o) owner_user_id old = refl
or_old-patch payload owner quantity old = or_old-set payload.quantity old
or_old-patch payload owner type_key old = refl

pub value_after-eq :
    (payload : HoldingPatch) (owner : OwnerPatch) (holding : Holding) (f : HoldingField)
    → value_after holding_columns
        (holding_patch_data payload owner)
        f
        (holding_patch_data payload owner f)
        (get_column f holding)
      ≡ column_after payload owner f (get_column f holding)
value_after-eq payload owner holding f =
    value_after-or_old (holding_patch_data payload owner) f (holding_patch_data payload owner f)
      (get_column f holding)
    ∙ or_old-patch payload owner f (get_column f holding)
