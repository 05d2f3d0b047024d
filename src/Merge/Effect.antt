-- ===== src/Merge/Effect.antt =====
-- What an applied patch (services/merge.py) does to each column.
use money_flow_service.Prelude.{
  ◌+◌, ◌<◌, not, ap, arith, sym, [], inr, inl, Bool, ◌==◌, refl, Bool-cases, ◌∙◌, ◌∷◌, ℕ, none, map,
  true, false, some, ◌≡◌, List, Option, ◌≢◌,
}
use money_flow_service.Merge.{
  is_log_since, changed_since, is_nil, is_change, patched, applied, is_effective, assign, contains,
  patch_fields, assign_all, merge_patch, Patch, Columns,
}
use money_flow_service.Prelude.Text.{text_eq, text_beq_iff, Text}
use money_flow_service.Prelude.Tables.{exists, select}
use money_flow_service.Models.{EntityPatchLog}

module _ {E F : Type 0} (c : Columns E F) (patch : Patch c) where
  abbrev pub names : List F → List Text
  names fields = map c.name fields

  -- The value of a column after the patch: the patch's, or the old one.
  abbrev pub value_after : (f : F) → Option (c.Cell f) → c.Cell f → c.Cell f
  value_after f none old = old
  value_after f (some v) old = v

  contains-select :
      (e : E) (f : F) (fields : List F)
      → is_effective c patch e f ≡ true
      → exists (λ g. c.name g == c.name f) fields ≡ true
      → contains (names (select (is_effective c patch e) fields)) (c.name f) ≡ true
  unfolding contains select exists
  contains-select e f [] eff here = cc
  contains-select e f (g ∷ gs) eff here = elim (Bool-cases (c.name g == c.name f)) [
    | inl same ↦
        let eq : g ≡ f = c.name-injective g f ((text_beq_iff (c.name g) (c.name f)).0 same) in
        let eff' : is_effective c patch e g ≡ true = rw eq eff in rw (eff', same) refl
    | inr other ↦
        let rest = contains-select e f gs eff (rw other at here) in
        elim (Bool-cases (is_effective c patch e g)) [
          | inl y ↦ rw (y, other) rest
          | inr n ↦ rw n rest
        ]
  ]

  -- A column that the patch changes is among the changed fields.
  pub contains-patch_fields :
      (e : E) (f : F)
      → is_effective c patch e f ≡ true
      → contains (names (patch_fields c patch e)) (c.name f) ≡ true
  unfolding patch_fields
  contains-patch_fields e f eff = contains-select e f c.columns eff (c.is_column f)

  pub contains-select_ineffective :
      (e : E) (f : F) (fields : List F)
      → is_effective c patch e f ≡ false
      → contains (names (select (is_effective c patch e) fields)) (c.name f) ≡ false
  unfolding contains select
  contains-select_ineffective e f [] ineff = refl
  contains-select_ineffective e f (g ∷ gs) ineff = elim (Bool-cases (is_effective c patch e g)) [
    | inr n ↦ rw n (contains-select_ineffective e f gs ineff)
    | inl y ↦ elim (Bool-cases (c.name g == c.name f)) [
      | inr other ↦ rw (y, other) (contains-select_ineffective e f gs ineff)
      | inl same ↦
          let eq : g ≡ f = c.name-injective g f ((text_beq_iff (c.name g) (c.name f)).0 same) in
          let y' : is_effective c patch e f ≡ true = rw eq at y in cc
    ]
  ]

  getattr-assign_ne :
      (e : E) (f g : F)
      → c.name g ≢ c.name f
      → (o : Option (c.Cell f)) → c.getattr g (assign c f o e) ≡ c.getattr g e
  getattr-assign_ne e f g ne none = refl
  getattr-assign_ne e f g ne (some v) = c.getattr-setattr_ne f g v e ne

  -- A column that is not among the assigned ones keeps its value.
  pub getattr-assign_all_ne :
      (fields : List F) (e : E) (g : F)
      → contains (names fields) (c.name g) ≡ false
      → c.getattr g (assign_all c patch fields e) ≡ c.getattr g e
  unfolding assign_all contains
  getattr-assign_all_ne [] e g absent = refl
  getattr-assign_all_ne (f ∷ fs) e g absent = elim (Bool-cases (c.name f == c.name g)) [
    | inl same ↦ cc (rw same at absent)
    | inr other ↦
        getattr-assign_all_ne fs (assign c f (patch f) e) g (rw other at absent)
        ∙ getattr-assign_ne e f g (λ eq. cc ((text_beq_iff (c.name f) (c.name g)).1 (sym eq)))
            (patch f)
  ]

  getattr-assign_all_self :
      (fields : List F) (e : E) (f : F) (v : c.Cell f)
      → patch f ≡ some v
      → contains (names fields) (c.name f) ≡ true
      → c.getattr f (assign_all c patch fields e) ≡ v
  unfolding assign_all contains
  getattr-assign_all_self [] e f v p here = cc
  getattr-assign_all_self (g ∷ gs) e f v p here =
      elim (Bool-cases (contains (names gs) (c.name f))) [
        | inl later ↦ getattr-assign_all_self gs (assign c g (patch g) e) f v p later
        | inr last ↦ elim (Bool-cases (c.name g == c.name f)) [
          | inr other ↦ cc (rw other at here)
          | inl same ↦
              let eq : g ≡ f = c.name-injective g f ((text_beq_iff (c.name g) (c.name f)).0 same) in
              rw eq (
                getattr-assign_all_ne gs (assign c f (patch f) e) f last
                ∙ rw p (c.getattr-setattr_self f v e))
        ]
      ]

  pub version-assign_all :
      (fields : List F) (e : E) → c.version (assign_all c patch fields e) ≡ c.version e
  unfolding assign_all
  version-assign_all [] e = refl
  version-assign_all (f ∷ fs) e = version-assign_all fs (assign c f (patch f) e) ∙ step (patch f)
    where
      step : (o : Option (c.Cell f)) → c.version (assign c f o e) ≡ c.version e
      step none = refl
      step (some v) = c.version-setattr f v e

  pub entity_id-assign_all :
      (fields : List F) (e : E) → c.entity_id (assign_all c patch fields e) ≡ c.entity_id e
  unfolding assign_all
  entity_id-assign_all [] e = refl
  entity_id-assign_all (f ∷ fs) e =
      entity_id-assign_all fs (assign c f (patch f) e) ∙ step (patch f)
    where
      step : (o : Option (c.Cell f)) → c.entity_id (assign c f o e) ≡ c.entity_id e
      step none = refl
      step (some v) = c.entity_id-setattr f v e

  is_effective-eq :
      (e : E) (f : F) (o : Option (c.Cell f))
      → patch f ≡ o
      → is_effective c patch e f ≡ is_change c e f o
  unfolding is_effective
  is_effective-eq e f o p = ap (is_change c e f) p

  pub getattr-assign_all :
      (e : E) (f : F) (o : Option (c.Cell f))
      → patch f ≡ o
      → c.getattr f (assign_all c patch (patch_fields c patch e) e)
        ≡ value_after f o (c.getattr f e)
  unfolding patch_fields
  getattr-assign_all e f none p =
      getattr-assign_all_ne (patch_fields c patch e) e f
        (contains-select_ineffective e f c.columns (is_effective-eq e f none p))
  getattr-assign_all e f (some v) p = elim (Bool-cases (c.same f (c.getattr f e) v)) [
    | inr change ↦
        getattr-assign_all_self (patch_fields c patch e) e f v p
          (contains-patch_fields e f (is_effective-eq e f (some v) p ∙ ap not change))
    | inl same ↦
        getattr-assign_all_ne (patch_fields c patch e) e f
          (contains-select_ineffective e f c.columns (is_effective-eq e f (some v) p ∙ ap not same))
        ∙ c.same→eq f (c.getattr f e) v same
  ]

  -- An applied merge gives the entity with the effective fields assigned, and names those fields.
  pub merge_patch-applied :
      (logs : List EntityPatchLog) (entity_type : Text) (base_version : ℕ) (e : E) {e' : E}
      {merged : Bool} {fields : List F}
      → merge_patch c logs entity_type base_version patch e ≡ applied e' merged fields
      → (e' ≡ patched c patch (patch_fields c patch e) e) × (fields ≡ patch_fields c patch e)
  unfolding merge_patch
  merge_patch-applied logs entity_type base_version e {e' = e'} {merged = merged} {fields = fields}
        h =
      ground arith

  -- A stale patch is applied only if no log since its version names one of its fields.
  pub merge_patch-conflict_free :
      (logs : List EntityPatchLog) (entity_type : Text) (base_version : ℕ) (e : E) {e' : E}
      {merged : Bool} {fields : List F}
      → merge_patch c logs entity_type base_version patch e ≡ applied e' merged fields
      → base_version < c.version e
      → is_nil (
          select
            (λ f.
              contains
                (changed_since (is_log_since entity_type (c.entity_id e) base_version) logs)
                (c.name f))
            (patch_fields c patch e))
        ≡ true
  unfolding merge_patch
  merge_patch-conflict_free logs entity_type base_version e {e' = e'} {merged = merged}
        {fields = fields} h stale =
      ground arith

  -- If a patch is applied, the entity has the next version, and every column the value that the patch
  -- gives it, or its old value if the patch does not name it.
  pub merge_patch-effect :
      (logs : List EntityPatchLog) (entity_type : Text) (base_version : ℕ) (e : E) {e' : E}
      {merged : Bool} {fields : List F}
      → merge_patch c logs entity_type base_version patch e ≡ applied e' merged fields
      → (f : F)
      → (c.version e' ≡ c.version e + 1)
        × (c.getattr f e' ≡ value_after f (patch f) (c.getattr f e))
  merge_patch-effect logs entity_type base_version e h f =
      let assigned = assign_all c patch (patch_fields c patch e) e in
      rw ((merge_patch-applied logs entity_type base_version e h).0) (
        c.version-set_version (c.version e + 1) assigned,
        c.getattr-set_version f (c.version e + 1) assigned ∙ getattr-assign_all e f (patch f) refl,
      )
