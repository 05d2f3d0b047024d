-- ===== src/Merge/Unlogged.antt =====
-- services/merge.py: a version that no patch log covers, as when another writer has been there.
use money_flow_service.Prelude.{
  [], refl, nat_eq, zero, ◌≢◌, ◌-◌, inr, lt→ltb, nat_beq_iff, true, ltb, inl, nat_beq, Bool-cases,
  suc, ◌∷◌, arith, if◌then◌else◌, false, ◌≡◌, ◌==◌, ◌+◌, ◌≤◌, ◌&&◌, Bool, ◌<◌, List, ℕ,
}
use money_flow_service.Merge.{
  conflict, unchanged, patch_fields, is_nil, contains_version, is_log_since, Patch, merge_patch,
  all_covered, Columns, covered_since,
}
use money_flow_service.Prelude.Text.{Text}
use money_flow_service.Models.{EntityPatchLog}
use money_flow_service.Prelude.Tables.{count}

-- One version that is not covered is enough.
all_covered-missing :
    (base n v : ℕ) (covered : List ℕ)
    → base < v
    → v ≤ base + n
    → contains_version covered v ≡ false
    → all_covered base n covered ≡ false
unfolding all_covered
all_covered-missing base zero v covered lower upper missing = ground arith
all_covered-missing base (suc n) v covered lower upper missing =
    elim (Bool-cases (nat_beq v (base + suc n))) [
      | inl e ↦
          let same : v ≡ base + suc n = (nat_beq_iff v (base + suc n)).0 e in
          let here : contains_version covered (base + suc n) ≡ false = rw same at missing in
          rw here refl
      | inr e ↦
          let differs : v ≢ base + suc n = λ same. cc ((nat_beq_iff v (base + suc n)).1 same) in
          let rest = all_covered-missing base n v covered lower (omega arith) missing in
          elim (Bool-cases (contains_version covered (base + suc n))) [
            | inl c ↦ rw c rest
            | inr c ↦ rw c refl
          ]
    ]

covered_since-missing :
    (p : EntityPatchLog → Bool) (v : ℕ) (logs : List EntityPatchLog)
    → count (λ row. p row && row.resulting_version == v) logs ≡ 0
    → contains_version (covered_since p logs) v ≡ false
unfolding covered_since count
covered_since-missing p v [] h = refl
covered_since-missing p v (row ∷ rows) h = ground (arith, covered_since-missing p v rows)

module _ {E F : Type 0} (c : Columns E F) where
  -- If some version after the base version, up to the entity's version, has no log, then a patch is
  -- refused with all its effective fields as conflicts, unless it changes nothing.
  pub merge_patch-unlogged :
      (logs : List EntityPatchLog) (entity_type : Text) (base_version v : ℕ) (patch : Patch c)
      (e : E)
      → base_version < v
      → v ≤ c.version e
      → count
          (λ row.
            is_log_since entity_type (c.entity_id e) base_version row && row.resulting_version == v)
          logs
        ≡ 0
      → merge_patch c logs entity_type base_version patch e
        ≡ (if is_nil (patch_fields c patch e) then unchanged else conflict (patch_fields c patch e))
  unfolding merge_patch
  merge_patch-unlogged logs entity_type base_version v patch e lower upper missing =
      let since = is_log_since entity_type (c.entity_id e) base_version in
      let stale : ltb base_version (c.version e) ≡ true =
        lt→ltb base_version (c.version e) (omega arith) in
      let uncovered =
        all_covered-missing base_version (c.version e - base_version) v (covered_since since logs)
          lower (omega arith) (covered_since-missing since v logs missing) in
      elim (Bool-cases (is_nil (patch_fields c patch e))) [
        | inl n ↦ rw n refl
        | inr n ↦ rw (n, stale, uncovered) refl
      ]
