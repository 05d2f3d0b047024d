-- ===== src/Merge/Seen.antt =====
-- services/merge.py: what a patch overwrites after other patches came in between.
use money_flow_service.Merge.Effect.{
  merge_patch-applied, merge_patch-conflict_free, contains-patch_fields, getattr-assign_all_ne,
  entity_id-assign_all,
}
use money_flow_service.Merge.{
  unchanged, conflict, is_effective, write_merge, applied, merge_patch, assign_all, MergeResult,
  Patch, patch_fields, patched, patch_log, attempts, is_log_since, is_nil, Attempt, attempt,
  changed_since, contains, Columns,
}
use money_flow_service.Prelude.{
  ◌∙◌, lt→ltb, sym, nat_beq_iff, ◌+◌, ap, ◌==◌, inr, inl, Bool-cases, refl, arith, [], false, ◌∷◌,
  ◌<◌, map, ◌⊎◌, if◌then◌else◌, true, ◌≡◌, ◌++◌, Bool, List,
}
use mathlib.Core.List.{append-nil, append_assoc}
use money_flow_service.Prelude.Text.{text_eq, text_beq_iff, Text}
use money_flow_service.Prelude.Tables.{select}
use money_flow_service.Models.{EntityPatchLog}

contains-append :
    (xs ys : List Text) (k : Text)
    → contains (xs ++ ys) k ≡ (if contains xs k then true else contains ys k)
unfolding contains
contains-append [] ys k = refl
contains-append (x ∷ xs) ys k = ground (arith, contains-append xs ys k)

changed_since-append :
    (p : EntityPatchLog → Bool) (rows : List EntityPatchLog) (row : EntityPatchLog)
    → p row ≡ true
    → changed_since p (rows ++ row ∷ []) ≡ changed_since p rows ++ row.changed_fields
unfolding changed_since
changed_since-append p [] row h = rw h (append-nil row.changed_fields)
changed_since-append p (r ∷ rows) row h = elim (Bool-cases (p r)) [
  | inl e ↦
      rw (e, changed_since-append p rows row h)
        (sym (append_assoc r.changed_fields (changed_since p rows) row.changed_fields))
  | inr e ↦ rw e (changed_since-append p rows row h)
]

module _ {E F : Type 0} (c : Columns E F) (entity_type : Text) (start : E) where
  abbrev since_start : EntityPatchLog → Bool
  since_start = is_log_since entity_type (c.entity_id start) (c.version start)

  -- What holds of the entity and the logs after any patches, seen from the starting version.
  record IsTracked (st : E × List EntityPatchLog) : Type 0 where
    moved : (st.0 ≡ start) ⊎ (c.version start < c.version st.0)
    same_entity : c.entity_id st.0 ≡ c.entity_id start
    logged :
        (f : F)
        → contains (changed_since since_start st.1) (c.name f) ≡ false
        → c.getattr f st.0 ≡ c.getattr f start

  module _ (a : Attempt c) (e : E) (logs : List EntityPatchLog) (t : IsTracked (e, logs)) where
    abbrev fields : List F
    fields = patch_fields c a.patch e

    abbrev after : E
    after = patched c a.patch fields e

    version-after : c.version after ≡ c.version e + 1
    version-after = c.version-set_version (c.version e + 1) (assign_all c a.patch fields e)

    entity_id-after : c.entity_id after ≡ c.entity_id start
    entity_id-after =
        c.entity_id-set_version (c.version e + 1) (assign_all c a.patch fields e)
        ∙ entity_id-assign_all c a.patch fields e
        ∙ t.same_entity

    version-lt : c.version start < c.version after
    version-lt = elim t.moved [
      | inl same ↦ omega (arith, version-after, ap c.version same)
      | inr later ↦ omega (arith, version-after)
    ]

    -- The log row of this attempt.
    abbrev row : Bool → EntityPatchLog
    row merged =
        patch_log c a.household_id entity_type a.base_version a.actor_user_id after merged fields

    row-since_start : (merged : Bool) → since_start (row merged) ≡ true
    row-since_start merged = ground (
      arith,
      (text_beq_iff entity_type entity_type).1 refl,
      (nat_beq_iff (c.entity_id after) (c.entity_id start)).1 entity_id-after,
      lt→ltb (c.version start) (c.version after) version-lt,
    )

    logged-after :
        (merged : Bool) (f : F)
        → contains (changed_since since_start (logs ++ row merged ∷ [])) (c.name f) ≡ false
        → c.getattr f after ≡ c.getattr f start
    logged-after merged f absent =
        let all = changed_since since_start logs in
        let split : contains (all ++ map c.name fields) (c.name f) ≡ false =
          rw (changed_since-append since_start logs (row merged) (row-since_start merged)) at
            absent in
        let both = contains-append all (map c.name fields) (c.name f) in
        let old : contains all (c.name f) ≡ false = ground arith in
        let new : contains (map c.name fields) (c.name f) ≡ false = ground arith in
        c.getattr-set_version f (c.version e + 1) (assign_all c a.patch fields e)
        ∙ getattr-assign_all_ne c a.patch fields e f new
        ∙ t.logged f old

    write_merge-IsTracked :
        (r : MergeResult c)
        → merge_patch c logs entity_type a.base_version a.patch e ≡ r
        → IsTracked (write_merge c entity_type a (e, logs) r)
    write_merge-IsTracked unchanged h = t
    write_merge-IsTracked (conflict _) h = t
    write_merge-IsTracked (applied e' merged fs) h =
        let (is_after, is_fields) =
          merge_patch-applied c a.patch logs entity_type a.base_version e h in
        rw (is_after, is_fields)
          (record {
            moved = inr version-lt;
            same_entity = entity_id-after;
            logged = logged-after merged;
          })

  attempts-IsTracked :
      (requests : List (Attempt c)) (e : E) (logs : List EntityPatchLog)
      → IsTracked (e, logs)
      → IsTracked (attempts c entity_type requests (e, logs))
  unfolding attempts
  attempts-IsTracked [] e logs t = t
  attempts-IsTracked (a ∷ rest) e logs t =
      let next =
        write_merge-IsTracked a e logs t (merge_patch c logs entity_type a.base_version a.patch e)
          refl in
      let (e', logs') = attempt c entity_type a (e, logs) in attempts-IsTracked rest e' logs' next

  conflict_free :
      (changed : List Text) (fields : List F) (f : F)
      → is_nil (select (λ g. contains changed (c.name g)) fields) ≡ true
      → contains (map c.name fields) (c.name f) ≡ true
      → contains changed (c.name f) ≡ false
  unfolding select contains
  conflict_free changed [] f h k = cc
  conflict_free changed (g ∷ gs) f h k = elim (Bool-cases (contains changed (c.name g))) [
    | inl y ↦ cc (rw y at h)
    | inr n ↦ elim (Bool-cases (c.name g == c.name f)) [
      | inl same ↦ rw ((text_beq_iff (c.name g) (c.name f)).0 same) at n
      | inr other ↦ conflict_free changed gs f (rw n at h) (rw other at k)
    ]
  ]

  -- What an applied merge against the starting version overwrites is as it was at the start.
  tracked_seen :
      (patch : Patch c) (st : E × List EntityPatchLog) {e' : E} {merged : Bool} {fields : List F}
      → IsTracked st
      → merge_patch c st.1 entity_type (c.version start) patch st.0 ≡ applied e' merged fields
      → (f : F) → is_effective c patch st.0 f ≡ true
      → c.getattr f st.0 ≡ c.getattr f start
  tracked_seen patch (e, logs) t h f eff = elim t.moved [
    | inl same ↦ ap (c.getattr f) same
    | inr later ↦ t.logged f (
        conflict_free (changed_since since_start logs) (patch_fields c patch e) f
          (rw t.same_entity at
            (merge_patch-conflict_free c patch logs entity_type (c.version start) e h later))
          (contains-patch_fields c patch e f eff))
  ]

-- Take an entity and any logs, and any patches of it, each applied or refused. If then a patch
-- against the version at the start is applied, every column that it changes still has the value that
-- it had at the start: nothing is overwritten that its author has not seen.
pub attempts-seen :
    {E F : Type 0} (c : Columns E F) (entity_type : Text) (start : E) (logs : List EntityPatchLog)
    (requests : List (Attempt c)) (patch : Patch c) {e' : E} {merged : Bool} {fields : List F}
    → merge_patch c
        (attempts c entity_type requests (start, logs)).1
        entity_type
        (c.version start)
        patch
        (attempts c entity_type requests (start, logs)).0
      ≡ applied e' merged fields
    → (f : F) → is_effective c patch (attempts c entity_type requests (start, logs)).0 f ≡ true
    → c.getattr f (attempts c entity_type requests (start, logs)).0 ≡ c.getattr f start
attempts-seen c entity_type start logs requests patch h f eff =
    tracked_seen c entity_type start patch (attempts c entity_type requests (start, logs))
      (attempts-IsTracked c entity_type start requests start logs
        (record { moved = inl refl; same_entity = refl; logged = λ _ _. refl }))
      h f eff
