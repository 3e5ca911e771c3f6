-- ===== src/Gorm/Locking.antt =====
-- internal/adapter/repo/gorm/state_repo.go: of the saves that expect one version, one succeeds.
use clawvival.Base.{
  ℕ, zero, suc, ◌≤◌, ◌≡◌, ◌≢◌, refl, sym, ap, ◌∙◌, inl, inr, arith, ℤ, pos, negsuc, eqb_ℤ,
  eq_of_parts, String, str_eq, Bool, false, ◌&&◌, ◌==◌, leb_ℤ, Bool-cases, List,
}
use clawvival.Survival.Types.{Time, AgentStateAggregate}
use clawvival.Ports.{returned}
use clawvival.Gorm.Table.{
  Table, Answer, answered, record_not_found, broken, IsTable, count, count-changed_where,
}
use clawvival.Gorm.Rows.{AgentStateRow}
use clawvival.Gorm.States.{
  InventoryJson, agent_row, version_row, assign_state, assign_ongoing, save_with_version,
  or_conflict,
}

-- The table of the states: its key is the agent, a field of a condition that is not zero has to
-- agree, and only times may be kept less exactly than they were written.
pub record HoldsStates {S : Type 0} (rows : S → List AgentStateRow)
    (matches : AgentStateRow → AgentStateRow → Bool) (stored : AgentStateRow → AgentStateRow)
    (rounded : Time → Time) (touched : AgentStateRow → Time) : Type 0 where
  pub one : (agent_id : String) (s : S) → count (λ r. str_eq r.agent_id agent_id) (rows s) ≤ 1
  pub by_agent :
      (agent_id : String) (r : AgentStateRow)
      → agent_id ≢ ""
      → matches (agent_row agent_id) r ≡ str_eq r.agent_id agent_id
  pub by_version :
      (agent_id : String) (version : ℤ) (r : AgentStateRow)
      → agent_id ≢ ""
      → version ≢ pos 0
      → matches (version_row agent_id version) r
        ≡ (str_eq r.agent_id agent_id && eqb_ℤ r.version version)
  pub keyed : (r : AgentStateRow) → (stored r).agent_id ≡ r.agent_id
  pub versioned : (r : AgentStateRow) → (stored r).version ≡ r.version
  pub kept :
      (r : AgentStateRow)
      → r.inventory_capacity ≢ pos 0
      → stored r ≡ record r {
        ongoing_action_end_at = rounded r.ongoing_action_end_at;
        updated_at = touched r;
      }

pub eqb_ℤ-ne : (a b : ℤ) → a ≢ b → eqb_ℤ a b ≡ false
eqb_ℤ-ne a b h = elim (Bool-cases (eqb_ℤ a b)) [
  | inl same ↦ absurd (h (eq_of_parts a b (ground arith)))
  | inr other ↦ other
]

pub assign_state-version :
    (json : InventoryJson) (state : AgentStateAggregate) (r : AgentStateRow)
    → (assign_state json state r).version ≡ state.version
unfolding assign_state assign_ongoing
assign_state-version json state r = ground arith

pub assign_state-agent_id :
    (json : InventoryJson) (state : AgentStateAggregate) (r : AgentStateRow)
    → (assign_state json state r).agent_id ≡ r.agent_id
unfolding assign_state assign_ongoing
assign_state-agent_id json state r = ground arith

is_zero-ne : (v : ℤ) → v ≢ pos 0 → (leb_ℤ v (pos 0) && leb_ℤ (pos 0) v) ≡ false
is_zero-ne (pos zero) h = absurd (h refl)
is_zero-ne (pos (suc n)) h = ground arith
is_zero-ne (negsuc n) h = ground arith

pub or_conflict-returned :
    {S : Type 0} (a : Answer (ℕ × S)) {t : S}
    → or_conflict a ≡ returned t
    → (n : ℕ) × (a ≡ answered (n, t)) × (n ≢ 0)
unfolding or_conflict
or_conflict-returned (answered (n, s)) {t} h = elim (Bool-cases (n == 0)) [
  | inl nothing ↦ absurd (cc (rw nothing at h))
  | inr more ↦
      let same : s ≡ t = cc (rw more at h) in
      (n, ap (λ x. answered (n, x)) same, λ e. absurd (ground arith))
]
or_conflict-returned record_not_found h = absurd (cc h)
or_conflict-returned (broken e) h = absurd (cc h)

and_false : (a b : Bool) → b ≡ false → (a && b) ≡ false
and_false a b h = ground arith

module _ {S : Type 0} (db : Table S AgentStateRow) (json : InventoryJson) where
  -- A save that expects a version and returns has changed a row.
  pub save-updates :
      (state : AgentStateAggregate) (version : ℤ) (s : S) {t : S}
      → version ≢ pos 0
      → save_with_version db json state version s ≡ returned t
      → (n : ℕ) × (db.updates (version_row state.agent_id version) (assign_state json state) s
          ≡ answered (n, t))
        × (n ≢ 0)
  unfolding save_with_version
  save-updates state version s {t} some_version h =
      or_conflict-returned
        (db.updates (version_row state.agent_id version) (assign_state json state) s)
        (rw (is_zero-ne version some_version) at h)

  module _ {rows : S → List AgentStateRow} {matches : AgentStateRow → AgentStateRow → Bool}
      {stored : AgentStateRow → AgentStateRow} {rounded : Time → Time}
      {touched : AgentStateRow → Time} (table : IsTable db rows matches stored)
      (holds : HoldsStates rows matches stored rounded touched) where
    -- After a save that expected a version and wrote another, no row has the version expected.
    none_left :
        (state : AgentStateAggregate) (version : ℤ) (s : S) {t : S}
        → version ≢ pos 0
        → state.agent_id ≢ ""
        → state.version ≢ version
        → save_with_version db json state version s ≡ returned t
        → count (matches (version_row state.agent_id version)) (rows t) ≡ 0
    none_left state version s {t} some_version named changes h =
        let (n, updated, _) = save-updates state version s some_version h in
        let (_, after) = table.updates_change _ _ n s t updated in
        ap (count (matches (version_row state.agent_id version))) after
        ∙ count-changed_where (matches (version_row state.agent_id version))
            (λ r. stored (assign_state json state r)) (rows s) other_version
      where
        other_version :
            (r : AgentStateRow)
            → matches (version_row state.agent_id version) (stored (assign_state json state r))
              ≡ false
        other_version r =
            holds.by_version state.agent_id version (stored (assign_state json state r)) named
              some_version
            ∙ and_false (str_eq (stored (assign_state json state r)).agent_id state.agent_id)
                (eqb_ℤ (stored (assign_state json state r)).version version)
                (eqb_ℤ-ne (stored (assign_state json state r)).version version
                  λ e. changes (sym (holds.versioned _ ∙ assign_state-version json state r) ∙ e))

-- Of two saves of the state of an agent that expect the same version, the second does not return
-- after the first has: it is given the store that the first left. The agent has a name, the version
-- expected is not 0, the first writes a version other than that, and the database updates the rows
-- that agree with the condition and counts them.
pub save-save :
    {S : Type 0} (db : Table S AgentStateRow) (json : InventoryJson) {rows : S → List AgentStateRow}
    {matches : AgentStateRow → AgentStateRow → Bool} {stored : AgentStateRow → AgentStateRow}
    {rounded : Time → Time} {touched : AgentStateRow → Time} (state other : AgentStateAggregate)
    (version : ℤ) (s t u : S)
    → IsTable db rows matches stored
    → HoldsStates rows matches stored rounded touched
    → version ≢ pos 0
    → state.agent_id ≢ ""
    → state.version ≢ version
    → other.agent_id ≡ state.agent_id
    → save_with_version db json state version s ≡ returned t
    → save_with_version db json other version t ≢ returned u
save-save db json {rows} {matches} state other version s t u table holds some_version named changes
      same h =
    λ again.
      let (n, updated, some_changed) = save-updates db json other version t some_version again in
      let (counted, _) = table.updates_change _ _ n t u updated in
      some_changed (
        counted
        ∙ ap (λ a. count (matches (version_row a version)) (rows t)) same
        ∙ none_left db json table holds state version s some_version named changes h)
