-- ===== src/Gorm/Saving.antt =====
-- internal/adapter/repo/gorm/state_repo.go: what a save that returned has written is loaded.
use clawvival.Base.{
  ◌≡◌, ◌≢◌, refl, sym, ap, ◌∙◌, inl, inr, arith, ℤ, pos, eqb_ℤ, leb_ℤ, String, str_eq, eq_iff, Bool,
  true, ◌&&◌, Bool-cases, Option-cases, List, [], ◌∷◌,
}
use clawvival.Survival.Types.{Time, AgentStateAggregate}
use clawvival.Ports.{returned}
use clawvival.Gorm.Table.{
  Table, Answer, answered, record_not_found, broken, IsTable, first_of, first_of-append_one,
  first_of-changed_where, passed_on, or_not_found,
}
use clawvival.Gorm.Rows.{AgentStateRow}
use clawvival.Gorm.States.{
  InventoryJson, agent_row, version_row, row_of, apply_ongoing_action, assign_state, get_state,
  save_with_version, state_of,
}
use clawvival.Gorm.Locking.{HoldsStates, save-updates, assign_state-agent_id}
use clawvival.Gorm.Loading.{
  Fits, ReadsInventory, IsLoaded, Carries, plain, row_of-Carries, assign_state-Carries,
  state_of-IsLoaded, capacity-ne,
}

pub same_name : (name : String) → str_eq name name ≡ true
same_name name = ground (arith, eq_iff name name)

-- A test that is the same on every row finds the same row.
pub first_of-eq :
    {Row : Type 0} (test again : Row → Bool) (rows : List Row)
    → ((r : Row) → test r ≡ again r)
    → first_of test rows ≡ first_of again rows
unfolding first_of
first_of-eq test again [] h = refl
first_of-eq test again (r ∷ rows) h = ground (arith, h r, first_of-eq test again rows h)

row_of-agent_id :
    (json : InventoryJson) (state : AgentStateAggregate)
    → (row_of json state).agent_id ≡ state.agent_id
unfolding row_of apply_ongoing_action
row_of-agent_id json state = elim (Option-cases state.ongoing_action) [
  | inl idle ↦ rw idle refl
  | inr (ongoing, busy) ↦ rw busy refl
]

pub passed_on-returned :
    {S : Type 0} (a : Answer S) {t : S} → passed_on a ≡ returned t → a ≡ answered t
passed_on-returned (answered s) h = cc h
passed_on-returned record_not_found h = absurd (cc h)
passed_on-returned (broken e) h = absurd (cc h)

and_true : (a b : Bool) → (a && b) ≡ true → a ≡ true
and_true a b h = ground arith

module _ {S : Type 0} (db : Table S AgentStateRow) (json : InventoryJson)
    {rows : S → List AgentStateRow} {matches : AgentStateRow → AgentStateRow → Bool}
    {stored : AgentStateRow → AgentStateRow} {rounded : Time → Time}
    {touched : AgentStateRow → Time} (table : IsTable db rows matches stored)
    (holds : HoldsStates rows matches stored rounded touched) where
  abbrev of_agent : String → AgentStateRow → Bool
  of_agent agent_id r = str_eq r.agent_id agent_id

  stored-Carries :
      (state : AgentStateAggregate) (m : AgentStateRow)
      → Fits state
      → Carries json state m
      → Carries json state (stored m)
  unfolding Carries
  stored-Carries state m fits c =
      ap plain (holds.kept m (capacity-ne json state m fits (unfold Carries in c))) ∙ c

  -- The first row of the agent after the save.
  Found : AgentStateAggregate → S → Type 0
  Found state t =
      (m : AgentStateRow) × (first_of (of_agent state.agent_id) (rows t) ≡ answered m)
      × Carries json state m

  created-Found :
      (state : AgentStateAggregate) (s t : S)
      → Fits state
      → db.create (row_of json state) s ≡ answered t
      → Found state t
  unfolding Found
  created-Found state s t fits made =
      let added = table.create_adds (row_of json state) s t made in
      let named : of_agent state.agent_id (stored (row_of json state)) ≡ true =
        ap (λ name. str_eq name state.agent_id)
          (holds.keyed (row_of json state) ∙ row_of-agent_id json state)
        ∙ same_name state.agent_id in
      (
        stored (row_of json state),
        ap (first_of (of_agent state.agent_id)) added
            ∙ first_of-append_one (of_agent state.agent_id) (rows s) (stored (row_of json state))
                (rw added at (holds.one state.agent_id t)) named,
        stored-Carries state (row_of json state) fits (row_of-Carries json state),
      )

  updated-Found :
      (state : AgentStateAggregate) (version : ℤ) (s t : S)
      → version ≢ pos 0
      → state.agent_id ≢ ""
      → Fits state
      → save_with_version db json state version s ≡ returned t
      → Found state t
  unfolding Found
  updated-Found state version s t some_version named fits h =
      let (n, updated, some_changed) = save-updates db json state version s some_version h in
      let (counted, after) = table.updates_change _ _ n s t updated in
      let (r, found) =
        first_of-changed_where (matches (version_row state.agent_id version))
          (of_agent state.agent_id) (λ r. stored (assign_state json state r)) (rows s) narrow kept
          (holds.one state.agent_id s) (λ nothing. some_changed (counted ∙ nothing)) in
      (
        stored (assign_state json state r),
        ap (first_of (of_agent state.agent_id)) after ∙ found,
        stored-Carries state (assign_state json state r) fits (assign_state-Carries json state r),
      )
    where
      narrow :
          (r : AgentStateRow)
          → matches (version_row state.agent_id version) r ≡ true
          → of_agent state.agent_id r ≡ true
      narrow r passes =
          and_true _ (eqb_ℤ r.version version)
            (sym (holds.by_version state.agent_id version r named some_version) ∙ passes)

      kept :
          (r : AgentStateRow)
          → matches (version_row state.agent_id version) r ≡ true
          → of_agent state.agent_id (stored (assign_state json state r)) ≡ true
      kept r passes =
          ap (λ name. str_eq name state.agent_id)
            (holds.keyed (assign_state json state r) ∙ assign_state-agent_id json state r)
          ∙ narrow r passes

  -- What is found is loaded.
  Found-loads :
      (state : AgentStateAggregate) (t : S)
      → ReadsInventory json state.inventory
      → state.agent_id ≢ ""
      → Fits state
      → Found state t
      → (got : AgentStateAggregate) × (get_state db json state.agent_id t ≡ returned got)
        × IsLoaded state got
  unfolding Found get_state
  Found-loads state t reads named fits (m, found, c) = (
    state_of json state.agent_id m,
    ap (or_not_found (state_of json state.agent_id)) (
        table.first_finds (agent_row state.agent_id) t
        ∙ first_of-eq (matches (agent_row state.agent_id)) (of_agent state.agent_id) (rows t)
            (λ r. holds.by_agent state.agent_id r named)
        ∙ found),
    state_of-IsLoaded json state m reads fits c,
  )

  save-Found :
      (state : AgentStateAggregate) (version : ℤ) (s t : S)
      → state.agent_id ≢ ""
      → Fits state
      → save_with_version db json state version s ≡ returned t
      → Found state t
  unfolding save_with_version
  save-Found state version s t named fits h =
      elim (Bool-cases (leb_ℤ version (pos 0) && leb_ℤ (pos 0) version)) [
        | inl fresh ↦
            created-Found state s t fits
              (passed_on-returned (db.create (row_of json state) s) (rw fresh at h))
        | inr older ↦
            updated-Found state version s t
              (λ e. absurd (cc (older, ap (λ v. leb_ℤ v (pos 0) && leb_ℤ (pos 0) v) e))) named fits
              h
      ]

-- After a save of the state of an agent that returned, of a new state or of a state whose version
-- was expected, the agent's state is loaded with the agent, the vitals, the position, the counts of
-- the inventory, the capacity and the slots used, the death and the version that were saved. The
-- agent has a name, the integers fit the columns, the JSON of an inventory is read again, and the
-- table keeps one row for each agent.
pub save-get :
    {S : Type 0} (db : Table S AgentStateRow) (json : InventoryJson) {rows : S → List AgentStateRow}
    {matches : AgentStateRow → AgentStateRow → Bool} {stored : AgentStateRow → AgentStateRow}
    {rounded : Time → Time} {touched : AgentStateRow → Time} (state : AgentStateAggregate)
    (version : ℤ) (s t : S)
    → IsTable db rows matches stored
    → HoldsStates rows matches stored rounded touched
    → ReadsInventory json state.inventory
    → state.agent_id ≢ ""
    → Fits state
    → save_with_version db json state version s ≡ returned t
    → (got : AgentStateAggregate) × (get_state db json state.agent_id t ≡ returned got)
      × IsLoaded state got
save-get db json state version s t table holds reads named fits h =
    Found-loads db json table holds state t reads named fits
      (save-Found db json table holds state version s t named fits h)
