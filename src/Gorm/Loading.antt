-- ===== src/Gorm/Loading.antt =====
-- internal/adapter/repo/gorm/state_repo.go: a state that was saved is loaded, less what the table
-- has no column for.
use clawvival.Base.{
  ◌-◌, ◌^◌, ◌%◌, ◌≡◌, ◌≢◌, refl, sym, ap, ◌∙◌, inl, inr, arith, ℤ, pos, negsuc, ◌≤ℤ◌, ltb_ℤ, String,
  str_eq, eq_iff, false, Bool-cases, Option-cases, [], ◌∷◌,
}
use native.Mathlib.Nat.{mod-eq_of_lt}
use clawvival.Base.Dict.{Dict, lookup}
use clawvival.Survival.Types.{ActionType, AgentStateAggregate}
use clawvival.Gorm.Rows.{AgentStateRow, zero_state_row, int32}
use clawvival.Gorm.States.{
  InventoryJson, row_of, assign_state, assign_ongoing, apply_ongoing_action, state_of,
  encode_inventory, decode_inventory, resolve_inventory_capacity, resolve_inventory_used,
}

-- What an `int32` holds.
pub record IsInt32 (z : ℤ) : Type 0 where
  pub low : negsuc (2 ^ 31 - 1) ≤ℤ z
  pub high : z ≤ℤ pos (2 ^ 31 - 1)

-- The integers of a state that its columns hold.
pub record Fits (state : AgentStateAggregate) : Type 0 where
  pub hp : IsInt32 state.vitals.hp
  pub hunger : IsInt32 state.vitals.hunger
  pub energy : IsInt32 state.vitals.energy
  pub x : IsInt32 state.position.x
  pub y : IsInt32 state.position.y
  pub capacity : IsInt32 (resolve_inventory_capacity state)
  pub used : IsInt32 (resolve_inventory_used state)

-- The JSON of an inventory is a text, from which its counts are read again; "{}" is the empty map.
pub record ReadsInventory (json : InventoryJson) (inv : Dict ℤ) : Type 0 where
  pub empty : json.unmarshal "{}" ≡ []
  pub written : json.marshal inv ≢ ""
  pub again : (key : String) → lookup key (json.unmarshal (json.marshal inv)) ≡ lookup key inv

-- What is loaded of a state that was saved.
pub record IsLoaded (state got : AgentStateAggregate) : Type 0 where
  pub agent : got.agent_id ≡ state.agent_id
  pub vitals : got.vitals ≡ state.vitals
  pub position : got.position ≡ state.position
  pub inventory : (key : String) → lookup key got.inventory ≡ lookup key state.inventory
  pub capacity : got.inventory_capacity ≡ resolve_inventory_capacity state
  pub used : got.inventory_used ≡ resolve_inventory_used state
  pub dead : got.dead ≡ state.dead
  pub death_cause : got.death_cause ≡ state.death_cause
  pub version : got.version ≡ state.version

int32-eq : (z : ℤ) → IsInt32 z → int32 z ≡ z
unfolding int32
int32-eq (pos n) h =
    let low : n % 2 ^ 32 ≡ n = mod-eq_of_lt (let k = h.high in omega arith) in ground arith
int32-eq (negsuc n) h =
    let low : n % 2 ^ 32 ≡ n = mod-eq_of_lt (let k = h.low in omega arith) in
    let k = h.low in ground arith

decode-encode :
    (json : InventoryJson) (inv : Dict ℤ)
    → ReadsInventory json inv
    → (key : String)
    → lookup key (decode_inventory json (encode_inventory json inv)) ≡ lookup key inv
unfolding decode_inventory encode_inventory
decode-encode json [] reads key = ap (lookup key) reads.empty
decode-encode json (e ∷ inv) reads key =
    let text : str_eq (json.marshal (e ∷ inv)) "" ≡ false =
      let w = reads.written in ground (arith, eq_iff (json.marshal (e ∷ inv)) "") in
    rw text (reads.again key)

-- A row without its key, its times and the action that goes on.
abbrev pub plain : AgentStateRow → AgentStateRow
plain m = record m {
  agent_id = "";
  updated_at = 0;
  ongoing_action_type = ActionType.other "";
  ongoing_action_end_at = 0;
  ongoing_action_minutes = pos 0;
}

unfoldable pub Carries : InventoryJson → AgentStateAggregate → AgentStateRow → Type 0
Carries json state m = plain m ≡ plain (row_of json state)

pub row_of-Carries :
    (json : InventoryJson) (state : AgentStateAggregate) → Carries json state (row_of json state)
unfolding Carries
row_of-Carries json state = refl

pub assign_state-Carries :
    (json : InventoryJson) (state : AgentStateAggregate) (r : AgentStateRow)
    → Carries json state (assign_state json state r)
unfolding Carries row_of apply_ongoing_action assign_state assign_ongoing
assign_state-Carries json state r = elim (Option-cases state.ongoing_action) [
  | inl idle ↦ rw idle refl
  | inr (ongoing, busy) ↦ rw busy refl
]

columns :
    (json : InventoryJson) (state : AgentStateAggregate)
    → plain (row_of json state) ≡ record zero_state_row {
      hp = int32 state.vitals.hp;
      hunger = int32 state.vitals.hunger;
      energy = int32 state.vitals.energy;
      x = int32 state.position.x;
      y = int32 state.position.y;
      version = state.version;
      inventory = encode_inventory json state.inventory;
      inventory_capacity = int32 (resolve_inventory_capacity state);
      inventory_used = int32 (resolve_inventory_used state);
      dead = state.dead;
      death_cause = state.death_cause;
    }
unfolding row_of apply_ongoing_action
columns json state = elim (Option-cases state.ongoing_action) [
  | inl idle ↦ rw idle refl
  | inr (ongoing, busy) ↦ rw busy refl
]

-- The columns of a state, read, are the state.
pub state_of-IsLoaded :
    (json : InventoryJson) (state : AgentStateAggregate) (m : AgentStateRow)
    → ReadsInventory json state.inventory
    → Fits state
    → Carries json state m
    → IsLoaded state (state_of json state.agent_id m)
unfolding Carries state_of
state_of-IsLoaded json state m reads fits c =
    let e = c ∙ columns json state in
    record {
      agent = refl;
      vitals =
          ap (λ (r : AgentStateRow). record { hp = r.hp; hunger = r.hunger; energy = r.energy }) e
          ∙ rw
              (
                int32-eq state.vitals.hp fits.hp,
                int32-eq state.vitals.hunger fits.hunger,
                int32-eq state.vitals.energy fits.energy,
              )
              refl;
      position =
          ap (λ (r : AgentStateRow). record { x = r.x; y = r.y }) e
          ∙ rw (int32-eq state.position.x fits.x, int32-eq state.position.y fits.y) refl;
      inventory = λ key.
          ap (λ (r : AgentStateRow). lookup key (decode_inventory json r.inventory)) e
          ∙ decode-encode json state.inventory reads key;
      capacity =
          ap (λ (r : AgentStateRow). r.inventory_capacity) e
          ∙ int32-eq (resolve_inventory_capacity state) fits.capacity;
      used =
          ap (λ (r : AgentStateRow). r.inventory_used) e
          ∙ int32-eq (resolve_inventory_used state) fits.used;
      dead = ap (λ (r : AgentStateRow). r.dead) e;
      death_cause = ap (λ (r : AgentStateRow). r.death_cause) e;
      version = ap (λ (r : AgentStateRow). r.version) e;
    }

resolve_inventory_capacity-ne :
    (state : AgentStateAggregate) → resolve_inventory_capacity state ≢ pos 0
unfolding resolve_inventory_capacity
resolve_inventory_capacity-ne state h = elim (Bool-cases (ltb_ℤ (pos 0) state.inventory_capacity)) [
  | inl some_room ↦
      let e : state.inventory_capacity ≡ pos 0 = rw some_room at h in
      absurd (cc (sym some_room ∙ ap (ltb_ℤ (pos 0)) e))
  | inr unset ↦ absurd (let e : pos 30 ≡ pos 0 = rw unset at h in cc e)
]

pub capacity-ne :
    (json : InventoryJson) (state : AgentStateAggregate) (m : AgentStateRow)
    → Fits state
    → Carries json state m
    → m.inventory_capacity ≢ pos 0
unfolding Carries
capacity-ne json state m fits c h = resolve_inventory_capacity-ne state (
    sym (
      ap (λ (r : AgentStateRow). r.inventory_capacity) (c ∙ columns json state)
      ∙ int32-eq (resolve_inventory_capacity state) fits.capacity)
    ∙ h)
