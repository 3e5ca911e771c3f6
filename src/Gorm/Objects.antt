-- ===== src/Gorm/Objects.antt =====
-- internal/adapter/repo/gorm: world_object_repo.go and agent_resource_node_repo.go.
use clawvival.Base.{ℕ, pos, ltb_ℤ, String, List, [], ◌∷◌, map, if◌then◌else◌}
use clawvival.Base.Decimal.{show_int, atoi}
use clawvival.Survival.Types.{Time}
use clawvival.Ports.{
  Error, Result, returned, raised, WorldObjectRecord, WorldObjectRepository,
  AgentResourceNodeRecord, AgentResourceNodeRepository,
}
use clawvival.Gorm.Table.{
  Table, Answer, answered, record_not_found, broken, passed_on, or_not_found,
}
use clawvival.Gorm.Rows.{
  int32, WorldObjectRow, zero_object_row, AgentResourceNodeRow, zero_node_row,
}

-- What `Updates` answers, without the count.
unfoldable pub after_update : {S : Type 0} → Answer (ℕ × S) → Result S
after_update (answered (n, s)) = returned s
after_update record_not_found = passed_on record_not_found
after_update (broken e) = passed_on (broken e)

unfoldable pub object_row : String → WorldObjectRecord → WorldObjectRow
object_row agent_id obj = record {
  object_id = obj.object_id;
  kind = show_int obj.kind;
  x = int32 obj.x;
  y = int32 obj.y;
  hp = int32 obj.hp;
  owner_agent_id = agent_id;
  object_type = obj.object_type;
  quality = obj.quality;
  capacity_slots = if ltb_ℤ (pos 0) obj.capacity_slots then int32 obj.capacity_slots else pos 0;
  used_slots = if ltb_ℤ (pos 0) obj.used_slots then int32 obj.used_slots else pos 0;
  object_state = obj.object_state;
}

unfoldable pub object_of : WorldObjectRow → WorldObjectRecord
unfolding atoi
object_of m = record {
  object_id = m.object_id;
  kind = atoi m.kind;
  x = m.x;
  y = m.y;
  hp = m.hp;
  object_type = m.object_type;
  quality = m.quality;
  capacity_slots = m.capacity_slots;
  used_slots = m.used_slots;
  object_state = m.object_state;
}

-- The map `updates`. The integers are not converted here.
unfoldable pub assign_object : WorldObjectRecord → WorldObjectRow → WorldObjectRow
assign_object obj m = record m {
  hp = obj.hp;
  object_type = obj.object_type;
  quality = obj.quality;
  capacity_slots = obj.capacity_slots;
  used_slots = obj.used_slots;
  object_state = obj.object_state;
}

unfoldable pub objects_of : Answer (List WorldObjectRow) → Result (List WorldObjectRecord)
unfolding object_of
objects_of (answered rows) = returned (map object_of rows)
objects_of record_not_found = passed_on record_not_found
objects_of (broken e) = passed_on (broken e)

abbrev pub owned_row : String → String → WorldObjectRow
owned_row agent_id object_id = record zero_object_row {
  owner_agent_id = agent_id;
  object_id = object_id;
}

module _ {S : Type 0} (db : Table S WorldObjectRow) where
  unfoldable pub save_object : String → WorldObjectRecord → S → Result S
  unfolding object_row
  save_object agent_id obj s = passed_on (db.create (object_row agent_id obj) s)

  unfoldable pub get_by_object_id : String → String → S → Result WorldObjectRecord
  unfolding object_of
  get_by_object_id agent_id object_id s =
      or_not_found object_of (db.first (owned_row agent_id object_id) s)

  unfoldable pub list_objects : String → S → Result (List WorldObjectRecord)
  unfolding objects_of
  list_objects agent_id s =
      objects_of (db.find (record zero_object_row { owner_agent_id = agent_id }) s)

  -- The count of the rows that are changed is not looked at.
  unfoldable pub update_object : String → WorldObjectRecord → S → Result S
  unfolding assign_object after_update
  update_object agent_id obj s =
      after_update (db.updates (owned_row agent_id obj.object_id) (assign_object obj) s)

  abbrev pub world_object_repo : WorldObjectRepository S
  world_object_repo = record {
    save_object = save_object;
    get_by_object_id = get_by_object_id;
    list_objects = list_objects;
    update_object = update_object;
  }

-- The row at a time.
unfoldable pub node_row : Time → AgentResourceNodeRecord → AgentResourceNodeRow
node_row now r = record {
  agent_id = r.agent_id;
  target_id = r.target_id;
  resource_type = r.resource_type;
  x = int32 r.x;
  y = int32 r.y;
  depleted_until = r.depleted_until;
  updated_at = now;
}

-- The columns of `DoUpdates`.
unfoldable pub assign_node : AgentResourceNodeRow → AgentResourceNodeRow → AgentResourceNodeRow
assign_node old new = record old {
  resource_type = new.resource_type;
  x = new.x;
  y = new.y;
  depleted_until = new.depleted_until;
  updated_at = new.updated_at;
}

unfoldable pub node_of : AgentResourceNodeRow → AgentResourceNodeRecord
node_of row = record {
  agent_id = row.agent_id;
  target_id = row.target_id;
  resource_type = row.resource_type;
  x = row.x;
  y = row.y;
  depleted_until = row.depleted_until;
}

-- No rows are `ErrNotFound`.
unfoldable pub nodes_of : Answer (List AgentResourceNodeRow) → Result (List AgentResourceNodeRecord)
unfolding node_of
nodes_of (answered []) = raised Error.not_found
nodes_of (answered (row ∷ rows)) = returned (map node_of (row ∷ rows))
nodes_of record_not_found = passed_on record_not_found
nodes_of (broken e) = passed_on (broken e)

module _ {S : Type 0} (db : Table S AgentResourceNodeRow) where
  unfoldable pub upsert : Time → AgentResourceNodeRecord → S → Result S
  unfolding node_row assign_node
  upsert now r s = passed_on (db.create_or assign_node (node_row now r) s)

  unfoldable pub get_by_target_id : String → String → S → Result AgentResourceNodeRecord
  unfolding node_of
  get_by_target_id agent_id target_id s =
      or_not_found node_of
        (db.first (record zero_node_row { agent_id = agent_id; target_id = target_id }) s)

  unfoldable pub list_nodes : String → S → Result (List AgentResourceNodeRecord)
  unfolding nodes_of
  list_nodes agent_id s = nodes_of (db.find (record zero_node_row { agent_id = agent_id }) s)

  abbrev pub agent_resource_node_repo : Time → AgentResourceNodeRepository S
  agent_resource_node_repo now = record {
    upsert = upsert now;
    get_by_target_id = get_by_target_id;
    list_nodes = list_nodes;
  }
