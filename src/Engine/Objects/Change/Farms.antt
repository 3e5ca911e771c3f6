-- ===== src/Engine/Objects/Change/Farms.antt =====
-- internal/app/action/action_object.go: a farm that is planted and harvested.
use clawvival.Base.{
  ◌≡◌, ◌⊎◌, inl, inr, refl, sym, ap, ◌∙◌, arith, String, pos, ◌≤ℤ◌, ◌<ℤ◌, leb_ℤ, str_eq, Bool, true,
  false, Bool-cases, some, if◌then◌else◌,
}
use clawvival.Base.Text.{trim_space, to_upper}
use clawvival.Survival.Types.{Time, ActionType, AgentStateAggregate, ActionIntent}
use clawvival.Survival.Tuning.{default_farm_grow_minutes}
use clawvival.World.Provider.{unix}
use clawvival.Ports.{returned, WorldObjectRecord, WorldObjectRepository}
use clawvival.Engine.Context.{FarmObjectState, PreparedObjectAction, Formats}
use clawvival.Engine.Finalize.{add_minutes}
use clawvival.Engine.Objects.{
  refused, prepared, idle_farm, empty_box, or_idle, parse_farm_object_state, is_farm_object,
  is_object, in_state, is_ready, with_farm, prepare_farm, with_object, prepare_with,
  prepare_object_action, Prepared,
}
use clawvival.Engine.Objects.Change.{planted, harvested, changed_object}

-- The state of a farm that was planted at a time.
abbrev pub growing : Time → FarmObjectState
growing now = record {
  state = "GROWING";
  planted_at_unix = unix now;
  ready_at_unix = unix (add_minutes now default_farm_grow_minutes);
}

-- The JSON of a farm's state reads back as it was written, from a text that is not blank.
abbrev pub ReadsBack : Formats → FarmObjectState → Type 0
ReadsBack formats farm =
    (str_eq (trim_space (formats.encode_farm farm)) "" ≡ false)
    × (formats.decode_farm idle_farm (formats.encode_farm farm) ≡ some farm)

module _ (formats : Formats) (farm : FarmObjectState) (obj : WorldObjectRecord)
    (is_farm : is_farm_object obj ≡ true) (named : str_eq (trim_space farm.state) "" ≡ false)
    (text : str_eq (trim_space (formats.encode_farm farm)) "" ≡ false)
    (json : formats.decode_farm idle_farm (formats.encode_farm farm) ≡ some farm)
    (holds : obj.object_state ≡ formats.encode_farm farm) where
  parsed_back : parse_farm_object_state formats obj.object_state ≡ some farm
  unfolding parse_farm_object_state or_idle
  parsed_back = rw (holds, text, json, named) refl

  prepare_farm_lem :
      (test : FarmObjectState → Bool)
      → prepare_farm formats test obj
        ≡ (if test farm then returned (prepared obj empty_box farm) else refused)
  unfolding prepare_farm with_farm
  prepare_farm_lem test = rw (is_farm, parsed_back) refl

is_ready-growing :
    (now later : Time)
    → pos 0 <ℤ unix (add_minutes now default_farm_grow_minutes)
    → is_ready later (growing now)
      ≡ leb_ℤ (unix (add_minutes now default_farm_grow_minutes)) (unix later)
unfolding is_ready in_state to_upper trim_space
is_ready-growing now later after_epoch = ground arith

abbrev pub farm_action : WorldObjectRecord → FarmObjectState → PreparedObjectAction
farm_action obj farm = record { object = obj; box = empty_box; farm = farm }

-- The same farm at two times: once planted, in a store, and once harvested, in another. The actions
-- on it later are prepared by their own checks.
module _ {S : Type 0} (formats : Formats) (now later : Time) (agent_id : String)
    (repo : WorldObjectRepository S) (state : AgentStateAggregate) (i : ActionIntent) where
  abbrev pub prepares : ActionType → S → Prepared
  prepares t s =
      prepare_object_action formats later agent_id (some repo) state (record i { type = t }) s

  pub record IsSeason (sown reaped : S) (sown_farm reaped_farm : WorldObjectRecord) : Type 0 where
    pub not_planted_again : prepares ActionType.farm_plant sown ≡ refused
    pub ripe :
        (unix later <ℤ unix (add_minutes now default_farm_grow_minutes))
          × (prepares ActionType.farm_harvest sown ≡ refused)
        ⊎ (unix (add_minutes now default_farm_grow_minutes) ≤ℤ unix later)
          × (prepares ActionType.farm_harvest sown
              ≡ returned (some (farm_action sown_farm (growing now))))
    pub not_harvested_again : prepares ActionType.farm_harvest reaped ≡ refused
    pub planted_next :
        prepares ActionType.farm_plant reaped ≡ returned (some (farm_action reaped_farm idle_farm))

  module _ (s : S) (obj : WorldObjectRecord)
      (found : repo.get_by_object_id agent_id i.farm_id s ≡ returned obj) where
    prepares_plant : prepares ActionType.farm_plant s ≡ prepare_farm formats (in_state "IDLE") obj
    unfolding prepare_object_action prepare_with with_object
    prepares_plant = rw found refl

    prepares_harvest :
        prepares ActionType.farm_harvest s ≡ prepare_farm formats (is_ready later) obj
    unfolding prepare_object_action prepare_with with_object
    prepares_harvest = rw found refl

  -- An object that is a farm, once planted, cannot be planted again. It can be harvested exactly
  -- when the time for growing has passed; after its harvest it cannot be harvested again, and it can
  -- be planted. This holds where the store finds the farm as it was changed, where the JSON of both
  -- states reads back, and from 1970 on.
  pub planted-IsSeason :
      (p : PreparedObjectAction) (sown reaped : S) (sown_farm reaped_farm : WorldObjectRecord)
      → is_farm_object p.object ≡ true
      → changed_object formats now i p ActionType.farm_plant ≡ some sown_farm
      → repo.get_by_object_id agent_id i.farm_id sown ≡ returned sown_farm
      → changed_object formats later i (farm_action sown_farm (growing now)) ActionType.farm_harvest
        ≡ some reaped_farm
      → repo.get_by_object_id agent_id i.farm_id reaped ≡ returned reaped_farm
      → ReadsBack formats (growing now)
      → ReadsBack formats idle_farm
      → pos 0 <ℤ unix (add_minutes now default_farm_grow_minutes)
      → IsSeason sown reaped sown_farm reaped_farm
  unfolding changed_object planted harvested is_farm_object is_object
  planted-IsSeason p sown reaped sown_farm reaped_farm farm sows finds reaps finds' (text, json)
        (text', json') after_epoch =
      let ready_at = unix (add_minutes now default_farm_grow_minutes) in
      let sown_is : planted formats now p ≡ sown_farm = cc sows in
      let reaped_is : harvested formats (farm_action sown_farm (growing now)) ≡ reaped_farm =
        cc reaps in
      let farm' : is_farm_object sown_farm ≡ true = ap is_farm_object (sym sown_is) ∙ farm in
      let farm'' : is_farm_object reaped_farm ≡ true = ap is_farm_object (sym reaped_is) ∙ farm' in
      let grown =
        prepare_farm_lem formats (growing now) sown_farm farm' (unfold trim_space in refl) text json
          (ap (λ (o : WorldObjectRecord). o.object_state) (sym sown_is)) in
      let idle =
        prepare_farm_lem formats idle_farm reaped_farm farm'' (unfold trim_space in refl) text'
          json' (ap (λ (o : WorldObjectRecord). o.object_state) (sym reaped_is)) in
      let due = is_ready-growing now later after_epoch in
      let harvests = prepares_harvest sown sown_farm finds ∙ grown (is_ready later) in
      record {
        not_planted_again =
            prepares_plant sown sown_farm finds
            ∙ grown (in_state "IDLE")
            ∙ unfold in_state to_upper trim_space in refl;
        ripe = elim (Bool-cases (leb_ℤ ready_at (unix later))) [
          | inl now_due ↦ inr (ground (arith, now_due), harvests ∙ rw (due, now_due) refl)
          | inr early ↦ inl (ground (arith, early), harvests ∙ rw (due, early) refl)
        ];
        not_harvested_again =
            prepares_harvest reaped reaped_farm finds'
            ∙ idle (is_ready later)
            ∙ unfold is_ready in_state to_upper trim_space in refl;
        planted_next =
            prepares_plant reaped reaped_farm finds'
            ∙ idle (in_state "IDLE")
            ∙ unfold in_state to_upper trim_space in refl;
      }
