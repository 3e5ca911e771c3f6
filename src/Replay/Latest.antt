-- ===== src/Replay/Latest.antt =====
-- internal/app/replay/usecase.go: the state that the events tell of.

use clawvival.Base.{
  ◌≡◌, ◌⊎◌, All, ◌++◌, Option-cases, some, none, refl, ap, inl, inr, String, List, [], ◌∷◌,
}
use clawvival.Survival.Types.{DomainEvent, AgentStateAggregate}
use clawvival.Survival.Value.{Fields, get, as_obj}
use clawvival.Engine.Context.{zero_state}
use clawvival.Replay.{reconstruct, num, state_of, state_or}

-- An event tells of a state: its payload has one under "state_after".
abbrev Tells : DomainEvent → Fields → Type 0
Tells event after = as_obj (get "state_after" event.payload) ≡ some after

abbrev Silent : DomainEvent → Type 0
Silent event = as_obj (get "state_after" event.payload) ≡ none

-- The vitals and the position that a payload tells of, of an agent; all else is empty.
abbrev told_state : String → Fields → AgentStateAggregate
told_state agent_id after = record zero_state {
  agent_id = agent_id;
  vitals = record {
    hp = num (get "hp" after);
    hunger = num (get "hunger" after);
    energy = num (get "energy" after);
  };
  position = record { x = num (get "x" after); y = num (get "y" after) };
}

-- The state is that of the newest of the events that tells of one, or empty where none does.
abbrev pub IsLatest : String → List DomainEvent → AgentStateAggregate → Type 0
IsLatest agent_id shown state =
    All Silent shown × (state ≡ record zero_state { agent_id = agent_id })
    ⊎ (newer : List DomainEvent) × (event : DomainEvent) × (older : List DomainEvent)
      × (after : Fields) × (shown ≡ newer ++ event ∷ older)
      × All Silent newer
      × Tells event after
      × (state ≡ told_state agent_id after)

abbrev pub of_agent : String → AgentStateAggregate → AgentStateAggregate
of_agent agent_id state = record state { agent_id = agent_id }

pub reconstruct-IsLatest :
    (agent_id : String) (shown : List DomainEvent)
    → IsLatest agent_id shown (of_agent agent_id (reconstruct shown))
unfolding reconstruct state_or state_of
reconstruct-IsLatest agent_id [] = inl (tt, refl)
reconstruct-IsLatest agent_id (event ∷ events) =
    elim (Option-cases (as_obj (get "state_after" event.payload))) [
      | inr (after, tells) ↦ inr ([], event, events, after, refl, tt, tells, rw tells refl)
      | inl silent ↦ elim (reconstruct-IsLatest agent_id events) [
        | inl (all_silent, empty) ↦ inl ((silent, all_silent), rw silent empty)
        | inr (newer, e, older, after, split, quiet, tells, same) ↦ inr (
          event ∷ newer,
          e,
          older,
          after,
          ap (λ xs. event ∷ xs) split,
          (silent, quiet),
          tells,
          rw silent same,
        )
      ]
    ]
