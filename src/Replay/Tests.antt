-- ===== src/Replay/Tests.antt =====
-- The theorem on the replay, at an input that meets its hypotheses.
use clawvival.Base.{pos, ◌≡◌, inl, refl, String, str_eq, false, List, [], ◌∷◌}
use clawvival.Base.Text.{trim_space}
use clawvival.Survival.Value.{get, field, done, text, obj, int}
use clawvival.Survival.Types.{DomainEvent}
use clawvival.Ports.{returned, EventRepository}
use clawvival.Replay.{Request, replay, take, limit_of, filter, within_times, of_session}
use clawvival.Replay.Page.{listed, Lists, IsPage, shown_of, replay-IsPage}

abbrev heard_in : String → DomainEvent
heard_in session = record {
  type = "action_settled";
  occurred_at = 1000;
  payload =
      field "session_id" (text session)
        (field "state_after" (obj (field "hp" (int (pos 40)) done)) done);
}

abbrev logged : List DomainEvent
logged = heard_in "a" ∷ heard_in "b" ∷ heard_in "a" ∷ []

abbrev log : EventRepository (List DomainEvent)
log = record {
  append = λ agent_id events s. returned s;
  list_by_agent_id = λ agent_id limit s. returned (listed s limit);
}

abbrev first_of_b : Request
first_of_b = record {
  agent_id = "agent";
  limit = pos 1;
  occurred_from = pos 0;
  occurred_to = pos 0;
  session_id = " b ";
}

log-Lists : Lists log logged "agent" logged
log-Lists = λ limit. inl refl

is_named : str_eq (trim_space "agent") "" ≡ false
unfolding trim_space
is_named = refl

replay-IsPage_example : IsPage first_of_b logged (replay log first_of_b logged)
replay-IsPage_example = replay-IsPage log first_of_b logged logged is_named log-Lists

one_event : shown_of first_of_b logged ≡ heard_in "b" ∷ []
unfolding take limit_of filter within_times of_session trim_space get
one_event = refl
