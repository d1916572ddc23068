-- ===== src/AgentOutput.antt =====
-- coderus/workflow/agent_stage.py: the last message in the output of an agent. The decoder of JSON
-- is a parameter, which reads a line as an event.
use coderus.Base.{Bool, true, false, Option, none, some, List, [], ◌∷◌, is_empty, if◌then◌else◌}
use coderus.Base.Text.{Text}
use coderus.Base.Trim.{splitlines, last}
use coderus.Store.{Result, return, raise, Failure, other}

-- The value of the key "item": an object, whether its type is "agent_message" and `str` of its
-- text; or something else, which has no `get`.
pub data EventItem : Type 0 where
  no_item : EventItem
  item : (is_agent_message : Bool) (text : Text) → EventItem

-- A line: one that `json.loads` refuses by a JSONDecodeError or by another exception; a JSON value
-- that is no object, which has no `get`; or an object, whether its type is "item.completed" and its
-- item.
pub data AgentEvent : Type 0 where
  not_json : AgentEvent
  undecodable : Failure → AgentEvent
  not_object : AgentEvent
  event : (is_item_completed : Bool) (found : EventItem) → AgentEvent

-- The message of a line, if it has one. The `get` of what is no object is an AttributeError.
unfoldable pub line_message : AgentEvent → Result (Option Text)
line_message not_json = return none
line_message (undecodable e) = raise e
line_message not_object = raise other
line_message (event false found) = return none
line_message (event true no_item) = raise other
line_message (event true (item true text)) = return (some text)
line_message (event true (item false text)) = return none

module _ {A B : Type 0} where
  -- What follows a computation that may raise.
  unfoldable pub and_then : Result A → (A → Result B) → Result B
  and_then (return a) f = f a
  and_then (raise e) f = raise e

abbrev pub newer : Option Text → Text → Text
newer none message = message
newer (some text) message = text

-- The loop over the lines: the last message counts.
unfoldable pub last_message : (Text → AgentEvent) → Text → List Text → Result Text
last_message event_of message [] = return message
last_message event_of message (line ∷ lines) =
    and_then (line_message (event_of line))
      (λ found. last_message event_of (newer found message) lines)

-- `message or stdout[-8000:]`
abbrev pub message_or : Text → Text → Text
message_or stdout message = if is_empty message then last 8000 stdout else message

-- `final_message`
unfoldable pub final_message : (Text → AgentEvent) → Text → Result Text
final_message event_of stdout =
    and_then (last_message event_of [] (splitlines stdout))
      (λ message. return (message_or stdout message))
