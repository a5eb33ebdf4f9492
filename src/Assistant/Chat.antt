-- ===== src/Assistant/Chat.antt =====
-- app/assistant/service.py: the loop of calls of the language model and of the tools that it asks
-- for. The model client of app/infra/llm/client.py is a parameter, and so are the validation of tool
-- inputs, floats and the database's order on texts.
use operations_management.Base.{
  ℕ, zero, suc, ◌+◌, Bool, true, false, Option, List, [], ◌∷◌, ◌++◌, leb,
}
use operations_management.Text.{Text}
use operations_management.Redis.{Link}
use operations_management.Errors.{Failure, AssistantError, Result, ok, err}
use operations_management.Session.{Session, commit}
use operations_management.Shop.{Shop, Notices}
use operations_management.Rbac.{Access, get_user_permissions}
use operations_management.Replenishment.{Floats}
use operations_management.Assistant.Tools.{Tool, Args, ToolResult, tools_for, run_tool}
use operations_management.Assistant.Usage.{
  LlmUsage, UsageMeter, new_meter, add, Prices, cost_units, Counters, used_today, charge,
}

-- `response.stop_reason`, as far as the loop tells it apart.
pub data StopReason : Type 0 where
  refusal max_tokens pause_turn tool_use other : StopReason

pub record ToolCall (Raw : Type 0) : Type 0 where
  pub id : Text
  pub name : Text
  pub input : Raw

-- `LLMResponse`; `content` are the raw blocks.
pub record LlmResponse (Raw : Type 0) : Type 0 where
  pub stop_reason : StopReason
  pub text : Text
  pub tool_calls : List (ToolCall Raw)
  pub content : List Raw
  pub usage : LlmUsage

-- How a call of the client ends: a response, `LLMError`, or the deadline of the whole loop, which
-- `wait_for` enforces while the call is awaited.
pub data Reply (Raw : Type 0) : Type 0 where
  response : LlmResponse Raw → Reply Raw
  llm_error deadline : Reply Raw

-- A turn of the conversation: of the client, with its role; of the language model, with its blocks;
-- and the results of tools, each with the id of its call.
pub data Turn (Raw F : Type 0) : Type 0 where
  said : Bool → Text → Turn Raw F
  assistant_turn : List Raw → Turn Raw F
  tool_turn : List (Text × ToolResult F) → Turn Raw F

pub data Answer : Type 0 where
  max_iterations_answer truncated_answer refusal_answer empty_answer : Answer
  answered : Text → Answer

pub record ChatResponse : Type 0 where
  pub answer : Answer
  pub tools_called : List Text
  pub iterations : ℕ

-- The variables of `_chat`, and how many calls of the client there have been.
pub record Talk (Raw F : Type 0) : Type 0 where
  pub session : Session Shop Notices
  pub calls : ℕ
  pub meter : UsageMeter
  pub conversation : List (Turn Raw F)
  pub tools_called : List Text
  pub answer : Answer
  pub iterations : ℕ

-- `self` and what it calls: the settings, the client at its n-th call, and the parameters.
pub record Assistant (Raw F : Type 0) : Type 0 where
  pub max_iterations : ℕ
  pub max_cost_per_request : ℕ
  pub daily_cost_per_user : ℕ
  pub create : ℕ → List (Turn Raw F) → List Tool → Reply Raw
  pub validate : (t : Tool) → Raw → Option (Args t)
  pub floats : Floats F
  pub prices : Prices F
  pub before : Text → Text → Bool

abbrev pub fails : AssistantError → Failure
fails e = Failure.assistant e

-- `response.text or EMPTY_ANSWER`
abbrev pub text_or_empty : Text → Answer
text_or_empty [] = Answer.empty_answer
text_or_empty (c ∷ t) = Answer.answered (c ∷ t)

abbrev pub commit_session : {Raw F : Type 0} → Talk Raw F → Talk Raw F
commit_session k = record k { session = (commit k.session).1 }

module _ {Raw F : Type 0} (self : Assistant Raw F) (location : ℕ) (permissions : List Text) where
  abbrev pub keep_result :
      (List (Text × ToolResult F) → Talk Raw F → Result (List (Text × ToolResult F)) × Talk Raw F)
      → ToolCall Raw
      → List (Text × ToolResult F)
      → Talk Raw F
      → Result (ToolResult F) × Session Shop Notices
      → Result (List (Text × ToolResult F)) × Talk Raw F
  keep_result next call results k (ok r, s) =
      next (results ++ (call.id, r) ∷ [])
        (record k { session = s; tools_called = k.tools_called ++ call.name ∷ [] })
  keep_result next call results k (err e, s) = (err e, record k { session = s })

  -- The loop over `response.tool_calls`.
  abbrev pub run_calls :
      List (ToolCall Raw)
      → List (Text × ToolResult F)
      → Talk Raw F
      → Result (List (Text × ToolResult F)) × Talk Raw F
  run_calls [] results k = (ok results, k)
  run_calls (call ∷ calls) results k = keep_result (run_calls calls) call results k (
      run_tool self.floats self.before location self.validate call.name call.input permissions
        k.session)

  abbrev pub after_tools :
      (Talk Raw F → Result (Unit {0}) × Talk Raw F)
      → Result (List (Text × ToolResult F)) × Talk Raw F
      → Result (Unit {0}) × Talk Raw F
  after_tools next (ok results, k) =
      next
        (record (commit_session k) { conversation = k.conversation ++ Turn.tool_turn results ∷ [] })
  after_tools next (err e, k) = (err e, k)

  abbrev pub spoken : LlmResponse Raw → Talk Raw F → Talk Raw F
  spoken r k = record k { conversation = k.conversation ++ Turn.assistant_turn r.content ∷ [] }

  -- The body of the loop behind the count of the call; `next` is the rest of the loop.
  abbrev pub by_stop_reason :
      (Talk Raw F → Result (Unit {0}) × Talk Raw F)
      → StopReason
      → LlmResponse Raw
      → Talk Raw F
      → Result (Unit {0}) × Talk Raw F
  by_stop_reason next StopReason.refusal r k = (ok tt, record k { answer = Answer.refusal_answer })
  by_stop_reason next StopReason.max_tokens r k =
      (ok tt, record k { answer = Answer.truncated_answer })
  by_stop_reason next StopReason.pause_turn r k = next (spoken r k)
  by_stop_reason next StopReason.other r k = (ok tt, record k { answer = text_or_empty r.text })
  by_stop_reason next StopReason.tool_use r k =
      after_tools next (run_calls r.tool_calls [] (spoken r k))

  abbrev pub after_call :
      (Talk Raw F → Result (Unit {0}) × Talk Raw F)
      → Reply Raw
      → Talk Raw F
      → Result (Unit {0}) × Talk Raw F
  after_call next (Reply.response r) k =
      by_stop_reason next r.stop_reason r
        (record k { iterations = k.iterations + 1; meter = add r.usage k.meter })
  after_call next Reply.llm_error k = (err (fails AssistantError.assistant_unavailable), k)
  after_call next Reply.deadline k = (err (fails AssistantError.assistant_timeout), k)

  abbrev pub iterate :
      (Talk Raw F → Result (Unit {0}) × Talk Raw F)
      → Bool
      → Talk Raw F
      → Result (Unit {0}) × Talk Raw F
  iterate next true k = (ok tt, k)
  iterate next false k =
      after_call next (self.create k.calls k.conversation (tools_for permissions))
        (record k { calls = k.calls + 1 })

  -- `for _ in range(n)`
  abbrev pub iterations_of : ℕ → Talk Raw F → Result (Unit {0}) × Talk Raw F
  iterations_of zero k = (ok tt, k)
  iterations_of (suc n) k =
      iterate (iterations_of n) (leb self.max_cost_per_request (cost_units self.prices k.meter)) k

-- What stays between requests: the session, the counters in Redis and the calls of the client.
pub record Desk : Type 0 where
  pub session : Session Shop Notices
  pub counters : Counters
  pub calls : ℕ

module _ {Raw F : Type 0} (self : Assistant Raw F) (access : Access) where
  -- `_chat` up to the response that it makes of its variables.
  unfoldable pub converse :
      ℕ → ℕ → List (Turn Raw F) → Session Shop Notices → ℕ → Result (Unit {0}) × Talk Raw F
  converse user_id location messages s calls =
      iterations_of self location (get_user_permissions user_id access) self.max_iterations
        (record {
          session = (commit s).1;
          calls = calls;
          meter = new_meter;
          conversation = messages;
          tools_called = [];
          answer = Answer.max_iterations_answer;
          iterations = 0;
        })

  abbrev pub chat_response : Result (Unit {0}) → Talk Raw F → Result ChatResponse
  chat_response (ok _) k =
      ok (record { answer = k.answer; tools_called = k.tools_called; iterations = k.iterations })
  chat_response (err e) k = err e

  -- `finally: await charge(...)`, at the time `t`.
  abbrev pub settle :
      Link → ℕ → ℕ → Counters → Result (Unit {0}) × Talk Raw F → Result ChatResponse × Desk
  settle link user_id t counters (r, k) = (
    chat_response r k,
    record {
      session = k.session;
      counters = charge link user_id t (cost_units self.prices k.meter) counters;
      calls = k.calls;
    },
  )

  abbrev pub unless_spent :
      Bool → Link → ℕ → ℕ → ℕ → List (Turn Raw F) → Desk → Result ChatResponse × Desk
  unless_spent true link user_id t location messages d =
      (err (fails AssistantError.assistant_quota_exceeded), d)
  unless_spent false link user_id t location messages d =
      settle link user_id t d.counters (converse user_id location messages d.session d.calls)

  -- The quota is read at one time and charged at another, with Redis as it is then.
  unfoldable pub chat :
      Link → Link → ℕ → ℕ → ℕ → ℕ → List (Turn Raw F) → Desk → Result ChatResponse × Desk
  chat link_before link_after t_before t_after user_id location messages d =
      unless_spent
        (leb self.daily_cost_per_user (used_today link_before user_id t_before d.counters))
        link_after user_id t_after location messages d
