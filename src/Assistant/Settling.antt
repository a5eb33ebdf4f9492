-- ===== src/Assistant/Settling.antt =====
-- How one chat of app/assistant/service.py ends and how app/assistant/usage.py charges for it.
use operations_management.Base.{
  ℕ, ◌+◌, ◌≤◌, ◌≡◌, refl, Bool, true, false, ◌&&◌, ◌⊎◌, inl, inr, List, [], leb, ltb, ◌==◌, arith,
  Bool-cases, if◌then◌else◌,
}
use operations_management.Errors.{AssistantError, Result, ok, err}
use operations_management.Redis.{Link, is_answering}
use operations_management.Rbac.{Access, get_user_permissions}
use operations_management.Assistant.Usage.{
  UsageMeter, new_meter, cost_units, Counters, used_today, charge, day_of,
}
use operations_management.Assistant.Chat.{
  Answer, Turn, ChatResponse, Talk, Assistant, Desk, fails, converse, settle, chat,
}
use operations_management.Assistant.Bounds.{Bill, Spent, Ends, iterations_of-Ends}

-- `charge` adds the cost to the one counter of the user and the day, while Redis answers.
charge_lem :
    (link : Link) (user t cost : ℕ) (counters : Counters) (v e : ℕ)
    → charge link user t cost counters v e ≡ (
        if is_answering link && (v == user && e == day_of t)
        then counters v e + cost
        else counters v e)
unfolding charge
charge_lem Link.no_client user t cost counters v e = refl
charge_lem Link.failing user t cost counters v e = refl
charge_lem Link.answering user t cost counters v e = elim (Bool-cases (ltb 0 cost)) [
  | inl some_cost ↦ rw some_cost refl
  | inr no_cost ↦ rw no_cost (ground arith)
]

module _ {Raw F : Type 0} (self : Assistant Raw F) (access : Access) (link_before link_after : Link)
    (t_before t_after user location : ℕ) (messages : List (Turn Raw F)) (d : Desk) where
  -- The user's quota of the day is used up.
  abbrev pub is_spent : Bool
  is_spent = leb self.daily_cost_per_user (used_today link_before user t_before d.counters)

  -- What a chat may have done: no more calls of the model than the limit, none of them when the
  -- budget of the request was used up, nothing written, and the tokens of every response charged to
  -- the user's counter of the day while Redis answers.
  pub record Settled (d' : Desk) : Type 0 where
    pub calls : d'.calls ≤ d.calls + self.max_iterations
    pub meter : UsageMeter
    pub bill :
        Bill self location (get_user_permissions user access) d.calls d'.calls new_meter meter
    pub charged :
        (v e : ℕ)
        → d'.counters v e ≡ (
            if is_answering link_after && (v == user && e == day_of t_after)
            then d.counters v e + cost_units self.prices meter
            else d.counters v e)
    pub db : d'.session.db ≡ d.session.db
    pub committed : d'.session.committed ≡ d'.session.db
    pub memory : d'.session.memory ≡ d.session.memory

  -- How a chat may end.
  abbrev pub Settles : Result ChatResponse × Desk → Type 0
  Settles (ok r, d') = (is_spent ≡ false) × Settled d' × (r.iterations + d.calls ≤ d'.calls)
  Settles (err e, d') =
      ((e ≡ fails AssistantError.assistant_quota_exceeded) × (is_spent ≡ true) × (d' ≡ d))
      ⊎ (((e ≡ fails AssistantError.assistant_unavailable)
            ⊎ (e ≡ fails AssistantError.assistant_timeout))
          × (is_spent ≡ false)
          × Settled d')

  abbrev start : Talk Raw F
  start = record {
    session = record d.session { committed = d.session.db };
    calls = d.calls;
    meter = new_meter;
    conversation = messages;
    tools_called = [];
    answer = Answer.max_iterations_answer;
    iterations = 0;
  }

  bill-Settled :
      (k : Talk Raw F)
      → Spent self location (get_user_permissions user access) self.max_iterations start k
      → Settled (record {
        session = k.session;
        counters = charge link_after user t_after (cost_units self.prices k.meter) d.counters;
        calls = k.calls;
      })
  bill-Settled k h = record {
    calls = h.calls;
    meter = k.meter;
    bill = h.bill;
    charged = charge_lem link_after user t_after (cost_units self.prices k.meter) d.counters;
    db = h.db;
    committed = h.committed;
    memory = h.memory;
  }

  settle-Settles :
      (x : Result (Unit {0}) × Talk Raw F)
      → is_spent ≡ false
      → Ends self location (get_user_permissions user access) self.max_iterations start x
      → Settles (settle self access link_after user t_after d.counters x)
  settle-Settles (ok _, k) left h = (left, bill-Settled k h, ground (arith, h.iterations))
  settle-Settles (err e, k) left (which, h) = inr (which, left, bill-Settled k h)

  -- `chat` calls the language model at most `max_iterations` times, never when the budget of the
  -- request is used up, writes nothing, and charges the tokens of every response, also when it
  -- raises. It raises `AssistantQuotaExceeded` exactly when the user's quota of the day is used up,
  -- without a call, and otherwise nothing but `AssistantUnavailable` and `AssistantTimeout`.
  pub chat-Settles :
      Settles (chat self access link_before link_after t_before t_after user location messages d)
  unfolding chat converse
  chat-Settles = elim (Bool-cases is_spent) [
    | inl spent ↦ rw spent (inl (refl, spent, refl))
    | inr left ↦ rw left (
        settle-Settles _ left (
          iterations_of-Ends self location (get_user_permissions user access) self.max_iterations
            start refl))
  ]
