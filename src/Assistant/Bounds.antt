-- ===== src/Assistant/Bounds.antt =====
-- What one chat of app/assistant/service.py may do and what it costs.
use operations_management.Base.{
  ℕ, zero, suc, ◌+◌, ◌≤◌, ◌≡◌, refl, ◌∙◌, false, ◌⊎◌, inl, inr, List, [], ◌∷◌, ◌++◌, leb, arith,
  Bool-cases,
}
use operations_management.Text.{Text}
use operations_management.Errors.{AssistantError, Result, ok, err}
use operations_management.Session.{Session}
use operations_management.Shop.{Shop, Notices}
use operations_management.Assistant.Tools.{ToolResult, tools_for}
use operations_management.Assistant.Answering.{Answers, run_tool-Answers}
use operations_management.Assistant.Usage.{UsageMeter, add, cost_units}
use operations_management.Assistant.Chat.{
  StopReason, ToolCall, LlmResponse, Reply, Turn, Talk, Assistant, fails, commit_session,
  keep_result, run_calls, after_tools, by_stop_reason, after_call, iterations_of,
}

module _ {Raw F : Type 0} where
  -- Tools leave everything but the names of what was called.
  pub record Kept (k k' : Talk Raw F) : Type 0 where
    pub calls : k'.calls ≡ k.calls
    pub meter : k'.meter ≡ k.meter
    pub iterations : k'.iterations ≡ k.iterations
    pub db : k'.session.db ≡ k.session.db
    pub memory : k'.session.memory ≡ k.session.memory

  abbrev Runs : Talk Raw F → Result (List (Text × ToolResult F)) × Talk Raw F → Type 0
  Runs k (ok results, k') = Kept k k'
  Runs k (err e, k') = ⊥

  through :
      (k k1 : Talk Raw F) (x : Result (List (Text × ToolResult F)) × Talk Raw F)
      → Kept k k1
      → Runs k1 x
      → Runs k x
  through k k1 (ok results, k') a b = record {
    calls = b.calls ∙ a.calls;
    meter = b.meter ∙ a.meter;
    iterations = b.iterations ∙ a.iterations;
    db = b.db ∙ a.db;
    memory = b.memory ∙ a.memory;
  }
  through k k1 (err _, k') a b = elim b [ ]

module _ {Raw F : Type 0} (self : Assistant Raw F) (location : ℕ) (permissions : List Text) where
  keep_result-Runs :
      (next : List (Text × ToolResult F)
        → Talk Raw F
        → Result (List (Text × ToolResult F)) × Talk Raw F)
      → ((results : List (Text × ToolResult F)) (k : Talk Raw F) → Runs k (next results k))
      → (call : ToolCall Raw) (results : List (Text × ToolResult F)) (k : Talk Raw F)
        (x : Result (ToolResult F) × Session Shop Notices)
      → Answers self.floats self.before location k.session call.name permissions self.validate
          call.input x
      → Runs k (keep_result self location permissions next call results k x)
  keep_result-Runs next h call results k (ok r, s) (granted, db, committed, memory) =
      let k1 = record k { session = s; tools_called = k.tools_called ++ call.name ∷ [] } in
      through k k1 _
        (record { calls = refl; meter = refl; iterations = refl; db = db; memory = memory })
        (h (results ++ (call.id, r) ∷ []) k1)
  keep_result-Runs next h call results k (err e, s) answer = elim answer [ ]

  run_calls-Runs :
      (calls : List (ToolCall Raw)) (results : List (Text × ToolResult F)) (k : Talk Raw F)
      → Runs k (run_calls self location permissions calls results k)
  run_calls-Runs [] results k = record {
    calls = refl;
    meter = refl;
    iterations = refl;
    db = refl;
    memory = refl;
  }
  run_calls-Runs (call ∷ calls) results k =
      keep_result-Runs (run_calls self location permissions calls) (run_calls-Runs calls) call
        results k _
        (run_tool-Answers self.floats self.before location k.session call.name permissions
          self.validate call.input)

  -- The calls of the model from the `c`-th to the `c'`-th, each made while the budget of the request
  -- was not used up, and what they add to the meter: the usage of every response, and nothing for
  -- the one that gave none.
  pub data Bill : ℕ → ℕ → UsageMeter → UsageMeter → Type 0 where
    no_call : (c : ℕ) (m : UsageMeter) → Bill c c m m
    lost_call :
        (c : ℕ) (m : UsageMeter)
        → leb self.max_cost_per_request (cost_units self.prices m) ≡ false
        → Bill c (c + 1) m m
    billed_call :
        (c c' : ℕ) (m m' : UsageMeter) (conversation : List (Turn Raw F)) (r : LlmResponse Raw)
        → leb self.max_cost_per_request (cost_units self.prices m) ≡ false
        → self.create c conversation (tools_for permissions) ≡ Reply.response r
        → Bill (c + 1) c' (add r.usage m) m'
        → Bill c c' m m'

  -- What at most `n` rounds may use, and that nothing is written.
  pub record Spent (n : ℕ) (k k' : Talk Raw F) : Type 0 where
    pub calls : k'.calls ≤ k.calls + n
    pub iterations : k'.iterations + k.calls ≤ k'.calls + k.iterations
    pub bill : Bill k.calls k'.calls k.meter k'.meter
    pub db : k'.session.db ≡ k.session.db
    pub committed : k'.session.committed ≡ k'.session.db
    pub memory : k'.session.memory ≡ k.session.memory

  abbrev pub Ends : ℕ → Talk Raw F → Result (Unit {0}) × Talk Raw F → Type 0
  Ends n k (ok _, k') = Spent n k k'
  Ends n k (err e, k') =
      ((e ≡ fails AssistantError.assistant_unavailable)
        ⊎ (e ≡ fails AssistantError.assistant_timeout))
      × Spent n k k'

  no_round : (n : ℕ) (k : Talk Raw F) → k.session.committed ≡ k.session.db → Spent n k k
  no_round n k clean = record {
    calls = omega arith;
    iterations = omega arith;
    bill = Bill.no_call k.calls k.meter;
    db = refl;
    committed = clean;
    memory = refl;
  }

  -- One round with a response, and the rest.
  one_round :
      (n : ℕ) (r : LlmResponse Raw) (k k1 k' : Talk Raw F)
      → leb self.max_cost_per_request (cost_units self.prices k.meter) ≡ false
      → self.create k.calls k.conversation (tools_for permissions) ≡ Reply.response r
      → k1.calls ≡ k.calls + 1
      → k1.iterations ≡ k.iterations + 1
      → k1.meter ≡ add r.usage k.meter
      → k1.session.db ≡ k.session.db
      → k1.session.memory ≡ k.session.memory
      → Spent n k1 k'
      → Spent (suc n) k k'
  one_round n r k k1 k' left made calls iterations meter db memory h = record {
    calls = ground (arith, h.calls);
    iterations = ground (arith, h.iterations);
    bill =
        Bill.billed_call k.calls k'.calls k.meter k'.meter k.conversation r left made
          (rw (← calls, ← meter) h.bill);
    db = h.db ∙ db;
    committed = h.committed;
    memory = h.memory ∙ memory;
  }

  next_round :
      (n : ℕ) (r : LlmResponse Raw) (k k1 : Talk Raw F) (x : Result (Unit {0}) × Talk Raw F)
      → leb self.max_cost_per_request (cost_units self.prices k.meter) ≡ false
      → self.create k.calls k.conversation (tools_for permissions) ≡ Reply.response r
      → k1.calls ≡ k.calls + 1
      → k1.iterations ≡ k.iterations + 1
      → k1.meter ≡ add r.usage k.meter
      → k1.session.db ≡ k.session.db
      → k1.session.memory ≡ k.session.memory
      → Ends n k1 x
      → Ends (suc n) k x
  next_round n r k k1 (ok _, k') left made a b c d e h = one_round n r k k1 k' left made a b c d e h
  next_round n r k k1 (err _, k') left made a b c d e (which, h) =
      (which, one_round n r k k1 k' left made a b c d e h)

  module _ (n : ℕ) (next : Talk Raw F → Result (Unit {0}) × Talk Raw F)
      (rest : (k : Talk Raw F) → k.session.committed ≡ k.session.db → Ends n k (next k))
      (k : Talk Raw F) (clean : k.session.committed ≡ k.session.db)
      (left : leb self.max_cost_per_request (cost_units self.prices k.meter) ≡ false) where
    after_tools-Ends :
        (r : LlmResponse Raw)
        → self.create k.calls k.conversation (tools_for permissions) ≡ Reply.response r
        → (k1 : Talk Raw F) (x : Result (List (Text × ToolResult F)) × Talk Raw F)
        → k1.calls ≡ k.calls + 1
        → k1.iterations ≡ k.iterations + 1
        → k1.meter ≡ add r.usage k.meter
        → k1.session.db ≡ k.session.db
        → k1.session.memory ≡ k.session.memory
        → Runs k1 x
        → Ends (suc n) k (after_tools self location permissions next x)
    after_tools-Ends r made k1 (ok results, k2) a b c d e h =
        let k3 = record (commit_session k2) {
          conversation = k2.conversation ++ Turn.tool_turn results ∷ [];
        } in
        next_round n r k k3 (next k3) left made (h.calls ∙ a) (h.iterations ∙ b) (h.meter ∙ c)
          (h.db ∙ d) (h.memory ∙ e) (rest k3 refl)
    after_tools-Ends r made k1 (err e', k2) a b c d e h = elim h [ ]

    by_stop_reason-Ends :
        (why : StopReason) (r : LlmResponse Raw)
        → self.create k.calls k.conversation (tools_for permissions) ≡ Reply.response r
        → Ends (suc n) k (
            by_stop_reason self location permissions next why r (record k {
              calls = k.calls + 1;
              iterations = k.iterations + 1;
              meter = add r.usage k.meter;
            }))
    by_stop_reason-Ends StopReason.refusal r made =
        one_round n r k _ _ left made refl refl refl refl refl (no_round n _ clean)
    by_stop_reason-Ends StopReason.max_tokens r made =
        one_round n r k _ _ left made refl refl refl refl refl (no_round n _ clean)
    by_stop_reason-Ends StopReason.other r made =
        one_round n r k _ _ left made refl refl refl refl refl (no_round n _ clean)
    by_stop_reason-Ends StopReason.pause_turn r made =
        next_round n r k _ _ left made refl refl refl refl refl (rest _ clean)
    by_stop_reason-Ends StopReason.tool_use r made =
        after_tools-Ends r made _ _ refl refl refl refl refl (run_calls-Runs r.tool_calls [] _)

    -- A call that gave no response.
    no_response : Spent (suc n) k (record k { calls = k.calls + 1 })
    no_response = record {
      calls = omega arith;
      iterations = omega arith;
      bill = Bill.lost_call k.calls k.meter left;
      db = refl;
      committed = clean;
      memory = refl;
    }

    after_call-Ends :
        (reply : Reply Raw)
        → self.create k.calls k.conversation (tools_for permissions) ≡ reply
        → Ends
            (suc n)
            k
            (after_call self location permissions next reply (record k { calls = k.calls + 1 }))
    after_call-Ends (Reply.response r) made = by_stop_reason-Ends r.stop_reason r made
    after_call-Ends Reply.llm_error made = (inl refl, no_response)
    after_call-Ends Reply.deadline made = (inr refl, no_response)

  pub iterations_of-Ends :
      (n : ℕ) (k : Talk Raw F)
      → k.session.committed ≡ k.session.db
      → Ends n k (iterations_of self location permissions n k)
  iterations_of-Ends zero k clean = no_round zero k clean
  iterations_of-Ends (suc n) k clean =
      elim (Bool-cases (leb self.max_cost_per_request (cost_units self.prices k.meter))) [
        | inl over ↦ rw over (no_round (suc n) k clean)
        | inr left ↦ rw left (
            after_call-Ends n (iterations_of self location permissions n) (iterations_of-Ends n) k
              clean left _ refl)
      ]
