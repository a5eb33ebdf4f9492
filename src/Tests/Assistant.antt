-- ===== src/Tests/Assistant.antt =====
-- A chat of the assistant with a scripted language model, and one of its tools.
use operations_management.Base.{
  ℕ, ◌+◌, ◌*◌, ◌≡◌, refl, Option, none, some, [], ◌∷◌, List, suc, zero, true,
}
use operations_management.Redis.{Link}
use operations_management.Errors.{ok}
use operations_management.Rbac.{Access}
use operations_management.Assistant.Tools.{Tool, Args, run_tool, tool_name, product_view}
use operations_management.Assistant.Answering.{Answers, run_tool-Answers}
use operations_management.Assistant.Usage.{Prices, used_today, charge}
use operations_management.Catalog.Products.{get_product}
use Prim.Native.Nat.{◌/◌}
use operations_management.Assistant.Chat.{
  Assistant, Desk, Reply, StopReason, Turn, chat, converse, Answer,
}
use operations_management.Assistant.Settling.{Settles, chat-Settles}
use operations_management.Tests.Data.{session}
use operations_management.Tests.Replenishment.{thousandths}
use operations_management.Tests.Reports.{by_first}

-- Inputs of tools are numbers; only a product's key is read.
abbrev validate : (t : Tool) → ℕ → Option (Args t)
validate Tool.get_product_tool n = some n
validate _ n = none

run_tool-Answers_example :
    Answers thousandths by_first 2 session
      (tool_name Tool.get_product_tool)
      (product_view ∷ [])
      validate
      1
      (run_tool thousandths by_first 2 validate
        (tool_name Tool.get_product_tool)
        1
        (product_view ∷ [])
        session)
run_tool-Answers_example =
    run_tool-Answers thousandths by_first 2 session (tool_name Tool.get_product_tool)
      (product_view ∷ []) validate 1

-- The first reply asks for a product, every later one is an answer.
abbrev script : ℕ → List (Turn ℕ ℕ) → List Tool → Reply ℕ
script zero turns ts = Reply.response record {
  stop_reason = StopReason.tool_use;
  text = [];
  tool_calls = record { id = b'c' ∷ []; name = tool_name Tool.get_product_tool; input = 1 } ∷ [];
  content = 7 ∷ [];
  usage = record {
    input_tokens = 10;
    output_tokens = 2;
    cache_read_input_tokens = 0;
    cache_creation_input_tokens = 0;
  };
}
script (suc n) turns ts = Reply.response record {
  stop_reason = StopReason.other;
  text = b'o' ∷ b'k' ∷ [];
  tool_calls = [];
  content = [];
  usage = record {
    input_tokens = 5;
    output_tokens = 1;
    cache_read_input_tokens = 20;
    cache_creation_input_tokens = 0;
  };
}

-- Weights in hundredths.
abbrev hundredths : Prices ℕ
hundredths = record {
  cache_read_weight = 5;
  cache_write_weight = 125;
  output_weight = 500;
  weigh = λ n w. n * w;
  plus_int = λ n x. n * 100 + x;
  plus = λ x y. x + y;
  round = λ x. (x + 50) / 100;
}

abbrev helper : Assistant ℕ ℕ
helper = record {
  max_iterations = 4;
  max_cost_per_request = 1000;
  daily_cost_per_user = 5000;
  create = script;
  validate = validate;
  floats = thousandths;
  prices = hundredths;
  before = by_first;
}

-- User 1 may see products.
abbrev access : Access
access = record {
  users = 1 ∷ [];
  roles = record { id = 3; name = b'a' ∷ []; description = none } ∷ [];
  permissions = record { id = 5; code = product_view; name = product_view } ∷ [];
  user_roles = record { user_id = 1; role_id = 3 } ∷ [];
  role_permissions = record { role_id = 3; permission_id = 5 } ∷ [];
}

abbrev desk : Desk
desk = record { session = session; counters = λ v e. 0; calls = 0 }

abbrev question : List (Turn ℕ ℕ)
question = Turn.said true (b'?' ∷ []) ∷ []

chat-Settles_example :
    Settles helper access Link.answering Link.answering 50 60 1 2 question desk
      (chat helper access Link.answering Link.answering 50 60 1 2 question desk)
chat-Settles_example =
    chat-Settles helper access Link.answering Link.answering 50 60 1 2 question desk

-- The two replies are counted, the tool was run, and the counter has the cost of both.
talks :
    (chat helper access Link.answering Link.answering 50 60 1 2 question desk).0
    ≡ ok record {
      answer = Answer.answered (b'o' ∷ b'k' ∷ []);
      tools_called = tool_name Tool.get_product_tool ∷ [];
      iterations = 2;
    }
unfolding chat converse run_tool used_today get_product
talks = refl

costs :
    (chat helper access Link.answering Link.answering 50 60 1 2 question desk).1.counters 1 0 ≡ 31
unfolding chat converse run_tool used_today charge get_product
costs = refl
