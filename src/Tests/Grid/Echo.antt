-- ===== src/Tests/Grid/Echo.antt =====
-- The theorem on the mock engine, at the prompt of the toy documents.
use nycc_grid.Tests.Toy.{prompt_fields, toy_platform, toy_runtime}
use nycc_grid.Tests.Grid.Work.{work}
use nycc_grid.Base.{ℕ, ◌≡◌, refl, some, [], ◌∷◌}
use nycc_grid.Base.Int.{pos}
use nycc_grid.Json.{Fields, str}
use nycc_grid.Coordinator.State.{send}
use nycc_grid.Coordinator.Headers.{Request}
use nycc_grid.Coordinator.Routes.{json_body, document}
use nycc_grid.Node.Work.{inferred}
use nycc_grid.Engine.{MockEngine, int_or, completion, complete, engine_post}
use nycc_grid.Engine.Echo.{inferred-engine_post}

abbrev parrot : MockEngine
parrot = record { echo_prefix = "echo: "; prompts = [] }

abbrev asks : Request
asks = record {
  target = "/v1/completions";
  headers = ("Content-Length", "1") ∷ [];
  stream = 7 ∷ [];
}

abbrev heard : MockEngine
heard = record { echo_prefix = "echo: "; prompts = "hi" ∷ [] }

abbrev echoed : Fields ℕ
echoed = completion "0" "hi" "echo: hi" (pos 64)

asks_read : json_body asks ≡ document prompt_fields (7 ∷ [])
unfolding work
asks_read = refl

asks_answered : engine_post "0" asks parrot ≡ (heard, send 200 echoed)
unfolding work engine_post complete int_or
asks_answered = refl

inferred-engine_post_example :
    (inferred 200 echoed ≡ some (str "echo: hi")) × (heard.prompts ≡ "hi" ∷ [])
inferred-engine_post_example =
    inferred-engine_post "0" asks prompt_fields echoed (7 ∷ []) 200 parrot heard refl asks_read
      asks_answered
