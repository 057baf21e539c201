-- ===== src/Engine/Echo.antt =====
-- What a node of pygrid/node.py makes of the answer of the mock engine of pygrid/testkit.py.
use nycc_grid.Base.{Option-cases, ℕ, String, ◌≡◌, some, [], ◌∷◌, ◌++◌, arith, eq_iff}
use nycc_grid.Base.Int.{pos}
use nycc_grid.Json.{Fields, get_field, str}
use nycc_grid.Runtime.{Bytes, Platform, Runtime}
use nycc_grid.Crypto.{◌+++◌}
use nycc_grid.Coordinator.State.{send}
use nycc_grid.Coordinator.Headers.{Request}
use nycc_grid.Coordinator.Routes.{json_body, document}
use nycc_grid.Node.Work.{first_choice, inferred}
use nycc_grid.Engine.{MockEngine, int_or, prompt_of, completion, complete, engine_post}

module _ {F : Type 0} ⦃pl : Platform⦄ ⦃rt : Runtime F⦄ where
  inferred-complete :
      (hex : String) (body doc : Fields F) (status : ℕ) (e f : MockEngine)
      → complete hex body e ≡ (f, send status doc)
      → (inferred status doc ≡ some (str (e.echo_prefix +++ prompt_of body)))
        × (f.prompts ≡ e.prompts ++ prompt_of body ∷ [])
  unfolding complete completion inferred first_choice
  inferred-complete hex body doc status e f h =
      ground (arith, h, Option-cases (int_or (get_field body "max_tokens") (pos 0)))

  -- When the mock engine answers a completion request, the text that the node infers from its
  -- answer is the engine's prefix followed by the prompt of the request, and that prompt is the
  -- last of those that the engine has seen.
  pub inferred-engine_post :
      (hex : String) (req : Request) (body doc : Fields F) (raw : Bytes) (status : ℕ)
      (e f : MockEngine)
      → pl.url_path req.target ≡ "/v1/completions"
      → json_body req ≡ document body raw
      → engine_post hex req e ≡ (f, send status doc)
      → (inferred status doc ≡ some (str (e.echo_prefix +++ prompt_of body)))
        × (f.prompts ≡ e.prompts ++ prompt_of body ∷ [])
  unfolding engine_post
  inferred-engine_post hex req body doc raw status e f path read answer =
      let at = (eq_iff (pl.url_path req.target) "/v1/completions").1 path in
      inferred-complete hex body doc status e f (ground (arith, at, read, answer))
