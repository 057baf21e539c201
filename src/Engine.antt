-- ===== src/Engine.antt =====
-- MockEngine and _EngineHandler of pygrid/testkit.py: the stand-in for the inference engine, which
-- echoes the prompt.
pub mod Echo
use nycc_grid.Base.{
  ltb, if◌then◌else◌, length, ◌==◌, ℕ, ◌+◌, ◌-◌, String, true, not, Option, none, some, List, [],
  ◌∷◌, ◌++◌, string_eq, pair_eq, nat_eq,
}
use nycc_grid.Base.Int.{ℤ, pos, negsuc}
use nycc_grid.Json.{
  Json, Fields, get_field, fields, object, items, null, bool, int, float, str, arr, obj,
}
use nycc_grid.Text.{to_str, get_or}
use nycc_grid.Runtime.{Platform, Runtime}
use nycc_grid.Crypto.{◌+++◌}
use nycc_grid.Coordinator.State.{Reply, refuse, send, crash}
use nycc_grid.Coordinator.Headers.{Request}
use nycc_grid.Coordinator.Routes.{read_body, json_body, document, unusable}

-- The state of MockEngine.
pub record MockEngine : Type 0 where
  pub echo_prefix : String
  pub prompts : List String

-- `n + z`, for a length n.
abbrev pub plus_nat : ℕ → ℤ → ℤ
plus_nat n (pos m) = pos (n + m)
plus_nat n (negsuc m) = if ltb m n then pos (n - (m + 1)) else negsuc (m - n)

module _ {F : Type 0} ⦃pl : Platform⦄ ⦃rt : Runtime F⦄ where
  -- `_int(value, default)`: a default for TypeError and ValueError, a nan included; none is the
  -- OverflowError of an infinity, which it does not catch.
  unfoldable pub int_or : Json F → ℤ → Option ℤ
  int_or (bool b) default = some (if b then pos 1 else pos 0)
  int_or (int z) default = some z
  int_or (float x) default = elim (rt.truncate x) [
    | some z ↦ some z
    | none ↦ if rt.same (float x) (float x) then none else some default
  ]
  int_or (str s) default = some (elim (pl.int_of_str s) [ none ↦ default | some z ↦ z ])
  int_or null default = some default
  int_or (arr xs) default = some default
  int_or (obj d) default = some default

  -- `str(body.get("prompt", ""))`
  abbrev pub prompt_of : Fields F → String
  prompt_of body = to_str (get_or body "prompt" (str ""))

  -- The answer to a completion; `hex` is `uuid.uuid4().hex[:12]`.
  unfoldable pub completion : String → String → String → ℤ → Fields F
  completion hex prompt text max_tokens =
      let used = length (pl.utf8 prompt) in
      fields (
        ("id", str ("cmpl-" +++ hex))
        ∷ ("object", str "text_completion")
        ∷ ("model", str "nycc-mock")
        ∷ (
          "choices",
          arr (
              items (
                object (
                  ("index", int (pos 0))
                  ∷ ("text", str text)
                  ∷ ("finish_reason", str "length")
                  ∷ [])
                ∷ [])),
        )
        ∷ (
          "usage",
          object (
              ("prompt_tokens", int (pos used))
              ∷ ("completion_tokens", int max_tokens)
              ∷ ("total_tokens", int (plus_nat used max_tokens))
              ∷ []),
        )
        ∷ [])

  -- `do_GET` of the engine.
  unfoldable pub engine_get : Request → Reply F
  engine_get req =
      let path = pl.url_path req.target in
      if path == "/healthz"
      then send 200 (fields (("ok", bool true) ∷ ("watts", float rt.zero) ∷ []))
      else if path == "/v1/models"
      then send 200
          (fields (("data", arr (items (object (("id", str "nycc-mock") ∷ []) ∷ []))) ∷ []))
      else refuse 404 "no such route"

  -- The end of `do_POST` of the engine, on the document of the body.
  unfoldable pub complete : String → Fields F → MockEngine → MockEngine × Reply F
  complete hex body e = elim (int_or (get_field body "max_tokens") (pos 0)) [
    | none ↦ (e, crash)
    | some max_tokens ↦
        let prompt = prompt_of body in
        (
          record e { prompts = e.prompts ++ prompt ∷ [] },
          send 200 (completion hex prompt (e.echo_prefix +++ prompt) max_tokens),
        )
  ]

  -- `do_POST` of the engine. What the 404 writes after a body that is too large is not modelled.
  unfoldable pub engine_post : String → Request → MockEngine → MockEngine × Reply F
  engine_post hex req e =
      if not (pl.url_path req.target == "/v1/completions")
      then (
        e,
        elim (read_body req) [
          | none ↦ refuse 413 "request body too large"
          | some _ ↦ refuse 404 "no such route"
        ],
      )
      else elim (json_body req) [ unusable r ↦ (e, r) | document body raw ↦ complete hex body e ]
