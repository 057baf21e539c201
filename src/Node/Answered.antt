-- ===== src/Node/Answered.antt =====
-- What a job that `process` of pygrid/node.py completes has gone through.
use nycc_grid.Base.{◌≡◌, some, []}
use nycc_grid.Crypto.{◌+++◌}
use nycc_grid.Node.Said.{Replied, Said, bytes_of}
use nycc_grid.Json.{Json, Fields}
use nycc_grid.Net.{Net}
use nycc_grid.Runtime.{Bytes, Platform, Runtime}
use nycc_grid.Node.{Agent}
use nycc_grid.Node.Work.{opened, infer_body, first_choice, result_payload}
use nycc_grid.Protocol.{JobEnvelope}

module _ {F S : Type 0} ⦃pl : Platform⦄ ⦃rt : Runtime F⦄ (net : Net F S) where
  -- A completed job, from the state `s` to the state `u`: its blob opens with the keys of the agent;
  -- the engine answered the request for the payload inside with 200 and a first choice with a text;
  -- and the coordinator answered with 200 to the post of the sealed text with its receipt, made of
  -- that blob and that text.
  pub record Answered (a : Agent F) (s u : S) (env : JobEnvelope) : Type 0 where
    pub request_raw : Bytes
    pub payload : Json F
    pub opened_as : opened a env ≡ some (request_raw, payload)
    pub question : Bytes
    pub asked : infer_body payload ≡ some question
    pub inferred_at : S
    pub answer : Fields F
    pub engine_said :
        Replied net s inferred_at (a.engine_url +++ "/v1/completions") "POST" question [] 200 answer
    pub text : Json F
    pub chosen : first_choice answer ≡ some text
    pub body : Fields F
    pub made : result_payload net a env s inferred_at request_raw text ≡ some body
    pub document : Fields F
    pub accepted :
        Said net a inferred_at u "POST" "/v1/jobs/result" (bytes_of net (some body)) 200 document
