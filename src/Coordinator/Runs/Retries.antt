-- ===== src/Coordinator/Runs/Retries.antt =====
-- A submission that is sent again under its idempotency key makes no second job.
use mathlib.Core.Path.{subst}
use nycc_grid.Base.{
  pair_beq_iff, ◌≤◌, String, count, ◌≡◌, sym, true, none, some, [], ◌∷◌, arith, string_eq, pair_eq,
  nat_eq,
}
use nycc_grid.Coordinator.State.{max_blob_b64_bytes, Coordinator, World, send}
use nycc_grid.Coordinator.Runs.{Reach-Keeps}
use nycc_grid.Coordinator.Effect.{Effect, Effect-create_job, idle, pulled, posted, created}
use nycc_grid.Coordinator.Invariant.{Inv, IsFresh}
use nycc_grid.Base.Dict.{get, has, get-put}
use nycc_grid.Coordinator.Submit.{job_request, idem_key_of, enqueue, create_job}
use nycc_grid.Runtime.{Platform, Runtime}
use nycc_grid.Coordinator.Invariant.Reach.{
  Step, Reach, Inv-Effect, Step-Effect, Step-Inv, start, after,
}
use nycc_grid.Json.{Fields, fields, bool, str}
use nycc_grid.Coordinator.Keeps.{Keeps-create_job}

module _ {F : Type 0} where
  recall-Effect :
      (key : String × String) (id : String) (w : World F) (s t : Coordinator F)
      → Effect w s t
      → get s.idempotency key ≡ some id
      → get t.idempotency key ≡ some id
  recall-Effect key id w s t (idle a b) g = cc (b.same_idempotency)
  recall-Effect key id w s t (pulled m b) g = cc (b.same_idempotency)
  recall-Effect key id w s t (posted j blob receipt h r e a b c) g = cc
  recall-Effect key id w s t (created none r n c q e a b d) g = cc
  recall-Effect key id w s t (created (some k) r n c q e a b d) g =
      ground (arith, get-put s.idempotency k key w.uuid, pair_beq_iff k key)

  -- A submission with a key that the coordinator knows is answered with the job of that key.
  create_job-recalled :
      (w : World F) (body : Fields F) (t : Coordinator F) (request : String × String × String)
      (key : String × String) (id : String)
      → job_request body ≡ some request
      → count request.1 ≤ max_blob_b64_bytes
      → idem_key_of request.0 body ≡ some key
      → has t.nodes request.0 ≡ true
      → get t.idempotency key ≡ some id
      → create_job w body t
        ≡ (t, send 200 (fields (("job_id", str id) ∷ ("duplicate", bool true) ∷ [])))
  unfolding create_job
  create_job-recalled w body t request key id a b c n g = ground arith

module _ {F : Type 0} ⦃pl : Platform⦄ ⦃rt : Runtime F⦄ where
  Step-recall :
      (key : String × String) (id : String) (s t : Coordinator F)
      → Step s t
      → Inv s
      → get s.idempotency key ≡ some id
      → get t.idempotency key ≡ some id
  Step-recall key id s t st h g =
      let (w, fresh, e) = Step-Effect s t st h in recall-Effect key id w s t e g

  Reach-recall :
      (key : String × String) (id : String) {s t : Coordinator F}
      → Reach s t
      → Inv s
      → get s.idempotency key ≡ some id
      → (get t.idempotency key ≡ some id) × Inv t
  Reach-recall key id start h g = (g, h)
  Reach-recall key id (after {t = t} {u = u} r st) h g =
      let (gt, ht) = Reach-recall key id r h g in
      (Step-recall key id t u st ht gt, Step-Inv t u st ht)

  created_known :
      (w : World F) (body : Fields F) (s : Coordinator F) (request : String × String × String)
      (key : String × String) (id : String)
      → job_request body ≡ some request
      → idem_key_of request.0 body ≡ some key
      → (create_job w body s).1 ≡ send 200 (fields (("job_id", str id) ∷ []))
      → (get (create_job w body s).0.idempotency key ≡ some id) × (has s.nodes request.0 ≡ true)
  unfolding create_job enqueue
  created_known w body s request key id a c made =
      ground (arith, get-put s.idempotency key key w.uuid, pair_beq_iff key key)

  -- After a submission with an idempotency key has made a job, the same node, key and size limit
  -- in a later submission get that job's id back as a duplicate and change nothing, through any
  -- run of requests in between.
  pub create_job-idempotent :
      (w v : World F) (body again : Fields F) (s t : Coordinator F)
      (request repeat : String × String × String) (key : String × String) (id : String)
      → Inv s
      → IsFresh w s
      → job_request body ≡ some request
      → idem_key_of request.0 body ≡ some key
      → (create_job w body s).1 ≡ send 200 (fields (("job_id", str id) ∷ []))
      → Reach (create_job w body s).0 t
      → job_request again ≡ some repeat
      → repeat.0 ≡ request.0
      → count repeat.1 ≤ max_blob_b64_bytes
      → idem_key_of repeat.0 again ≡ some key
      → create_job v again t
        ≡ (t, send 200 (fields (("job_id", str id) ∷ ("duplicate", bool true) ∷ [])))
  create_job-idempotent w v body again s t request repeat key id h fresh a c made run a2 n2 b2 c2 =
      let u = (create_job w body s).0 in
      let (known, node) = created_known w body s request key id a c made in
      let hu = Inv-Effect w s u (Effect-create_job w s body) fresh h in
      let there =
        (Reach-Keeps run).nodes_kept request.0
          ((Keeps-create_job w body s).nodes_kept request.0 node) in
      create_job-recalled v again t repeat key id a2 b2 c2
        (subst (λ n. has t.nodes n ≡ true) (sym n2) there) (Reach-recall key id run hu known).0
