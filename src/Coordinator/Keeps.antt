-- ===== src/Coordinator/Keeps.antt =====
-- What MockCoordinator of pygrid/testkit.py never forgets: nodes, each under its own id, used
-- nonces, its club key.
pub mod Runs
use text.Mathlib.Text.{starts_with}
use nycc_grid.Crypto.Header
use nycc_grid.Base.{
  Bool-cases, Option-cases, String, ◌≡◌, refl, ◌∙◌, ◌⊎◌, inl, inr, true, not, ◌||◌, Option, none,
  some, arith, string_eq, pair_eq, nat_eq,
}
use nycc_grid.Coordinator.State.{Node, Coordinator, World, touch_node, touch, float_or}
use nycc_grid.Coordinator.Result.{post_result, result}
use nycc_grid.Coordinator.Pull.{pull_jobs, pull}
use nycc_grid.Base.Dict.{Dict, get, put, has, get-put}
use nycc_grid.Coordinator.Submit.{enqueue, create_job}
use nycc_grid.Json.{Fields, get_field, as_str, nonempty}
use nycc_grid.Runtime.{Runtime, truthy}
use nycc_grid.Coordinator.Nodes.{
  Declared-cases, declared_source, declared_neighborhood, registered_node, file_node, file_declared,
  register, heartbeat, absent, label, bad,
}
use nycc_grid.Coordinator.Filed.{IsFiled, get-IsFiled, IsFiled-put}

-- The node that a pull names.
abbrev named : Dict String String → String
named query = elim (get query "node_id") [ none ↦ "" | some n ↦ n ]

-- The node that posts a result.
abbrev poster : Option String → String
poster header_id = elim header_id [ none ↦ "" | some n ↦ n ]

module _ {F : Type 0} where
  pub record Keeps (s t : Coordinator F) : Type 0 where
    pub nodes_kept : (n : String) → has s.nodes n ≡ true → has t.nodes n ≡ true
    pub nonces_kept :
        (k : String × String) → has s.member_nonces k ≡ true → has t.member_nonces k ≡ true
    pub key_kept : t.club_verify_key ≡ s.club_verify_key
    pub filing_kept : IsFiled s.nodes → IsFiled t.nodes

  pub Keeps-refl : (s : Coordinator F) → Keeps s s
  Keeps-refl s = record {
    nodes_kept = λ n h. h;
    nonces_kept = λ k h. h;
    key_kept = refl;
    filing_kept = λ f. f;
  }

  pub Keeps-trans : (s t u : Coordinator F) → Keeps s t → Keeps t u → Keeps s u
  Keeps-trans s t u a b = record {
    nodes_kept = λ n h. b.nodes_kept n (a.nodes_kept n h);
    nonces_kept = λ k h. b.nonces_kept k (a.nonces_kept k h);
    key_kept = b.key_kept ∙ a.key_kept;
    filing_kept = λ f. b.filing_kept (a.filing_kept f);
  }

  has-put :
      (d : Dict String (Node F)) (k n : String) (v : Node F)
      → has d n ≡ true
      → has (put d k v) n ≡ true
  has-put d k n v h = ground (arith, get-put d k n v)

  nonces-put :
      (d : Dict (String × String) F) (k n : String × String) (v : F)
      → has d n ≡ true
      → has (put d k v) n ≡ true
  nonces-put d k n v h = ground (arith, get-put d k n v)

  -- The nodes are the old ones, or one of them is new or written anew; the rest stays.
  pub data NodesStep (s t : Coordinator F) : Type 0 where
    same :
        t.nodes ≡ s.nodes
        → t.member_nonces ≡ s.member_nonces
        → t.club_verify_key ≡ s.club_verify_key
        → NodesStep s t
    wrote :
        (k : String) (v : Node F)
        → (IsFiled s.nodes → (v.node_id ≡ k) × (nonempty k ≡ true))
        → t.nodes ≡ put s.nodes k v
        → t.member_nonces ≡ s.member_nonces
        → t.club_verify_key ≡ s.club_verify_key
        → NodesStep s t

  pub Keeps-of_NodesStep : (s t : Coordinator F) → NodesStep s t → Keeps s t
  Keeps-of_NodesStep s t (same a b c) = record {
    nodes_kept = λ n h. rw a h;
    nonces_kept = λ k h. rw b h;
    key_kept = c;
    filing_kept = λ f. rw a f;
  }
  Keeps-of_NodesStep s t (wrote k v own a b c) = record {
    nodes_kept = λ n h. rw a (has-put s.nodes k n v h);
    nonces_kept = λ k h. rw b h;
    key_kept = c;
    filing_kept = λ f. rw a (IsFiled-put s.nodes k v (own f).0 (own f).1 f);
  }

  touch-NodesStep :
      (time : F) (node_id : String) (wattage : Option F) (source : Option String)
      (s : Coordinator F)
      → NodesStep s (touch time node_id wattage source s)
  unfolding touch
  touch-NodesStep time node_id wattage source s = elim (Option-cases (get s.nodes node_id)) [
    | inl e ↦ rw (e, touch) (same refl refl refl)
    | inr (node, e) ↦
        rw (e, touch)
          (wrote node_id (touch_node time wattage source node)
            (λ f. get-IsFiled s.nodes node_id node f e) refl refl refl)
  ]

  pub Keeps-touch :
      (time : F) (node_id : String) (wattage : Option F) (source : Option String)
      (s : Coordinator F)
      → Keeps s (touch time node_id wattage source s)
  Keeps-touch time node_id wattage source s =
      Keeps-of_NodesStep s (touch time node_id wattage source s)
        (touch-NodesStep time node_id wattage source s)

  -- From `touch` on only the tables of jobs change.
  pub Keeps-of_touch :
      (time : F) (node_id : String) (wattage : Option F) (source : Option String)
      (s t : Coordinator F)
      → t.nodes ≡ (touch time node_id wattage source s).nodes
      → t.member_nonces ≡ (touch time node_id wattage source s).member_nonces
      → t.club_verify_key ≡ (touch time node_id wattage source s).club_verify_key
      → Keeps s t
  Keeps-of_touch time node_id wattage source s t a b c =
      Keeps-trans s (touch time node_id wattage source s) t
        (Keeps-touch time node_id wattage source s)
        (Keeps-of_NodesStep (touch time node_id wattage source s) t (same a b c))

  abbrev SameView : Coordinator F → Coordinator F → Type 0
  SameView s t =
      (t.nodes ≡ s.nodes)
      × (t.member_nonces ≡ s.member_nonces)
      × (t.club_verify_key ≡ s.club_verify_key)

  -- A handler that leaves the nodes, or touches one, or touches one and goes on with the jobs.
  Keeps-of_views :
      (time : F) (node_id : String) (wattage : Option F) (source : Option String)
      (s t : Coordinator F)
      → SameView s t ⊎ SameView (touch time node_id wattage source s) t
      → Keeps s t
  Keeps-of_views time node_id wattage source s t (inl v) = Keeps-of_NodesStep s t (same v.0 v.1 v.2)
  Keeps-of_views time node_id wattage source s t (inr v) =
      Keeps-of_touch time node_id wattage source s t v.0 v.1 v.2

  pub Keeps-create_job :
      (w : World F) (body : Fields F) (s : Coordinator F) → Keeps s (create_job w body s).0
  unfolding create_job enqueue
  Keeps-create_job w body s =
      Keeps-of_NodesStep s (create_job w body s).0
        (same (ground arith) (ground arith) (ground arith))

  pub Keeps-pull :
      (w : World F) (header_id : Option String) (query : Dict String String) (s : Coordinator F)
      → Keeps s (pull w header_id query s).0
  unfolding pull pull_jobs
  Keeps-pull w header_id query s =
      Keeps-of_views w.time (named query) none none s (pull w header_id query s).0 (ground arith)

module _ {F : Type 0} ⦃rt : Runtime F⦄ (w : World F) (s : Coordinator F) where
  pub Keeps-result :
      (header_id : Option String) (body : Fields F) → Keeps s (result w header_id body s).0
  unfolding result post_result
  Keeps-result header_id body =
      Keeps-of_views w.time (poster header_id) none none s (result w header_id body s).0
        (ground arith)

  -- The node, the watts and the label of a heartbeat.
  abbrev beaten : Fields F → String
  beaten body = elim (as_str (get_field body "node_id")) [ none ↦ "" | some n ↦ n ]

  abbrev beaten_watts : Fields F → Option F
  beaten_watts body = float_or (get_field body "wattage") rt.zero

  abbrev beaten_source : Fields F → Option String
  beaten_source body = elim (declared_source body) [ absent ↦ none | label v ↦ some v | bad ↦ none ]

  pub Keeps-heartbeat :
      (header_id : Option String) (body : Fields F) → Keeps s (heartbeat w header_id body s).0
  unfolding heartbeat
  Keeps-heartbeat header_id body =
      Keeps-of_views w.time (beaten body) (beaten_watts body) (beaten_source body) s
        (heartbeat w header_id body s).0 (ground arith)

  registered_node-node_id :
      (node_id hood source : String) (body : Fields F) (node : Node F)
      → registered_node w.time node_id hood source body ≡ some node
      → node.node_id ≡ node_id
  unfolding registered_node
  registered_node-node_id node_id hood source body node e = ground (arith, e)

  filed-NodesStep :
      (node_id hood source : String) (body : Fields F)
      → nonempty node_id ≡ true
      → NodesStep s (file_node w.time node_id hood source body s).0
  filed-NodesStep node_id hood source body named =
      elim (Option-cases (registered_node w.time node_id hood source body)) [
        | inl e ↦ rw (e, file_node) (same refl refl refl)
        | inr (node, e) ↦
            rw (e, file_node)
              (wrote node_id node
                (λ f. (registered_node-node_id node_id hood source body node e, named)) refl refl
                refl)
      ]

  Keeps-file_node :
      (node_id hood source : String) (body : Fields F)
      → nonempty node_id ≡ true
      → Keeps s (file_node w.time node_id hood source body s).0
  Keeps-file_node node_id hood source body named =
      Keeps-of_NodesStep s (file_node w.time node_id hood source body s).0
        (filed-NodesStep node_id hood source body named)

  Keeps-declared :
      (node_id hood : String) (body : Fields F)
      → nonempty node_id ≡ true
      → Keeps s (file_declared w node_id hood body s).0
  Keeps-declared node_id hood body named = elim (Declared-cases (declared_source body)) [
    | inl e ↦ rw (e, file_declared) (Keeps-file_node node_id hood "claimed" body named)
    | inr (inl (source, e)) ↦ rw (e, file_declared) (Keeps-file_node node_id hood source body named)
    | inr (inr e) ↦ rw (e, file_declared) (Keeps-refl s)
  ]

  pub Keeps-register : (body : Fields F) → Keeps s (register w body s).0
  unfolding register
  Keeps-register body = elim (Option-cases (as_str (get_field body "node_id"))) [
    | inl e ↦ rw (e, register) (Keeps-refl s)
    | inr (node_id, e) ↦
        elim (Bool-cases (
          not (nonempty node_id)
          || not (truthy (get_field body "pubkey"))
          || not (truthy (get_field body "verify_key")))) [
            | inl missing ↦ rw (e, register) (rw missing (Keeps-refl s))
            | inr given ↦ elim (Option-cases (declared_neighborhood body)) [
              | inl e2 ↦ rw (e, register) (rw given (rw (e2, register) (Keeps-refl s)))
              | inr (hood, e2) ↦
                  rw (e, register)
                    (rw given (
                      rw (e2, register) (Keeps-declared node_id hood body (ground (arith, given)))))
            ]
          ]
  ]
