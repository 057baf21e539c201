-- ===== src/Client/Pages.antt =====
-- The pages that the coordinator of pygrid/testkit.py serves to the walk of `GridClient.nodes` in
-- pygrid/client.py, and one round of that walk.
use mathlib.Core.Option
use nycc_grid.Base.{
  leb, if◌then◌else◌, Option-cases, length, take, ℕ, zero, suc, ◌≤◌, ◌<◌, String, ◌≡◌, refl, ap,
  ◌∙◌, inl, inr, true, not, Option, none, some, List, [], ◌∷◌, ◌++◌, map, arith, string_eq, pair_eq,
  nat_eq,
}
use nycc_grid.Json.{Json, Items, Fields, get_field, fields, nonempty, null, str, arr, nil, cons}
use nycc_grid.Crypto.{◌+++◌}
use nycc_grid.Runtime.{Platform, Runtime, truthy}
use nycc_grid.Coordinator.State.{Node, Coordinator, Reply, World, node_view, send, crash}
use nycc_grid.Coordinator.Listing.{
  page_limit, requested_limit, ordered_after, last_id, next_cursor, views, list_nodes,
}
use nycc_grid.Client.{page_path, records, page_of, node_pages}
use nycc_grid.Coordinator.Routes.{do_get}
use nycc_grid.Base.Int.{ℤ, pos}
use nycc_grid.Base.Dict.{Dict, get, has}

-- A cursor that `quote` takes.
abbrev pub cursor_json : {F : Type 0} → Option String → Json F
cursor_json none = null
cursor_json (some c) = str c

module _ {F : Type 0} where
  abbrev pub ids : List (Node F) → List (Json F)
  ids = map (λ n. str n.node_id)

  last_id-some :
      (limit : ℕ) (n : Node F) (ns : List (Node F))
      → (c : String) × (last_id (take (suc limit) (n ∷ ns)) ≡ some c)
  last_id-some zero n ns = (n.node_id, refl)
  last_id-some (suc l) n [] = (n.node_id, refl)
  last_id-some (suc l) n (m ∷ ns) = last_id-some l m ns

  -- A page without a cursor is the rest of the list.
  pub no_cursor :
      (limit : ℕ) (ns : List (Node F)) → 0 < limit → next_cursor limit ns ≡ none → length ns ≤ limit
  unfolding next_cursor
  no_cursor zero ns h e = absurd (omega arith)
  no_cursor (suc l) [] h e = omega arith
  no_cursor (suc l) (n ∷ ns) h e = let (c, found) = last_id-some l n ns in ground (arith, e, found)

limit_kept : (limit : ℕ) → 0 < limit → limit ≤ 200 → page_limit (pos limit) ≡ limit
unfolding page_limit
limit_kept limit low high = ground (arith, low, high)

module _ ⦃pl : Platform⦄ where
  abbrev pub first_page : ℕ → String
  first_page limit = "/v1/nodes?limit=" +++ pl.str_of_int (pos limit)

  abbrev pub later_page : ℕ → String → String
  later_page limit c = first_page limit +++ "&cursor=" +++ pl.quote c

  requested :
      (limit : ℕ) (query : Dict String String)
      → pl.int_of_str (pl.str_of_int (pos limit)) ≡ some (pos limit)
      → get query "limit" ≡ some (pl.str_of_int (pos limit))
      → requested_limit query ≡ pos limit
  unfolding requested_limit
  requested limit query text h = ground (arith, text, h)

module _ {F : Type 0} ⦃pl : Platform⦄ ⦃rt : Runtime F⦄ where
  pub records-views :
      (now : F) (ns : List (Node F))
      → map (λ d. get_field d "node_id") (records (views now ns)) ≡ ids ns
  unfolding records node_view
  records-views now [] = refl
  records-views now (n ∷ ns) = ap (λ ys. str n.node_id ∷ ys) (records-views now ns)

  -- How the paths of the walk are read on the other side: what urllib documents of a query that
  -- was written with `quote`, at the cursors that are ids of stored nodes.
  pub record ReadsPages (limit : ℕ) (s : Coordinator F) : Type 0 where
    pub limit_text : pl.int_of_str (pl.str_of_int (pos limit)) ≡ some (pos limit)
    pub first_path : pl.url_path (first_page limit) ≡ "/v1/nodes"
    pub first_query :
        pl.parse_query (pl.url_query (first_page limit)) ≡ ("limit", pl.str_of_int (pos limit)) ∷ []
    pub later_path :
        (c : String) → has s.nodes c ≡ true → pl.url_path (later_page limit c) ≡ "/v1/nodes"
    pub later_query :
        (c : String)
        → has s.nodes c ≡ true
        → pl.parse_query (pl.url_query (later_page limit c))
          ≡ ("limit", pl.str_of_int (pos limit)) ∷ ("cursor", c) ∷ []

  -- `_call` on an answer: an error status raises.
  abbrev pub served : Reply F → Option (Fields F)
  served (send status d) = if leb 400 status then none else some d
  served crash = none

  -- The k-th call of a walk, answered by the coordinator in the k-th world.
  abbrev pub fetch_from : (ℕ → World F) → Coordinator F → ℕ → String → Option (Fields F)
  fetch_from w s k path =
      served (do_get (w k) (record { target = path; headers = []; stream = [] }) s).1

  -- The document of a page.
  abbrev pub page_doc : F → ℕ → List (Node F) → Fields F
  page_doc now limit ns = elim (next_cursor limit ns) [
    | none ↦ fields (("nodes", arr (views now (take limit ns))) ∷ [])
    | some c ↦ fields (("nodes", arr (views now (take limit ns))) ∷ ("cursor", str c) ∷ [])
  ]

  pub page_of_arr :
      (doc : Fields F) (xs : Items F)
      → get_field doc "nodes" ≡ arr xs
      → page_of doc ≡ some (records xs)
  unfolding page_of records
  page_of_arr doc nil h = rw h refl
  page_of_arr doc (cons x xs) h = rw h refl

  pub nodes_of_page :
      (now : F) (limit : ℕ) (ns : List (Node F))
      → get_field (page_doc now limit ns) "nodes" ≡ arr (views now (take limit ns))
  nodes_of_page now limit ns = elim (Option-cases (next_cursor limit ns)) [
    | inl e ↦ ground (arith, e)
    | inr (c, e) ↦ ground (arith, e)
  ]

  pub cursor_of_page :
      (now : F) (limit : ℕ) (ns : List (Node F))
      → get_field (page_doc now limit ns) "cursor" ≡ cursor_json (next_cursor limit ns)
  cursor_of_page now limit ns = elim (Option-cases (next_cursor limit ns)) [
    | inl e ↦ ground (arith, e)
    | inr (c, e) ↦ ground (arith, e)
  ]

  do_get_nodes :
      (w : World F) (s : Coordinator F) (path : String)
      → pl.url_path path ≡ "/v1/nodes"
      → (do_get w (record { target = path; headers = []; stream = [] }) s).1
        ≡ list_nodes w.time (pl.parse_query (pl.url_query path)) s
  unfolding do_get
  do_get_nodes w s path h = rw h refl

  served_list :
      (now : F) (s : Coordinator F) (query : Dict String String)
      → served (list_nodes now query s)
        ≡ some (
            page_doc now
              (page_limit (requested_limit query))
              (ordered_after (get query "cursor") s.nodes))
  unfolding list_nodes
  served_list now s query =
      elim (Option-cases (
        next_cursor (page_limit (requested_limit query))
          (ordered_after (get query "cursor") s.nodes))) [
            | inl e ↦ ground (arith, e)
            | inr (c, e) ↦ ground (arith, e)
          ]

  pub served_page :
      (w : ℕ → World F) (s : Coordinator F) (k limit : ℕ) (path : String) (cursor : Option String)
      → 0 < limit
      → limit ≤ 200
      → pl.int_of_str (pl.str_of_int (pos limit)) ≡ some (pos limit)
      → pl.url_path path ≡ "/v1/nodes"
      → get (pl.parse_query (pl.url_query path)) "limit" ≡ some (pl.str_of_int (pos limit))
      → get (pl.parse_query (pl.url_query path)) "cursor" ≡ cursor
      → fetch_from w s k path ≡ some (page_doc (w k).time limit (ordered_after cursor s.nodes))
  served_page w s k limit path cursor low high text at_nodes has_limit has_cursor =
      let query = pl.parse_query (pl.url_query path) in
      ap served (do_get_nodes (w k) s path at_nodes)
      ∙ served_list (w k).time s query
      ∙ ap (λ l. some (page_doc (w k).time l (ordered_after (get query "cursor") s.nodes)))
          (ap page_limit (requested limit query text has_limit) ∙ limit_kept limit low high)
      ∙ ap (λ c. some (page_doc (w k).time limit (ordered_after c s.nodes))) has_cursor

  -- One round of the walk.
  abbrev pub one_round :
      (ℕ → String → Option (Fields F))
      → ℕ
      → ℕ
      → ℤ
      → List (Fields F)
      → Json F
      → Option (List (Fields F))
  one_round fetch rounds k limit page cursor =
      if not (truthy cursor)
      then some page
      else Option.map (λ more. page ++ more) (node_pages fetch rounds (suc k) limit cursor)

  pub round_of :
      (fetch : ℕ → String → Option (Fields F)) (rounds k : ℕ) (limit : ℤ) (cursor : Json F)
      (path : String) (doc : Fields F) (page : List (Fields F))
      → page_path limit cursor ≡ some path
      → fetch k path ≡ some doc
      → page_of doc ≡ some page
      → node_pages fetch (suc rounds) k limit cursor
        ≡ one_round fetch rounds k limit page (get_field doc "cursor")
  unfolding node_pages
  round_of fetch rounds k limit cursor path doc page a b c = rw (a, b, c) refl

  abbrev pub IsPage : ℕ → Coordinator F → String → Option String → Type 0
  IsPage limit s path cursor =
      (page_path (pos limit) (cursor_json {F = F} cursor) ≡ some path)
      × (pl.url_path path ≡ "/v1/nodes")
      × (get (pl.parse_query (pl.url_query path)) "limit" ≡ some (pl.str_of_int (pos limit)))
      × (get (pl.parse_query (pl.url_query path)) "cursor" ≡ cursor)

  pub first_IsPage :
      (limit : ℕ) (s : Coordinator F) → ReadsPages limit s → IsPage limit s (first_page limit) none
  unfolding page_path get
  first_IsPage limit s r = (refl, r.first_path, rw r.first_query refl, rw r.first_query refl)

  pub later_IsPage :
      (limit : ℕ) (s : Coordinator F) (c : String)
      → ReadsPages limit s
      → has s.nodes c ≡ true
      → nonempty c ≡ true
      → IsPage limit s (later_page limit c) (some c)
  unfolding page_path get
  later_IsPage limit s c r h full = (
    ground (arith, full),
    r.later_path c h,
    rw (r.later_query c h) refl,
    rw (r.later_query c h) refl,
  )

  pub no_ids : (ns : List (Node F)) → length ns ≤ 0 → [] ≡ ids ns
  no_ids [] h = refl
  no_ids (n ∷ ns) h = absurd (omega arith)

  abbrev pub Walked : (ℕ → World F) → Coordinator F → ℕ → ℕ → ℕ → Option String → Type 0
  Walked w s limit rounds k cursor =
      (listed : List (Fields F)) × (node_pages (fetch_from w s) rounds k (pos limit)
          (cursor_json cursor)
        ≡ some listed)
      × (map (λ d. get_field d "node_id") listed ≡ ids (ordered_after cursor s.nodes))
