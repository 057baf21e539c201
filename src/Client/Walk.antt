-- ===== src/Client/Walk.antt =====
-- The walk of `GridClient.nodes` in pygrid/client.py over the pages that the coordinator of
-- pygrid/testkit.py serves.
use nycc_grid.Base.{
  Option-cases, length, take, drop, mul_suc, map-append, take-drop, take_short, length-drop, ℕ,
  zero, suc, ◌*◌, ◌≤◌, ◌<◌, String, ◌≡◌, refl, sym, ap, ◌∙◌, inl, inr, true, Option, some, List, [],
  ◌++◌, map, arith,
}
use nycc_grid.Base.Int.{pos}
use nycc_grid.Json.{Fields, get_field, nonempty, str}
use nycc_grid.Runtime.{Platform, Runtime}
use nycc_grid.Coordinator.State.{Node, Coordinator, World}
use nycc_grid.Coordinator.Filed.{IsFiled}
use nycc_grid.Coordinator.Listing.{ordered_after, next_cursor, views}
use nycc_grid.Coordinator.Listing.Walk.{ordered_after-next_cursor, next_cursor-has}
use nycc_grid.Client.{records, node_pages}
use nycc_grid.Client.Pages.{
  cursor_json, ids, no_cursor, later_page, records-views, ReadsPages, fetch_from, page_doc,
  page_of_arr, nodes_of_page, cursor_of_page, served_page, one_round, round_of, IsPage,
  later_IsPage, no_ids, Walked,
}

module _ {F : Type 0} ⦃pl : Platform⦄ ⦃rt : Runtime F⦄ (w : ℕ → World F) (s : Coordinator F)
    (limit : ℕ) where
  the_round :
      (rounds k : ℕ) (path : String) (cursor : Option String)
      → 0 < limit
      → limit ≤ 200
      → ReadsPages limit s
      → IsPage limit s path cursor
      → node_pages (fetch_from w s) (suc rounds) k (pos limit) (cursor_json cursor)
        ≡ one_round
            (fetch_from w s)
            rounds
            k
            (pos limit)
            (records (views (w k).time (take limit (ordered_after cursor s.nodes))))
            (cursor_json (next_cursor limit (ordered_after cursor s.nodes)))
  the_round rounds k path cursor low high r (at_path, at_nodes, has_limit, has_cursor) =
      let ns = ordered_after cursor s.nodes in
      let doc = page_doc (w k).time limit ns in
      let page = records (views (w k).time (take limit ns)) in
      round_of (fetch_from w s) rounds k (pos limit) (cursor_json cursor) path doc page at_path
        (served_page w s k limit path cursor low high r.limit_text at_nodes has_limit has_cursor)
        (page_of_arr doc (views (w k).time (take limit ns)) (nodes_of_page (w k).time limit ns))
      ∙ ap (one_round (fetch_from w s) rounds k (pos limit) page)
          (cursor_of_page (w k).time limit ns)

  round_on :
      (rounds k : ℕ) (c : String) (page more : List (Fields F))
      → nonempty c ≡ true
      → node_pages (fetch_from w s) rounds (suc k) (pos limit) (str c) ≡ some more
      → one_round (fetch_from w s) rounds k (pos limit) page (str c) ≡ some (page ++ more)
  round_on rounds k c page more full got = rw (full, got) refl

  ids_of_both :
      (now : F) (ns : List (Node F)) (more : List (Fields F))
      → map (λ d. get_field d "node_id") more ≡ ids (drop limit ns)
      → map (λ d. get_field d "node_id") (records (views now (take limit ns)) ++ more) ≡ ids ns
  ids_of_both now ns more same =
      map-append (λ d. get_field d "node_id") (records (views now (take limit ns))) more
      ∙ ap (λ js. js ++ map (λ d. get_field d "node_id") more) (records-views now (take limit ns))
      ∙ ap (λ js. ids (take limit ns) ++ js) same
      ∙ sym (map-append (λ n. str n.node_id) (take limit ns) (drop limit ns))
      ∙ ap ids (take-drop limit ns)

  pub walk_from :
      (rounds k : ℕ) (path : String) (cursor : Option String)
      → 0 < limit
      → limit ≤ 200
      → ReadsPages limit s
      → IsFiled s.nodes
      → IsPage limit s path cursor
      → length (ordered_after cursor s.nodes) ≤ rounds * limit
      → Walked w s limit rounds k cursor
  unfolding node_pages
  walk_from zero k path cursor low high r f at short =
      ([], refl, no_ids (ordered_after cursor s.nodes) (omega (arith, short)))
  walk_from (suc rounds) k path cursor low high r f at short =
      let ns = ordered_after cursor s.nodes in
      let page = records (views (w k).time (take limit ns)) in
      elim (Option-cases (next_cursor limit ns)) [
        | inl e ↦ (
          page,
          the_round rounds k path cursor low high r at
              ∙ ap (λ c. one_round (fetch_from w s) rounds k (pos limit) page (cursor_json c)) e,
          records-views (w k).time (take limit ns)
              ∙ ap ids (take_short limit ns (no_cursor limit ns low e)),
        )
        | inr (c, e) ↦
            let (known, full) = next_cursor-has limit cursor c s.nodes f e in
            let follow = ordered_after-next_cursor limit cursor c s.nodes f e in
            let less : length (ordered_after (some c) s.nodes) ≤ rounds * limit =
              rw follow (omega (arith, length-drop limit ns, mul_suc rounds limit, short)) in
            let (more, got, same) =
              walk_from rounds (suc k) (later_page limit c) (some c) low high r f
                (later_IsPage limit s c r known full) less in
            (
              page ++ more,
              the_round rounds k path cursor low high r at
                  ∙ ap (λ c. one_round (fetch_from w s) rounds k (pos limit) page (cursor_json c)) e
                  ∙ round_on rounds k c page more full got,
              ids_of_both (w k).time ns more (same ∙ ap ids follow),
            )
      ]
