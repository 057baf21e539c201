-- ===== src/Node/Keys/Again.antt =====
-- A node of pygrid/node.py keeps its keys from start to start.
use nycc_grid.Base.{
  string_eq, Bool-cases, Option-cases, String, ◌≡◌, inl, inr, true, Option, some, arith, eq_iff,
}
use nycc_grid.Base.Dict.{get-put, keys}
use nycc_grid.Json.{Fields, nonempty, obj}
use nycc_grid.Runtime.{Platform, Runtime}
use nycc_grid.Club.Files.{Disk, exists, read_dict}
use nycc_grid.Node.Keys.{
  KeyDraw, key_names, KeyEnv, make_keys, env_keys, has_all, checked_keys, keys_at, load_keys,
}

module _ (F : Type 0) ⦃pl : Platform⦄ ⦃rt : Runtime F⦄ where
  -- The json of the keys that a start may write comes back as it was written.
  abbrev pub ReadsBack : KeyDraw → Option String → Type 0
  ReadsBack draw node_id =
      rt.loads_str (rt.dumps_indented (obj (make_keys {F = F} draw node_id)))
      ≡ some (obj (make_keys draw node_id))

  keys_at-again :
      (path : String) (draw later : KeyDraw) (node_id other_id : Option String) (disk : Disk)
      (loaded : Fields F)
      → ReadsBack draw node_id
      → (keys_at {F = F} path draw node_id disk).1 ≡ some loaded
      → keys_at {F = F} path later other_id (keys_at {F = F} path draw node_id disk).0
        ≡ ((keys_at {F = F} path draw node_id disk).0, some loaded)
  unfolding keys_at read_dict
  keys_at-again path draw later node_id other_id disk loaded law h =
      elim (Bool-cases (exists disk path)) [
        | inl e ↦ ground (arith, e, h)
        | inr e ↦
            let file = pl.abspath path in
            let text = rt.dumps_indented (obj (make_keys {F = F} draw node_id)) in
            ground (arith, e, h, law, eq_iff file file, get-put disk file file text)
      ]

  checked_keys_complete :
      (keys loaded : Fields F) → checked_keys keys ≡ some loaded → has_all key_names loaded ≡ true
  checked_keys_complete keys loaded h = elim (Bool-cases (has_all key_names keys)) [
    | inl e ↦ ground (arith, e, h)
    | inr e ↦ absurd (ground (arith, e, h))
  ]

  keys_at_complete :
      (path : String) (draw : KeyDraw) (node_id : Option String) (disk : Disk) (loaded : Fields F)
      → (keys_at {F = F} path draw node_id disk).1 ≡ some loaded
      → has_all key_names loaded ≡ true
  unfolding keys_at
  keys_at_complete path draw node_id disk loaded h = elim (Bool-cases (exists disk path)) [
    | inl e ↦ elim (Option-cases (read_dict {F = F} path disk)) [
      | inl r ↦ absurd (ground (arith, e, r, h))
      | inr (keys, r) ↦ checked_keys_complete keys loaded (ground (arith, e, r, h))
    ]
    | inr e ↦ checked_keys_complete (make_keys draw node_id) loaded (ground (arith, e, h))
  ]

  -- When a start of the node has got its keys, the next one with the same environment and keyfile
  -- gets the same keys, whatever it draws and whichever id it asks for, and writes nothing; and
  -- every key has a value.
  pub load_keys-again :
      (env : KeyEnv) (path : Option String) (draw later : KeyDraw)
      (node_id other_id : Option String) (disk : Disk) (loaded : Fields F)
      → ReadsBack draw node_id
      → (load_keys {F = F} env path draw node_id disk).1 ≡ some loaded
      → (load_keys {F = F} env path later other_id (load_keys {F = F} env path draw node_id disk).0
          ≡ ((load_keys {F = F} env path draw node_id disk).0, some loaded))
        × (has_all key_names loaded ≡ true)
  unfolding load_keys
  load_keys-again env path draw later node_id other_id disk loaded law h =
      elim (Bool-cases (has_all key_names (env_keys {F = F} env))) [
        | inl e ↦ (ground (arith, e, h), ground (arith, e, h))
        | inr e ↦ elim (Option-cases path) [
          | inl p ↦ absurd (ground (arith, e, p, h))
          | inr (file, p) ↦ elim (Bool-cases (nonempty file)) [
            | inl n ↦
                let at : (keys_at {F = F} file draw node_id disk).1 ≡ some loaded =
                  ground (arith, e, p, n, h) in
                (
                  ground (
                    arith,
                    e,
                    p,
                    n,
                    keys_at-again file draw later node_id other_id disk loaded law at,
                  ),
                  keys_at_complete file draw node_id disk loaded at,
                )
            | inr n ↦ absurd (ground (arith, e, p, n, h))
          ]
        ]
      ]
