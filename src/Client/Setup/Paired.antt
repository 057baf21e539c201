-- ===== src/Client/Setup/Paired.antt =====
-- What a client of pygrid/client.py that was constructed holds.
use mathlib.Core.Option
use nycc_grid.Base.{
  nat_beq, Bool-cases, Option-cases, is_some, length, String, ◌≡◌, refl, ◌⊎◌, inl, inr, Bool, true,
  false, Option, none, some, List, [], ◌∷◌, arith,
}
use nycc_grid.Json.{Json, Fields, get_field, as_obj, nonempty, str, obj, end, field}
use nycc_grid.Runtime.{Platform, Runtime, truthy}
use nycc_grid.Crypto.{key_bytes, b64e, b64d, canonical_json}
use nycc_grid.Client.Setup.{
  GridClient, Files, given, or_given, checked_sign_key, checked_card, load_card, stripped,
  sign_field, keyfile_key, load_member_sign_key, card_at, header_of_card, is_paired, new_client,
}

-- A base64 text of KEY_BYTES bytes.
abbrev pub is_sign_key : ⦃pl : Platform⦄ → String → Bool
is_sign_key ⦃pl⦄ key = elim (b64d key) [ none ↦ false | some raw ↦ nat_beq (length raw) key_bytes ]

checked_sign_key-exact :
    ⦃pl : Platform⦄ (value key : String)
    → checked_sign_key value ≡ some key
    → (is_sign_key key ≡ true) × (value ≡ key)
unfolding checked_sign_key
checked_sign_key-exact ⦃pl⦄ value key h = ground (arith, Option-cases (b64d value))

given-nonempty : (o : Option String) (v : String) → given o ≡ some v → nonempty v ≡ true
given-nonempty none v h = absurd (ground (arith, h))
given-nonempty (some s) v h = ground (arith, h)

checked-text :
    ⦃pl : Platform⦄ (v key : String)
    → nonempty v ≡ true
    → Option.map some (checked_sign_key v) ≡ some (some key)
    → (nonempty key ≡ true) × (is_sign_key key ≡ true)
checked-text ⦃pl⦄ v key n h = elim (Option-cases (checked_sign_key v)) [
  | inl e ↦ absurd (ground (arith, e, h))
  | inr (w, e) ↦ ground (arith, n, h, e, checked_sign_key-exact v w e)
]

module _ {F : Type 0} ⦃pl : Platform⦄ ⦃rt : Runtime F⦄ where
  -- A document with a card and a signature, its header, and a member key of KEY_BYTES bytes.
  pub record Carded (c : GridClient F) : Type 0 where
    pub doc : Fields F
    pub key : String
    pub holds_card : c.card_doc ≡ some doc
    pub has_card : is_some (as_obj (get_field doc "card")) ≡ true
    pub signed : truthy (get_field doc "sig") ≡ true
    pub header : c.card_header ≡ some (b64e (canonical_json (obj doc)))
    pub holds_key : c.member_sign_b64 ≡ some key
    pub exact : is_sign_key key ≡ true

  -- No card and no member key.
  pub record Plain (c : GridClient F) : Type 0 where
    pub no_card : c.card_doc ≡ none
    pub no_header : c.card_header ≡ none
    pub no_key : c.member_sign_b64 ≡ none

  stripped-nonempty : (j : Json F) (v : String) → stripped j ≡ some v → nonempty v ≡ true
  stripped-nonempty (str s) v h = given-nonempty (some (pl.strip s)) v h
  stripped-nonempty j v h = ground (arith, h)

  sign_field-nonempty :
      (keys : Fields F) (names : List String) (v : String)
      → sign_field keys names ≡ some v
      → nonempty v ≡ true
  unfolding sign_field
  sign_field-nonempty keys [] v h = absurd (ground (arith, h))
  sign_field-nonempty keys (name ∷ names) v h =
      elim (Option-cases (stripped (get_field keys name))) [
        | inl e ↦ sign_field-nonempty keys names v (ground (arith, e, h))
        | inr (s, e) ↦ ground (arith, e, h, stripped-nonempty (get_field keys name) s e)
      ]

  keyfile_key-nonempty :
      (files : Files F) (path v : String) → keyfile_key files path ≡ some v → nonempty v ≡ true
  unfolding keyfile_key
  keyfile_key-nonempty files path v h = elim (Option-cases (files.read_json path)) [
    | inl e ↦ absurd (ground (arith, e, h))
    | inr (doc, e) ↦ elim (Option-cases (as_obj doc)) [
      | inl g ↦ absurd (ground (arith, e, g, h))
      | inr (keys, g) ↦
          sign_field-nonempty keys ("signkey" ∷ "sign_key" ∷ "member_signkey" ∷ []) v
            (ground (arith, e, g, h))
    ]
  ]

  load_member_sign_key-exact :
      (files : Files F) (path : Option String) (key : String)
      → load_member_sign_key files path ≡ some (some key)
      → (nonempty key ≡ true) × (is_sign_key key ≡ true)
  unfolding load_member_sign_key
  load_member_sign_key-exact files path key h =
      let stored = Option.map pl.strip (files.environ "NYCC_MEMBER_SIGNKEY") in
      elim (Option-cases (given path)) [
        | inl e ↦ elim (Option-cases (given stored)) [
          | inl g ↦ absurd (ground (arith, e, g, h))
          | inr (v, g) ↦ checked-text v key (given-nonempty stored v g) (ground (arith, e, g, h))
        ]
        | inr (file, e) ↦ elim (Option-cases (keyfile_key files file)) [
          | inl g ↦ absurd (ground (arith, e, g, h))
          | inr (v, g) ↦
              checked-text v key (keyfile_key-nonempty files file v g) (ground (arith, e, g, h))
        ]
      ]

  checked_card-signed :
      (v : Json F) (doc : Fields F)
      → checked_card v ≡ some doc
      → (is_some (as_obj (get_field doc "card")) ≡ true) × (truthy (get_field doc "sig") ≡ true)
  unfolding checked_card
  checked_card-signed v doc h = ground arith

  card_at-signed :
      (files : Files F) (path : Option String) (doc : Fields F)
      → card_at files path ≡ some (some doc)
      → (is_some (as_obj (get_field doc "card")) ≡ true) × (truthy (get_field doc "sig") ≡ true)
  unfolding load_card
  card_at-signed files none doc h = absurd (ground (arith, h))
  card_at-signed files (some path) doc h = elim (Option-cases (files.read_json path)) [
    | inl e ↦ absurd (ground (arith, e, h))
    | inr (v, e) ↦ checked_card-signed v doc (ground (arith, e, h))
  ]

  truthy-signed : (doc : Fields F) → truthy (get_field doc "sig") ≡ true → truthy (obj doc) ≡ true
  truthy-signed end h = absurd (ground (arith, h))
  truthy-signed (field k v d) h = refl

  new_client-parts :
      (files : Files F) (url : String) (timeout : F) (card_path member_keys_path : Option String)
      (c : GridClient F)
      → new_client files url timeout card_path member_keys_path ≡ some c
      → (card_at files (or_given card_path (files.environ "NYCC_CARD")) ≡ some c.card_doc)
        × (load_member_sign_key files member_keys_path ≡ some c.member_sign_b64)
        × (is_paired c.card_doc c.member_sign_b64 ≡ true)
        × (c.card_header ≡ header_of_card c.card_doc)
        × (c.reply_keys ≡ [])
  unfolding new_client
  new_client-parts files url timeout card_path member_keys_path c h =
      elim (Option-cases (card_at files (or_given card_path (files.environ "NYCC_CARD")))) [
        | inl e ↦ absurd (ground (arith, e, h))
        | inr (card, e) ↦ elim (Option-cases (load_member_sign_key files member_keys_path)) [
          | inl g ↦ absurd (ground (arith, e, g, h))
          | inr (key, g) ↦ elim (Bool-cases (is_paired card key)) [
            | inl p ↦ ground (arith, e, g, p, h)
            | inr p ↦ absurd (ground (arith, e, g, p, h))
          ]
        ]
      ]

  paired_cases :
      (files : Files F) (card_path : Option String) (c : GridClient F) (doc : Option (Fields F))
      (key : Option String)
      → card_at files card_path ≡ some doc
      → ((k : String) → key ≡ some k → (nonempty k ≡ true) × (is_sign_key k ≡ true))
      → is_paired doc key ≡ true
      → c.card_doc ≡ doc
      → c.member_sign_b64 ≡ key
      → c.card_header ≡ header_of_card doc
      → Carded c ⊎ Plain c
  paired_cases files card_path c none none at exact paired dc kc hc =
      inr (record { no_card = dc; no_header = hc; no_key = kc })
  paired_cases files card_path c none (some k) at exact paired dc kc hc =
      absurd (ground (arith, exact k refl, paired))
  paired_cases files card_path c (some doc) none at exact paired dc kc hc =
      absurd (ground (arith, paired))
  paired_cases files card_path c (some doc) (some k) at exact paired dc kc hc =
      let (has_card, signed) = card_at-signed files card_path doc at in
      inl (record {
        doc = doc;
        key = k;
        holds_card = dc;
        has_card = has_card;
        signed = signed;
        header = ground (arith, hc, truthy-signed doc signed);
        holds_key = kc;
        exact = (exact k refl).1;
      })

  -- A client that was constructed either carries a card document with a card and a signature, the
  -- header made of it and a member key of KEY_BYTES bytes, or none of the three; and it has no
  -- reply keys yet.
  pub new_client-paired :
      (files : Files F) (url : String) (timeout : F) (card_path member_keys_path : Option String)
      (c : GridClient F)
      → new_client files url timeout card_path member_keys_path ≡ some c
      → (Carded c ⊎ Plain c) × (c.reply_keys ≡ [])
  new_client-paired files url timeout card_path member_keys_path c h =
      let (at, loaded, paired, header, empty) =
        new_client-parts files url timeout card_path member_keys_path c h in
      (
        paired_cases files (or_given card_path (files.environ "NYCC_CARD")) c c.card_doc
            c.member_sign_b64 at
            (λ k e. load_member_sign_key-exact files member_keys_path k (ground (arith, loaded, e)))
            paired refl refl header,
        empty,
      )
