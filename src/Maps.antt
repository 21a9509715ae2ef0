-- ===== src/Maps.antt =====
-- Go maps with string keys, as association lists with one entry for a key. The order in which Go
-- lists a map is unspecified; where the program lists one, it sorts or only counts.
use miniziti_operator.Prelude.{
  String, ◌≡◌, Option, none, some, List, [], ◌∷◌, arith, refl, ◌==◌, eq_iff, if◌then◌else◌,
}

module _ {ℓ} {Value : Type ℓ} where
  unfoldable pub keys : List (String × Value) → List String
  keys [] = []
  keys ((name, value) ∷ entries) = name ∷ keys entries

  -- delete(entries, key)
  unfoldable pub delete : String → List (String × Value) → List (String × Value)
  delete key [] = []
  delete key ((name, value) ∷ entries) =
      let kept = delete key entries in if name == key then kept else (name, value) ∷ kept

  -- value, ok := entries[key]
  unfoldable pub lookup : String → List (String × Value) → Option Value
  lookup key [] = none
  lookup key ((name, value) ∷ entries) =
      let further = lookup key entries in if name == key then some value else further

  -- entries[key], with the zero value where the key is missing
  abbrev pub get_or : Value → String → List (String × Value) → Value
  get_or zero key entries = elim (lookup key entries) [ none ↦ zero | some value ↦ value ]

  -- entries[key] = new
  unfoldable pub insert : String → Value → List (String × Value) → List (String × Value)
  insert key new [] = (key, new) ∷ []
  insert key new ((name, value) ∷ entries) =
      let further = insert key new entries in
      if name == key then (name, new) ∷ entries else (name, value) ∷ further

  -- A map in which every key is missing is empty.
  pub empty_of_lookup :
      (entries : List (String × Value))
      → ((key : String) → lookup key entries ≡ none)
      → entries ≡ []
  unfolding lookup
  empty_of_lookup [] h = refl
  empty_of_lookup ((name, value) ∷ entries) h = ground (arith, h name, eq_iff name name)

  pub lookup-delete :
      (key other : String) (entries : List (String × Value))
      → lookup other (delete key entries) ≡ (if key == other then none else lookup other entries)
  unfolding lookup delete
  lookup-delete key other [] = ground arith
  lookup-delete key other ((name, value) ∷ entries) =
      ground (
        arith,
        lookup-delete key other entries,
        eq_iff name other,
        eq_iff name key,
        eq_iff key other,
      )

  pub lookup-insert :
      (key other : String) (new : Value) (entries : List (String × Value))
      → lookup other (insert key new entries)
        ≡ (if key == other then some new else lookup other entries)
  unfolding lookup insert
  lookup-insert key other new [] = refl
  lookup-insert key other new ((name, value) ∷ entries) = ground (
    arith,
    lookup-insert key other new entries,
    eq_iff name other,
    eq_iff name key,
    eq_iff key other,
  )
