-- ===== src/Observability/Laws.antt =====
-- What app/observability/redaction.py makes of the context of a log line.
use content_approval.Common.{
  String, ◌≡◌, refl, sym, ◌∙◌, subst, false, ◌==◌, eq_iff, Bool-cases, inl, inr, Option, none, some,
  Option-cases, List, [], ◌∷◌, any, if◌then◌else◌,
}
use content_approval.Observability.{
  Line, contains, looks_sensitive, redact_mapping, set_item, set_optional, update, format,
}
use content_approval.Observability.Formatter.{value_of, value_of-set_item}

-- The words that a name must not have in it, in the words of the source.
abbrev pub words : List String
words =
    "password" ∷ "secret" ∷ "token" ∷ "authorization" ∷ "api_key" ∷ "apikey" ∷ "email"
    ∷ "storage_key" ∷ "storagekey" ∷ "signed_url" ∷ "signedurl" ∷ "provider_url" ∷ "providerurl"
    ∷ "credential" ∷ []

-- Each key of a dictionary is there once.
abbrev pub IsDict : List (String × String) → Type 0
IsDict [] = Unit
IsDict ((k, v) ∷ rest) = (value_of k rest ≡ none) × IsDict rest

some_is_no_none : {v : String} → some v ≡ none → ⊥
some_is_no_none h = cc

some_same : {v w : String} → some v ≡ some w → v ≡ w
some_same h = cc

set_item-other :
    (key k v : String) (xs : List (String × String))
    → (k == key) ≡ false
    → value_of key (set_item k v xs) ≡ value_of key xs
unfolding set_item
set_item-other key k v [] other = rw other
set_item-other key k v ((j, w) ∷ rest) other = elim (Bool-cases (j == k)) [
  | inl same ↦ rw (same, (eq_iff j k).0 same, other) refl
  | inr apart ↦ rw (apart, set_item-other key k v rest other) refl
]

update-absent :
    (key : String) (xs ys : List (String × String))
    → value_of key ys ≡ none
    → value_of key (update xs ys) ≡ value_of key xs
unfolding update
update-absent key xs [] absent = refl
update-absent key xs ((k, v) ∷ ys) absent = elim (Bool-cases (k == key)) [
  | inl same ↦ absurd (some_is_no_none (rw same at absent))
  | inr other ↦
      update-absent key (set_item k v xs) ys (rw other at absent) ∙ set_item-other key k v xs other
]

update-found :
    (key value : String) (xs ys : List (String × String))
    → IsDict ys
    → value_of key ys ≡ some value
    → value_of key (update xs ys) ≡ some value
unfolding update
update-found key value xs [] dict found = absurd (some_is_no_none (sym found))
update-found key value xs ((k, v) ∷ ys) (once, dict) found = elim (Bool-cases (k == key)) [
  | inl same ↦
      subst (λ (x : String). value_of x (update (set_item k v xs) ys) ≡ some value)
        ((eq_iff k key).0 same)
        (update-absent k (set_item k v xs) ys once ∙ value_of-set_item k v xs ∙ (rw same at found))
  | inr other ↦ update-found key value (set_item k v xs) ys dict (rw other at found)
]

abbrev base : Line → List (String × String)
base line =
    ("timestamp", line.timestamp)
    ∷ ("level", line.level)
    ∷ ("logger", line.logger)
    ∷ ("message", line.message)
    ∷ []

module _ (lower : String → String) where
  -- The value that a line shows for a value of its context.
  abbrev pub shown : String → String → String
  shown key value = if any (contains (lower key)) words then "[REDACTED]" else value

  redact_mapping-absent :
      (key : String) (xs : List (String × String))
      → value_of key xs ≡ none
      → value_of key (redact_mapping lower xs) ≡ none
  unfolding redact_mapping
  redact_mapping-absent key [] absent = refl
  redact_mapping-absent key ((k, v) ∷ xs) absent = elim (Bool-cases (k == key)) [
    | inl same ↦ absurd (some_is_no_none (rw same at absent))
    | inr other ↦ rw other (redact_mapping-absent key xs (rw other at absent))
  ]

  redact_mapping-IsDict :
      (xs : List (String × String)) → IsDict xs → IsDict (redact_mapping lower xs)
  unfolding redact_mapping
  redact_mapping-IsDict [] dict = tt
  redact_mapping-IsDict ((k, v) ∷ xs) (once, dict) =
      (redact_mapping-absent k xs once, redact_mapping-IsDict xs dict)

  redact_mapping-found :
      (key value : String) (xs : List (String × String))
      → value_of key xs ≡ some value
      → value_of key (redact_mapping lower xs) ≡ some (shown key value)
  unfolding redact_mapping looks_sensitive
  redact_mapping-found key value [] found = absurd (some_is_no_none (sym found))
  redact_mapping-found key value ((k, v) ∷ xs) found = elim (Bool-cases (k == key)) [
    | inl same ↦ rw (same, (eq_iff k key).0 same, some_same (rw same at found)) refl
    | inr other ↦ rw other (redact_mapping-found key value xs (rw other at found))
  ]

  -- Whatever the correlation identifier: the payload of a log line has, under a key of the line's
  -- context but "exc_info", the text [REDACTED] where the key in lower case has one of the fourteen
  -- words of the source in it, and otherwise the value of the context. The keys of the context are
  -- distinct.
  pub format-shown :
      (request_id : Option String) (line : Line) (key value : String)
      → IsDict line.context
      → value_of key line.context ≡ some value
      → ("exc_info" == key) ≡ false
      → value_of key (format lower request_id line) ≡ some (shown key value)
  unfolding format
  format-shown request_id line key value dict found apart =
      let inside =
        update-found key (shown key value) (set_optional "request_id" request_id (base line))
          (redact_mapping lower line.context) (redact_mapping-IsDict line.context dict)
          (redact_mapping-found key value line.context found) in
      elim (Option-cases line.exc_info) [
        | inl quiet ↦ rw quiet inside
        | inr (trace, raised) ↦ rw raised (set_item-other key "exc_info" trace _ apart ∙ inside)
      ]
