-- ===== src/Graph/Nodes/Lookup.antt =====
-- `docs_by_id` of graph/nodes.py: the documents of a package under their ids.
use kyc_agent_nordvik.Prelude.{
  ◌≡◌, refl, String, Bool, true, ◌||◌, Option, none, some, List, [], ◌∷◌, any, get, put, get-put,
  AllEntries, AllEntries-put, get-AllEntries, is_some, All, All-map_of, arith, ◌==◌, eq_refl,
}
use kyc_agent_nordvik.Schemas.Documents.{InputDocument}
use kyc_agent_nordvik.Graph.Nodes.Base.{docs_by_id, index_from}

-- A document has this id.
abbrev pub knows : List InputDocument → String → Bool
knows documents id = any (λ d. d.document_id == id) documents

pub knows-documents :
    (documents : List InputDocument) → All (λ d. knows documents d.document_id ≡ true) documents
knows-documents [] = tt
knows-documents (d ∷ documents) = (
  ground (arith, eq_refl d.document_id),
  All-map_of _ _ documents (λ x h. ground (arith, h)) (knows-documents documents),
)

get-index_from :
    (id : String) (documents : List InputDocument) (dict : List (String × InputDocument))
    → (knows documents id || is_some (get id dict)) ≡ true
    → is_some (get id (index_from dict documents)) ≡ true
unfolding index_from
get-index_from id [] dict h = h
get-index_from id (d ∷ documents) dict h =
    get-index_from id documents (put d.document_id d dict)
      (ground (arith, h, get-put d.document_id id d dict))

is_some-value : {A : Type 0} (o : Option A) → is_some o ≡ true → (a : A) × (o ≡ some a)
is_some-value none h = cc
is_some-value (some a) h = (a, refl)

pub get-docs_by_id :
    (id : String) (documents : List InputDocument)
    → knows documents id ≡ true
    → (d : InputDocument) × (get id (docs_by_id documents) ≡ some d)
unfolding docs_by_id
get-docs_by_id id documents h =
    is_some-value (get id (index_from [] documents))
      (get-index_from id documents [] (ground (arith, h)))

module _ (P : InputDocument → Type 0) where
  abbrev Entry : String → InputDocument → Type 0
  Entry id d = P d × (d.document_id ≡ id)

  entries :
      (documents : List InputDocument) (dict : List (String × InputDocument))
      → All P documents
      → AllEntries Entry dict
      → AllEntries Entry (index_from dict documents)
  unfolding index_from
  entries [] dict h k = k
  entries (d ∷ documents) dict h k =
      entries documents (put d.document_id d dict) h.1
        (AllEntries-put Entry d.document_id d dict (h.0, refl) k)

  -- A document that is found has the id that it is found under, and what holds of all documents
  -- holds of it.
  pub found-docs_by_id :
      (documents : List InputDocument) (id : String) (d : InputDocument)
      → All P documents
      → get id (docs_by_id documents) ≡ some d
      → P d × (d.document_id ≡ id)
  unfolding docs_by_id
  found-docs_by_id documents id d h e =
      get-AllEntries Entry id d (index_from [] documents) e (entries documents [] h tt)
