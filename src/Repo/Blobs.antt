-- ===== src/Repo/Blobs.antt =====
-- server/repo.go: getBlobCidsFromCbor, and the counts of the references to blobs.
use vow.Prelude.{
  ℕ, ◌+◌, ◌≡◌, refl, String, str_eq, Bool, true, false, ◌&&◌, Option, none, some, List, [], ◌∷◌,
  ◌++◌, if◌then◌else◌, Bytes, Result, ok,
}
use vow.Prelude.Results.{◌>>=◌, require}
use vow.Repo.Cache.{Cid, undef}

-- Decoded CBOR. The fields of a map stand in the order in which Go visits them.
mutual
  pub data Value : Type 0 where
    text : String → Value
    link : Cid → Value
    array : Items → Value
    object : Fields → Value
    other : Value

  pub data Items : Type 0 where
    nil : Items
    item : Value → Items → Items

  pub data Fields : Type 0 where
    end : Fields
    field : String → Value → Fields → Fields

pub data BlobError : Type 0 where
  bad_cbor bad_cid : BlobError

-- `val[key]`
unfoldable pub field_of : String → Fields → Option Value
field_of key end = none
field_of key (field k v fs) = if str_eq k key then some v else field_of key fs

abbrev pub is_text : String → Option Value → Bool
is_text s (some (text t)) = str_eq t s
is_text s _ = false

module _ (parse : String → Option Cid) where
  -- `val["ref"]`, undefined where it is no reference.
  abbrev ref_of : Option Value → Result BlobError Cid
  ref_of (some (text t)) = require (parse t) bad_cid
  ref_of (some (link c)) = ok c
  ref_of _ = ok undef

  abbrev defined : Cid → List Cid
  defined c = if str_eq c undef then [] else c ∷ []

  -- The rest of a blob is visited as far as its first field.
  unfoldable mutual
    unfolding field_of

    pub deep_iter : Value → Result BlobError (List Cid)
    deep_iter (object fs) =
        let inner = deep_first fs in
        if is_text "blob" (field_of "$type" fs)
        then (do c ← ref_of (field_of "ref" fs); rest ← inner; ok (defined c ++ rest))
        else ok []
    deep_iter (array vs) = deep_items vs
    deep_iter (text t) = ok []
    deep_iter (link c) = ok []
    deep_iter other = ok []

    pub deep_first : Fields → Result BlobError (List Cid)
    deep_first end = ok []
    deep_first (field k v fs) = deep_iter v

    pub deep_items : Items → Result BlobError (List Cid)
    deep_items nil = ok []
    deep_items (item v vs) = do cs ← deep_iter v; rest ← deep_items vs; ok (cs ++ rest)

  abbrev is_empty : Bytes → Bool
  is_empty [] = true
  is_empty (b ∷ bs) = false

  unfoldable pub get_blob_cids_from_cbor :
      (Bytes → Option Value) → Bytes → Result BlobError (List Cid)
  unfolding deep_iter
  get_blob_cids_from_cbor decode cbor = elim (is_empty cbor) [
    | true ↦ ok []
    | false ↦ (do value ← require (decode cbor) bad_cbor; deep_iter value)
  ]

-- A row of the table of blobs. A count below zero is kept apart from its absolute value.
pub record Blob : Type 0 where
  pub did : String
  pub cid : Cid
  pub increments : ℕ
  pub decrements : ℕ

abbrev is_blob : String → Cid → Blob → Bool
is_blob did c b = str_eq b.did did && str_eq b.cid c

-- UPDATE blobs SET ref_count = ref_count + 1
unfoldable pub increment : String → Cid → List Blob → List Blob
increment did c [] = []
increment did c (b ∷ bs) =
    let rest = increment did c bs in
    (if is_blob did c b then record b { increments = b.increments + 1 } else b) ∷ rest

-- UPDATE ... RETURNING id, ref_count, scanned into a struct whose field is called Count: no column
-- has this name, so the field stays 0, and the row is deleted.
unfoldable pub decrement : String → Cid → List Blob → List Blob
decrement did c [] = []
decrement did c (b ∷ bs) =
    let rest = decrement did c bs in if is_blob did c b then rest else b ∷ rest

unfoldable pub change_all :
    (String → Cid → List Blob → List Blob) → String → List Cid → List Blob → List Blob
change_all f did [] blobs = blobs
change_all f did (c ∷ cs) blobs = change_all f did cs (f did c blobs)

module _ (parse : String → Option Cid) (decode : Bytes → Option Value) (did : String) where
  unfoldable pub increment_blob_refs : Bytes → List Blob → Result BlobError (List Cid × List Blob)
  unfolding get_blob_cids_from_cbor increment change_all
  increment_blob_refs cbor blobs = do
    cids ← get_blob_cids_from_cbor parse decode cbor
    ok (cids, change_all increment did cids blobs)

  unfoldable pub decrement_blob_refs : Bytes → List Blob → Result BlobError (List Cid × List Blob)
  unfolding get_blob_cids_from_cbor decrement change_all
  decrement_blob_refs cbor blobs = do
    cids ← get_blob_cids_from_cbor parse decode cbor
    ok (cids, change_all decrement did cids blobs)

  -- A record is a map whose "$type" is its collection, not "blob": in such a map, whatever blobs it
  -- holds, none is found, and neither its creation nor its deletion changes a count.
  pub blob_refs-record :
      (cbor : Bytes) (fs : Fields) (blobs : List Blob)
      → decode cbor ≡ some (object fs)
      → is_text "blob" (field_of "$type" fs) ≡ false
      → (increment_blob_refs cbor blobs ≡ ok ([], blobs))
        × (decrement_blob_refs cbor blobs ≡ ok ([], blobs))
  unfolding increment_blob_refs decrement_blob_refs deep_iter
  blob_refs-record [] fs blobs e h = (refl, refl)
  blob_refs-record (b ∷ bs) fs blobs e h = (rw (e, h) refl, rw (e, h) refl)
