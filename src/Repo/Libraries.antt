-- ===== src/Repo/Libraries.antt =====
-- What server/repo.go calls of indigo and go-cid: the Merkle search tree, the data model and the
-- record keys; and the clock of the identifiers.
use vow.Prelude.{ℕ, ◌≡◌, String, str_eq, Bool, Option, some, if◌then◌else◌, Bytes}
use vow.Repo.Cache.{Cid}

-- atp.Operation
pub record Operation : Type 0 where
  pub path : String
  pub prev : Option Cid
  pub value : Option Cid

-- What IsCreate, IsUpdate and IsDelete tell of an operation, with the value or the previous CID.
pub data OpAction : Type 0 where
  is_create is_update is_delete : Cid → OpAction
  no_action : OpAction

pub record Libraries : Type 1 where
  -- mst.Tree: Get, where an error is no record, and atp.ApplyOp, which removes where it is given nil
  pub Tree : Type 0
  pub get : Tree → String → Option Cid
  pub apply_op : Tree → String → Option Cid → Option (Operation × Tree)
  pub action : Operation → OpAction
  -- json.Marshal and then atdata.UnmarshalJSON; the text under "$type", where there is one
  pub Json : Type 0
  pub Map : Type 0
  pub to_map : Json → Option Map
  pub type_text : Map → Option String
  pub set_type : Map → String → Map
  pub marshal_cbor : Map → Option Bytes
  -- the CID of a block, its text, and the identifiers that the clock hands out
  pub sum : Bytes → Cid
  pub cid_string : Cid → String
  pub tid : ℕ → String
  pub is_record_key : String → Bool
  -- whether the block store takes a block
  pub takes : Cid → Bool

-- The tree is a map from paths to CIDs, and an operation says what it changed.
pub record IsMap (lib : Libraries) : Type 0 where
  pub path :
      (t : lib.Tree) (p : String) (v : Option Cid) (x : Operation × lib.Tree)
      → lib.apply_op t p v ≡ some x
      → x.0.path ≡ p
  pub value :
      (t : lib.Tree) (p : String) (v : Option Cid) (x : Operation × lib.Tree)
      → lib.apply_op t p v ≡ some x
      → x.0.value ≡ v
  pub prev :
      (t : lib.Tree) (p : String) (v : Option Cid) (x : Operation × lib.Tree)
      → lib.apply_op t p v ≡ some x
      → x.0.prev ≡ lib.get t p
  pub get :
      (t : lib.Tree) (p q : String) (v : Option Cid) (x : Operation × lib.Tree)
      → lib.apply_op t p v ≡ some x
      → lib.get x.1 q ≡ (if str_eq q p then v else lib.get t q)
