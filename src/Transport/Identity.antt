-- ===== src/Transport/Identity.antt =====
-- crates/transport/src/identity.rs: the long-term key of a node. Ed25519 and the random generator
-- are parameters; the file is the one of the node's key, and its permissions are left out.
pub mod Persistence
mod Tests
use borderless.Base.{
  ℕ, ◌≡◌, Bool, true, false, not, List, [], ◌∷◌, ◌++◌, Option, none, some, ltb, if◌then◌else◌,
  length, take, Result, ok, err, ◌>>=◌, ◌>>◌, fail_if, or_fail,
}
use borderless.Core.Node.{Bytes, Blake3, NodeId, from_pubkey}
use borderless.Transport.Error.{Error}

-- The crate `ed25519_dalek`: keys and signatures as their bytes.
pub record Ed25519 : Type 0 where
  pub verifying_key : Bytes → Bytes
  pub sign : (secret message : Bytes) → Bytes
  pub is_key : (pubkey : Bytes) → Bool
  pub verify : (pubkey message signature : Bytes) → Bool

pub record Identity : Type 0 where
  pub signing : Bytes

pub record KeyFile : Type 0 where
  pub content : Option Bytes
  pub readable : Bool
  pub writable : Bool

-- `SECRET_KEY_LENGTH`
abbrev pub secret_key_length : ℕ
secret_key_length = 32

-- `Identity::load`
unfoldable pub load : KeyFile → Result Error Identity
load file = do
  fail_if (not file.readable) Error.io
  bytes ← or_fail file.content Error.io
  fail_if (ltb (length bytes) secret_key_length) (Error.identity "identity file too short")
  ok (record { signing = take secret_key_length bytes })

module _ (e : Ed25519) where
  unfoldable pub pubkey : Identity → Bytes
  pubkey id = e.verifying_key id.signing

  unfoldable pub node_id : Blake3 → Identity → NodeId
  unfolding pubkey
  node_id b id = from_pubkey b (pubkey id)

  unfoldable pub sign : Identity → Bytes → Bytes
  sign id message = e.sign id.signing message

  -- `Identity::save`: the secret, then the public key.
  unfoldable pub save : Identity → KeyFile → Result Error KeyFile
  save id file = do
    fail_if (not file.writable) Error.io
    ok (record file { content = some (id.signing ++ e.verifying_key id.signing) })

  -- `Identity::load_or_generate`, with the secret that a generation would give.
  unfoldable pub load_or_generate : Bytes → KeyFile → Result Error (Identity × KeyFile)
  unfolding load save
  load_or_generate secret file = elim file.content [
    | some _ ↦ do id ← load file; ok (id, file)
    | none ↦ do
      file ← save (record { signing = secret }) file
      ok (record { signing = secret }, file)
  ]

  unfoldable pub verify_signature : Bytes → Bytes → Bytes → Result Error (Unit {0})
  verify_signature pubkey message sig = do
    fail_if (not (e.is_key pubkey)) (Error.identity "bad pubkey")
    fail_if (not (e.verify pubkey message sig)) (Error.identity "signature")
