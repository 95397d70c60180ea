-- ===== src/Transport/Identity/Tests.antt =====
-- An identity in a concrete file.
use borderless.Base.{◌≡◌, refl, true, [], ◌∷◌, ◌++◌, none, some, replicate, ok, err}
use borderless.Core.Node.{Bytes}
use borderless.Transport.Error.{Error}
use borderless.Transport.Identity.{Ed25519, KeyFile, load, load_or_generate}
use borderless.Transport.Identity.Persistence.{Origin, load_or_generate_again}

-- Keys that are their own public keys, and signatures of 64 zeros.
abbrev pub toy : Ed25519
toy = record {
  verifying_key = λ secret. secret;
  sign = λ secret message. replicate 64 0;
  is_key = λ key. true;
  verify = λ key message signature. true;
}

abbrev missing : KeyFile
missing = record { content = none; readable = true; writable = true }

abbrev secret : Bytes
secret = replicate 32 5

abbrev stored : KeyFile
stored = record missing { content = some (secret ++ secret) }

too_short :
    load (record missing { content = some (1 ∷ []) })
    ≡ err (Error.identity "identity file too short")
unfolding load
too_short = refl

generated : load_or_generate toy secret missing ≡ ok (record { signing = secret }, stored)
unfolding load_or_generate
generated = refl

load_or_generate_again_example :
    Origin toy secret missing none (record { signing = secret }) stored
    × (load_or_generate toy (replicate 32 6) stored ≡ ok (record { signing = secret }, stored))
load_or_generate_again_example =
    load_or_generate_again toy secret (replicate 32 6) missing stored (record { signing = secret })
      refl refl generated
