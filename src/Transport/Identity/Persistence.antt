-- ===== src/Transport/Identity/Persistence.antt =====
-- A node has the same identity in every run.
use borderless.Base.{
  ◌≡◌, ap, ap₂, sym, ◌∙◌, Bool, true, false, ◌++◌, Option, none, some, length, take, take-append,
  length-append, ok, arith, >>=-eq-ok, ok_inj, ◌≤◌,
}
use borderless.Core.Node.{Bytes}
use borderless.Transport.Identity.{Ed25519, Identity, KeyFile, load, save, load_or_generate}

load-take :
    (bytes : Bytes) (writable : Bool)
    → 32 ≤ length bytes
    → load (record { content = some bytes; readable = true; writable = writable })
      ≡ ok (record { signing = take 32 bytes })
unfolding load
load-take bytes writable h = ground arith

module _ (e : Ed25519) where
  saved :
      (id : Identity) (content : Option Bytes) (readable writable : Bool) (file' : KeyFile)
      → save e id (record { content = content; readable = readable; writable = writable })
        ≡ ok file'
      → file' ≡ record {
        content = some (id.signing ++ e.verifying_key id.signing);
        readable = readable;
        writable = writable;
      }
  unfolding save
  saved id content readable true file' s = cc
  saved id content readable false file' s = cc

  -- What is saved in a file that can be read is loaded again.
  pub load-save :
      (id : Identity) (file file' : KeyFile)
      → length id.signing ≡ 32
      → file.readable ≡ true
      → save e id file ≡ ok file'
      → load file' ≡ ok id
  load-save id file file' h r s = rw (
    saved id file.content file.readable file.writable file' s,
    r,
    load-take (id.signing ++ e.verifying_key id.signing) file.writable
        (omega (arith, length-append id.signing (e.verifying_key id.signing))),
    take-append 32 id.signing (e.verifying_key id.signing) h,
  )

  -- Where the identity of a run is from: the file, which is left as it was, or the secret, which is
  -- written to the file with its public key.
  abbrev pub Origin : Bytes → KeyFile → Option Bytes → Identity → KeyFile → Type 0
  Origin secret file (some bytes) id file' =
      (32 ≤ length bytes) × (id.signing ≡ take 32 bytes) × (file' ≡ file)
  Origin secret file none id file' =
      (id.signing ≡ secret)
      × (file' ≡ record file { content = some (secret ++ e.verifying_key secret) })

  load-inv :
      (bytes : Bytes) (readable writable : Bool) (id : Identity)
      → load (record { content = some bytes; readable = readable; writable = writable }) ≡ ok id
      → (32 ≤ length bytes) × (id.signing ≡ take 32 bytes)
  unfolding load
  load-inv bytes readable writable id h = ground arith

  -- `load_or_generate` on a file that is there and on one that is not.
  origin :
      (secret : Bytes) (content : Option Bytes) (readable writable : Bool) (file' : KeyFile)
      (id : Identity)
      → load_or_generate e secret
          (record { content = content; readable = readable; writable = writable })
        ≡ ok (id, file')
      → Origin secret
          (record { content = content; readable = readable; writable = writable })
          content
          id
          file'
  unfolding load_or_generate
  origin secret (some bytes) readable writable file' id s =
      let file : KeyFile = record {
        content = some bytes;
        readable = readable;
        writable = writable;
      } in
      let (id', l, p) = >>=-eq-ok (load file) (λ i. ok (i, file)) s in
      let (long, taken) = load-inv bytes readable writable id' l in
      let same = ok_inj p in
      (
        long,
        sym (ap (λ (x : Identity × KeyFile). x.0.signing) same) ∙ taken,
        sym (ap (λ (x : Identity × KeyFile). x.1) same),
      )
  origin secret none readable writable file' id s =
      let file : KeyFile = record { content = none; readable = readable; writable = writable } in
      let (file₁, l, p) =
        >>=-eq-ok (save e (record { signing = secret }) file)
          (λ w. ok (record { signing = secret }, w)) s in
      let same = ok_inj p in
      (
        sym (ap (λ (x : Identity × KeyFile). x.0.signing) same),
        sym (ap (λ (x : Identity × KeyFile). x.1) same)
            ∙ saved (record { signing = secret }) none readable writable file₁ l,
      )

  load_later :
      (later secret : Bytes) (file : KeyFile)
      → length secret ≡ 32
      → file.readable ≡ true
      → load_or_generate e later (record file { content = some (secret ++ e.verifying_key secret) })
        ≡ ok (
          record { signing = secret },
          record file { content = some (secret ++ e.verifying_key secret) },
        )
  unfolding load_or_generate
  load_later later secret file h r = rw (
    r,
    load-take (secret ++ e.verifying_key secret) file.writable
        (omega (arith, length-append secret (e.verifying_key secret))),
    take-append 32 secret (e.verifying_key secret) h,
  )

  again :
      (secret later : Bytes) (content : Option Bytes) (readable writable : Bool) (file' : KeyFile)
      (id : Identity)
      → length secret ≡ 32
      → readable ≡ true
      → load_or_generate e secret
          (record { content = content; readable = readable; writable = writable })
        ≡ ok (id, file')
      → load_or_generate e later file' ≡ ok (id, file')
  unfolding load_or_generate
  again secret later (some bytes) readable writable file' id h r s =
      let (_, _, q) = origin secret (some bytes) readable writable file' id s in
      ap (λ w. load_or_generate e later w) q ∙ s
  again secret later none readable writable file' id h r s =
      let file : KeyFile = record { content = none; readable = readable; writable = writable } in
      let (i, q) = origin secret none readable writable file' id s in
      ap (load_or_generate e later) q
      ∙ load_later later secret file h r
      ∙ ap (λ x. ok x) (ap₂ (λ a w. (a, w)) (ap (λ z. record { signing = z }) (sym i)) (sym q))

  -- The first run makes an identity of the secret it draws, and writes the secret and its public key to
  -- the file; a run that finds a file of at least 32 bytes takes the first 32 and leaves the file as
  -- it was. Every later run gets the same identity back, whatever secret it would have drawn, and
  -- leaves the file alone. The secret is of 32 bytes, and the file can be read.
  pub load_or_generate_again :
      (secret later : Bytes) (file file' : KeyFile) (id : Identity)
      → length secret ≡ 32
      → file.readable ≡ true
      → load_or_generate e secret file ≡ ok (id, file')
      → Origin secret file file.content id file' × (load_or_generate e later file' ≡ ok (id, file'))
  load_or_generate_again secret later file file' id h r s = (
    origin secret file.content file.readable file.writable file' id s,
    again secret later file.content file.readable file.writable file' id h r s,
  )
