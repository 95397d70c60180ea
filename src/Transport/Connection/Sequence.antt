-- ===== src/Transport/Connection/Sequence.antt =====
-- What a writer sends is what the reader at the other end receives.
use borderless.Base.{
  ℕ, suc, ◌+◌, ◌≡◌, refl, ap, ◌∙◌, sym, true, false, inl, inr, List, [], ◌∷◌, ◌++◌, append_assoc,
  append-nil, some, Option-cases, ok, err, Result-cases, length, arith,
}
use borderless.Core.Node.{Bytes}
use borderless.Transport.Error.{Error}
use borderless.Transport.Frame.{Stream, read_exact, read_framed, write_framed}
use borderless.Transport.Frame.Roundtrip.{read_framed-write_framed}
use borderless.Transport.Connection.{Codec, IsLossless, send_frame, recv_frame, writer, reader}

zero_add : (n : ℕ) → 0 + n ≡ n
zero_add n = omega arith

suc_add : (m n : ℕ) → suc m + n ≡ suc (m + n)
suc_add m n = omega arith

add_one : (n : ℕ) → suc n ≡ n + 1
add_one n = omega arith

module _ {A : Type 0} (c : Codec A) (lossless : IsLossless c) where
  send_encoded :
      (frame : A) (bytes : Bytes) (s : Stream)
      → c.encode frame ≡ some bytes
      → send_frame c frame s ≡ write_framed bytes s
  unfolding send_frame
  send_encoded frame bytes s e = rw e

  writer_ok :
      (frame : A) (frames : List A) (s s₁ : Stream)
      → send_frame c frame s ≡ ok s₁
      → writer c (frame ∷ frames) s ≡ writer c frames s₁
  unfolding writer
  writer_ok frame frames s s₁ f = rw (f, writer)

  writer_err :
      (frame : A) (frames : List A) (s : Stream) (e : Error)
      → send_frame c frame s ≡ err e
      → writer c (frame ∷ frames) s ≡ (s, false)
  unfolding writer
  writer_err frame frames s e f = rw (f, writer)

  reader_ok :
      (n : ℕ) (frame : A) (t t₁ : Stream)
      → recv_frame c t ≡ ok (frame, t₁)
      → reader c (suc n) t ≡ (frame ∷ (reader c n t₁).0, (reader c n t₁).1)
  unfolding reader
  reader_ok n frame t t₁ f = rw (f, reader)

  -- The bytes of one frame, from which any stream that starts with them is read.
  send_frame-recv_frame :
      (frame : A) (s s' : Stream)
      → send_frame c frame s ≡ ok s'
      → (bytes : Bytes) × (s' ≡ record s { outgoing = s.outgoing ++ bytes })
        × ((t : Stream) (rest : Bytes)
            → t.incoming ≡ bytes ++ rest
            → recv_frame c t ≡ ok (frame, record t { incoming = rest }))
  unfolding send_frame recv_frame
  send_frame-recv_frame frame s s' h = elim (Option-cases (c.encode frame)) [
    | inl e ↦ absurd (cc)
    | inr (bytes, e) ↦
        let (b, w, r) =
          read_framed-write_framed bytes s s' (sym (send_encoded frame bytes s e) ∙ h) in
        (b, w, λ t rest i. rw (r t rest i, lossless frame bytes e))
  ]

  pub reader-writer_from :
      (frames : List A) (s s' : Stream) (n : ℕ)
      → writer c frames s ≡ (s', true)
      → (bytes : Bytes) × (s' ≡ record s { outgoing = s.outgoing ++ bytes })
        × ((t : Stream) (rest : Bytes)
            → t.incoming ≡ bytes ++ rest
            → reader c (length frames + n) t ≡ (
              frames ++ (reader c n (record t { incoming = rest })).0,
              (reader c n (record t { incoming = rest })).1,
            ))
  unfolding writer reader
  reader-writer_from [] s s' n h =
      ([], ground (arith, append-nil s.outgoing), λ t rest i. rw (zero_add n, sym i))
  reader-writer_from (frame ∷ frames) s s' n h = elim (Result-cases (send_frame c frame s)) [
    | inl (e, f) ↦ absurd (ground (arith, writer_err frame frames s e f))
    | inr (s₁, f) ↦
        let (b, w, r) = send_frame-recv_frame frame s s₁ f in
        let (b', w', r') =
          reader-writer_from frames s₁ s' n (sym (writer_ok frame frames s s₁ f) ∙ h) in
        (
          b ++ b',
          w'
              ∙ ap (λ (z : Stream). record z { outgoing = z.outgoing ++ b' }) w
              ∙ ap (λ o. record s { outgoing = o }) (append_assoc s.outgoing b b'),
          λ t rest i. rw (
            suc_add (length frames) n,
            reader_ok (length frames + n) frame t (record t { incoming = b' ++ rest })
                (r t (b' ++ rest) (i ∙ append_assoc b b' rest)),
            r' (record t { incoming = b' ++ rest }) rest refl,
          ),
        )
  ]

  recv_frame-end : (t : Stream) → t.incoming ≡ [] → recv_frame c t ≡ err Error.io
  unfolding recv_frame read_framed read_exact
  recv_frame-end t i = rw i

  reader_end : (t : Stream) → t.incoming ≡ [] → reader c 1 t ≡ ([], some Error.io)
  unfolding reader
  reader_end t i = rw (recv_frame-end t i, reader)

  -- Every frame that a writer got rid of without an error arrives at the other end, in the order in
  -- which they were sent, none twice and none in between; then the reader sees the end of the stream
  -- and stops.
  pub reader-writer :
      (frames : List A) (s s' t : Stream)
      → writer c frames s ≡ (s', true)
      → s.outgoing ≡ []
      → t.incoming ≡ s'.outgoing
      → reader c (suc (length frames)) t ≡ (frames, some Error.io)
  reader-writer frames s s' t h start wire =
      let (b, w, r) = reader-writer_from frames s s' 1 h in
      let e : t.incoming ≡ b ++ [] =
        wire ∙ ap (λ (z : Stream). z.outgoing) w ∙ rw start (sym (append-nil b)) in
      rw (
        add_one (length frames),
        r t [] e,
        reader_end (record t { incoming = [] }) refl,
        append-nil frames,
      )
