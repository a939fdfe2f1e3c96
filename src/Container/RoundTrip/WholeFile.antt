-- ===== src/Container/RoundTrip/WholeFile.antt =====
-- The whole file: header, records and manifest.
use mathlib.Core.List.{append_assoc, append-nil}
use or_isy_vra.Base.{
  ℕ, suc, ◌+◌, ◌-◌, ◌*◌, ◌^◌, ◌<◌, ◌≤◌, ◌≡◌, refl, ap, sym, ◌∙◌, arith, List, [], ◌∷◌, ◌++◌, length,
  take, drop, codes, All, Option, none, some, true, ◌==◌, ==_self, lt→ltb, length-append,
  length-take, All-take,
}
use or_isy_vra.Base.Words.{IsByte}
use or_isy_vra.Base.Bytes.{le_bytes, IsBytes, length-le_bytes, from_le-le_bytes}
use or_isy_vra.Base.Results.{ok}
use or_isy_vra.Crypto.{Crypto, IsAead, HasDigests}
use or_isy_vra.Container.Header.{Mode, native_research, guarded, Header, encode_header, header_size}
use or_isy_vra.Container.Header.Codec.{IsHeader, encode_header-IsBytes, decode-encode}
use or_isy_vra.Container.Keys.{GuardKeys, derive_guard_keys, derive_native_keys, header_binding}
use or_isy_vra.Container.Manifest.{manifest_record}
use or_isy_vra.Container.Manifest.Verified.{
  native_manifest_inner-IsBytes, verify-inner, manifest_frame-bytes,
}
use or_isy_vra.Container.Encrypt.{
  Session, Reader, Progress, guard_keys_for, session_of, finish, started, encrypt_stream,
  encrypt_bytes, max_records,
}
use or_isy_vra.Container.Decrypt.{
  info_of, read_exact, manifest_length_for, decrypt_manifest, decrypt_loop, decrypt_stream,
  open_session, decrypt_bytes,
}
use or_isy_vra.Container.Decrypt.Bodies.{IsSession, open_manifest-seal}
use or_isy_vra.Container.Decrypt.Records.{reading_of, read_exact-append}
use or_isy_vra.Container.RoundTrip.{decrypt_loop-encrypt}

module _ (c : Crypto) (aead : IsAead c) (digests : HasDigests c) where
  guard_keys_for-ok :
      (mode : Mode) (master : List ℕ) (h : Header)
      → (keys : Option GuardKeys) × (guard_keys_for c mode master h ≡ ok keys)
        × (mode ≡ guarded → (k : GuardKeys) × (keys ≡ some k) × IsBytes 32 k.key)
  unfolding guard_keys_for derive_guard_keys
  guard_keys_for-ok native_research master h = (none, refl, λ e. absurd (ground arith))
  guard_keys_for-ok guarded master h =
      let (output, made, full) =
        digests.hkdf_64 h.salt master
          (codes "OrIsyVra/guarded/XChaCha20Poly1305/v1" ++ h.file_id) in
      let keys : GuardKeys = record { key = take 32 output; nonce_key = drop 32 output } in
      (
        some keys,
        rw made refl,
        λ e. (
          keys,
          refl,
          record {
            size = length-take 32 output ∙ omega (arith, full.size);
            all = All-take IsByte 32 output full.all;
          },
        ),
      )

  session_of-ok :
      (master : List ℕ) (h : Header)
      → IsHeader h
      → (s : Session) × (session_of c master h ≡ ok s)
        × IsSession s
        × (s.header ≡ h)
        × (s.header_bytes ≡ encode_header h)
  unfolding session_of
  session_of-ok master h valid =
      let (keys, made, keyed) = guard_keys_for-ok h.mode master h in
      let native_keys = derive_native_keys master h in
      let s : Session = record {
        header = h;
        header_bytes = encode_header h;
        native_keys = native_keys;
        guard_keys = keys;
        binding = header_binding native_keys h;
      } in
      (s, rw made refl, record { header = valid; keyed = keyed }, refl, refl)

  module _ (s : Session) (valid : IsSession s) where
    -- What `finish` appends, the manifest's branch accepts.
    decrypt_manifest-finish :
        (p : Progress)
        → p.total_length < 2 ^ 64
        → p.record_index ≤ max_records
        → (tail : List ℕ) × (finish c s p ≡ ok (p.output ++ (manifest_record ∷ tail)))
          × ((out : List ℕ)
              → decrypt_manifest c s (reading_of p out) tail
                ≡ ok (record (reading_of p out) { saw_manifest = true }))
    unfolding finish decrypt_manifest
    decrypt_manifest-finish p total count =
        let digest = digests.sha384_48 p.transcript in
        let full =
          native_manifest_inner-IsBytes s.native_keys s.binding p.total_length p.record_index
            (c.sha384 p.transcript) digest in
        let (body, made, size, opened) =
          open_manifest-seal c aead digests s valid s.header.mode _ refl full in
        let small = manifest_small s.header.mode in
        let fits : length body < 2 ^ 32 = omega (arith, size, small) in
        let same_length : (length body == manifest_length_for s.header.mode) ≡ true =
          ap (λ t. length body == t) (sym size) ∙ ==_self (length body) in
        (
          le_bytes 4 (length body) ++ body,
          rw made (
              rw (lt→ltb (length body) (2 ^ 32) fits)
                (rw (manifest_frame-bytes (length body)) refl)),
          λ out.
              rw
                (read_exact-append 4 (le_bytes 4 (length body)) body
                  (length-le_bytes 4 (length body)))
                (rw (from_le-le_bytes 4 (length body) fits) (
                  rw same_length (
                    rw (read_all body) (
                      rw opened (
                        rw
                          (verify-inner s.native_keys s.binding p.total_length p.record_index
                            (c.sha384 p.transcript) digest total (omega (arith, count)))
                          refl))))),
        )
      where
        manifest_small : (m : Mode) → manifest_length_for m < 2 ^ 32
        manifest_small native_research = omega arith
        manifest_small guarded = omega arith

        read_all : (xs : List ℕ) → read_exact (length xs) xs ≡ ok (xs, [])
        read_all xs =
            ap (read_exact (length xs)) (sym (append-nil xs))
            ∙ read_exact-append (length xs) xs [] refl

    decrypt_stream-encrypt :
        (r : Reader)
        → All IsByte r.content
        → length r.content ≤ max_records * s.header.chunk_size
        → (rest : List ℕ) × (encrypt_stream c s r ≡ ok (s.header_bytes ++ rest))
          × (decrypt_stream c s rest ≡ ok r.content)
    unfolding encrypt_stream decrypt_stream
    decrypt_stream-encrypt r bytes room =
        let k = valid.header.not_large in
        let run =
          decrypt_loop-encrypt c aead digests s valid (length r.content + 1) r (started s) r.content
            max_records refl (omega arith) (omega arith) room (omega (arith, room, k)) bytes in
        let (tail, finished, accepted) =
          decrypt_manifest-finish run.final (omega (arith, run.total, room, k)) run.few in
        let rest = run.written ++ (manifest_record ∷ tail) in
        let f = length rest - run.rounds in
        let fuel : length rest + 1 ≡ run.rounds + suc f =
          omega (arith, run.rounds_le, length-append run.written (manifest_record ∷ tail)) in
        (
          rest,
          rw run.encrypted (
              rw finished (
                rw run.appended
                  (rw (append_assoc s.header_bytes run.written (manifest_record ∷ tail)) refl))),
          rw fuel (
              rw (run.decrypted [] (manifest_record ∷ tail) (suc f))
                (unfold decrypt_loop in rw (accepted r.content) refl)),
        )

-- With cryptography that is as documented, and for every master key, valid header, mode, and input
-- of bytes that fits into 2 ^ 20 chunks, however the calls of `read` split it: encryption succeeds,
-- and decrypting what it wrote under the same master key gives the input back, with the header's
-- information.
pub decrypt-encrypt :
    (c : Crypto) (master : List ℕ) (h : Header) (r : Reader)
    → IsAead c
    → HasDigests c
    → IsHeader h
    → All IsByte r.content
    → length r.content ≤ max_records * h.chunk_size
    → (file : List ℕ) × (encrypt_bytes c master h r ≡ ok file)
      × (decrypt_bytes c master file ≡ ok (r.content, info_of h))
unfolding encrypt_bytes decrypt_bytes open_session
decrypt-encrypt c master h r aead digests valid bytes room =
    let (s, made, s_valid, same, same_bytes) = session_of-ok c aead digests master h valid in
    let (rest, encrypted, decrypted) =
      decrypt_stream-encrypt c aead digests s s_valid r bytes (rw same room) in
    (
      s.header_bytes ++ rest,
      rw made encrypted,
      rw same_bytes (
          rw
            (read_exact-append header_size (encode_header h) rest
              (encode_header-IsBytes h valid).size)
            (rw (decode-encode h valid) (rw made (rw decrypted (rw same refl))))),
    )
