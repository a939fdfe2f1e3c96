-- ===== src/Container/Encrypt.antt =====
-- `encrypt_file` between the opened input and the finished temporary file.
pub mod Filling
use or_isy_vra.Base.{
  Bool, ℕ, zero, suc, ◌+◌, ◌-◌, ◌*◌, ◌^◌, List, [], ◌∷◌, ◌++◌, length, take, drop, min, Option,
  none, some, leb, ltb, ◌==◌, if◌then◌else◌,
}
use Prim.Native.Nat.{max}
use or_isy_vra.Base.Results.{
  Result, ok, err, stuck, ◌>>=◌, ◌>>◌, ok_or, fail_if, expect, checked_add, u32_try_from,
}
use or_isy_vra.Errors.{Error, Checked, limit_exceeded}
use or_isy_vra.Crypto.{Crypto}
use or_isy_vra.Container.Header.{
  Mode, native_research, guarded, Header, encode_header, new_header, validate_chunk_size,
}
use or_isy_vra.Container.Keys.{
  NativeKeys, GuardKeys, derive_native_keys, derive_guard_keys, header_binding,
}
use or_isy_vra.Container.Record.{data_record, record_frame, seal_native}
use or_isy_vra.Container.Guard.{guard_tag_size, guard_seal}
use or_isy_vra.Container.Manifest.{
  manifest_record, manifest_inner_size, manifest_frame, native_manifest_inner,
}

abbrev pub max_records : ℕ
max_records = 2 ^ 20

abbrev pub u64_max : ℕ
u64_max = 2 ^ 64 - 1

pub record EncryptOptions : Type 0 where
  pub mode : Mode
  pub chunk_size : ℕ
  pub overwrite : Bool

-- The input: its bytes, and how many bytes (one at least) each call of `read` is willing to give.
-- Behind the end of the plan a call gives all that is asked for.
pub record Reader : Type 0 where
  pub content : List ℕ
  pub plan : List ℕ

unfoldable pub read_limited : List ℕ → List ℕ → ℕ → List ℕ × Reader
read_limited content [] room =
    (take room content, record { content = drop room content; plan = [] })
read_limited content (n ∷ plan) room =
    let k = min room (max n 1) in (take k content, record { content = drop k content; plan = plan })

-- `input.read(&mut buffer[filled..])` with `room` bytes left in the buffer.
unfoldable pub read : Reader → ℕ → List ℕ × Reader
unfolding read_limited
read r room = read_limited r.content r.plan room

-- `while filled < buffer.len() { ... }` with `room` bytes left; a read of nothing ends it.
unfoldable pub fill : ℕ → Reader → ℕ → List ℕ × Reader
fill zero r room = ([], r)
fill (suc fuel) r room =
    let (bytes, r') = read r room in
    let rest = fill fuel r' (room - length bytes) in
    if room == 0 then ([], r) else if length bytes == 0 then ([], r') else (bytes ++ rest.0, rest.1)

-- What is fixed for one file.
pub record Session : Type 0 where
  pub header : Header
  pub header_bytes : List ℕ
  pub native_keys : NativeKeys
  pub guard_keys : Option GuardKeys
  pub binding : List ℕ

-- `if mode == Mode::Guarded { Some(derive_guard_keys(...)?) } else { None }`.
unfoldable pub guard_keys_for : Crypto → Mode → List ℕ → Header → Checked (Option GuardKeys)
guard_keys_for c native_research master header = ok none
guard_keys_for c guarded master header = do keys ← derive_guard_keys c master header; ok (some keys)

unfoldable pub session_of : Crypto → List ℕ → Header → Checked Session
session_of c master header = do
  let native_keys = derive_native_keys master header
  guard_keys ← guard_keys_for c header.mode master header
  ok (record {
    header = header;
    header_bytes = encode_header header;
    native_keys = native_keys;
    guard_keys = guard_keys;
    binding = header_binding native_keys header;
  })

-- The body of a record: the native body, sealed once more in guarded mode.
unfoldable pub seal_body : Crypto → Session → Mode → ℕ → ℕ → List ℕ → Checked (List ℕ)
seal_body c s native_research index plaintext_length native_body = ok native_body
seal_body c s guarded index plaintext_length native_body = do
  body_length ←
      ok_or (checked_add (length native_body) guard_tag_size)
        (limit_exceeded "record length overflow")
  body_length_u32 ← ok_or (u32_try_from body_length) (limit_exceeded "record too large")
  keys ← expect s.guard_keys
  guard_seal c keys s.header index data_record
      (s.header_bytes ++ record_frame index plaintext_length body_length_u32) native_body

-- The frame and the body that one round of the loop writes and hashes.
unfoldable pub seal_record : Crypto → Session → ℕ → List ℕ → Checked (List ℕ)
seal_record c s index plaintext = do
  native_body ← seal_native s.native_keys s.binding index plaintext
  plaintext_length ← ok_or (u32_try_from (length plaintext)) (limit_exceeded "record too large")
  body ← seal_body c s s.header.mode index plaintext_length native_body
  body_length ← ok_or (u32_try_from (length body)) (limit_exceeded "record too large")
  ok (record_frame index plaintext_length body_length ++ body)

-- The variables of the loop; `output` is what the temporary file holds, and `transcript` what
-- the SHA-384 state has been given.
pub record Progress : Type 0 where
  pub record_index : ℕ
  pub total_length : ℕ
  pub transcript : List ℕ
  pub output : List ℕ

unfoldable pub encrypt_record : Crypto → Session → Progress → List ℕ → Checked Progress
encrypt_record c s p plaintext = do
  fail_if (leb max_records p.record_index) (limit_exceeded "too many records in one file")
  written ← seal_record c s p.record_index plaintext
  total_length ←
      ok_or (checked_add p.total_length (length plaintext)) (limit_exceeded "file length overflow")
  ok (record {
    record_index = p.record_index + 1;
    total_length = total_length;
    transcript = p.transcript ++ written;
    output = p.output ++ written;
  })

-- `loop { ... }`, with fuel for the rounds; every round but the last takes a byte at least.
unfoldable pub encrypt_loop : Crypto → Session → ℕ → Reader → Progress → Checked Progress
encrypt_loop c s zero r p = stuck
encrypt_loop c s (suc fuel) r p =
    let (plaintext, r') = fill s.header.chunk_size r s.header.chunk_size in
    let more = (do p' ← encrypt_record c s p plaintext; encrypt_loop c s fuel r' p') in
    if length plaintext == 0 then ok p else more

unfoldable pub seal_manifest : Crypto → Session → Mode → List ℕ → Checked (List ℕ)
seal_manifest c s native_research inner = ok inner
seal_manifest c s guarded inner = do
  keys ← expect s.guard_keys
  guard_seal c keys s.header u64_max manifest_record
      (s.header_bytes ++ manifest_frame (manifest_inner_size + guard_tag_size)) inner

unfoldable pub finish : Crypto → Session → Progress → Checked (List ℕ)
finish c s p = do
  let inner =
      native_manifest_inner s.native_keys s.binding p.total_length p.record_index
        (c.sha384 p.transcript)
  body ← seal_manifest c s s.header.mode inner
  body_length ← ok_or (u32_try_from (length body)) (limit_exceeded "manifest too large")
  ok (p.output ++ (manifest_frame body_length ++ body))

abbrev pub started : Session → Progress
started s = record {
  record_index = 0;
  total_length = 0;
  transcript = s.header_bytes;
  output = s.header_bytes;
}

-- Everything that `encrypt_file` writes into the temporary file.
unfoldable pub encrypt_stream : Crypto → Session → Reader → Checked (List ℕ)
encrypt_stream c s r = do p ← encrypt_loop c s (length r.content + 1) r (started s); finish c s p

-- `encrypt_file` on the bytes of its input, with the header that `Header::new` has made.
unfoldable pub encrypt_bytes : Crypto → List ℕ → Header → Reader → Checked (List ℕ)
encrypt_bytes c master header r = do s ← session_of c master header; encrypt_stream c s r
