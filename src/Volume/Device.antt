-- ===== src/Volume/Device.antt =====
-- The container file under a volume: its bytes, and writes and syncs that may fail at any point.
pub mod Keeps
use or_isy_vra.Base.{
  ℕ, ◌+◌, ◌-◌, List, [], ◌∷◌, ◌++◌, length, take, drop, replicate, Option, none, some, leb,
  if◌then◌else◌,
}
use or_isy_vra.Base.Results.{Result, ok, err, stuck}
use or_isy_vra.Errors.{IoError, other, unexpected_eof}
use or_isy_vra.Volume.Layout.{VolumeError, VolumeResult, io}

-- `plan` says of each coming write, truncation or sync whether it succeeds (`none`) or fails after
-- so many bytes; behind its end all succeed. A crash is a failure after which nothing follows.
pub record Device : Type 0 where
  pub content : List ℕ
  pub plan : List (Option ℕ)

-- Code that uses the device, and leaves it changed even where it fails.
abbrev pub Io : Type 0 → Type 0
Io A = Device → VolumeResult A × Device

unfoldable pub pure : {A : Type 0} → A → Io A
pure a d = (ok a, d)

unfoldable pub lift : {A : Type 0} → VolumeResult A → Io A
lift r d = (r, d)

abbrev pub continue :
    {A B : Type 0} → VolumeResult A → Device → (A → Io B) → VolumeResult B × Device
continue (ok a) d f = f a d
continue (err e) d f = (err e, d)
continue stuck d f = (stuck, d)

infixl 5 ◌>>=◌ ◌>>◌
unfoldable pub ◌>>=◌ : {A B : Type 0} → Io A → (A → Io B) → Io B
(m >>= f) d = let (r, d') = m d in continue r d' f

abbrev pub ◌>>◌ : {B : Type 0} → Io Unit → Io B → Io B
m >> k = m >>= λ _. k

-- The bytes with `bytes` written at `offset`; a gap behind the end is filled with zeros.
unfoldable pub write_at : ℕ → List ℕ → List ℕ → List ℕ
write_at offset bytes content =
    take offset (content ++ replicate (offset - length content) 0)
    ++ (bytes ++ drop (offset + length bytes) content)

-- One operation: the bytes behind it, and those it leaves when it fails after `n` bytes.
abbrev pub attempt : List ℕ → (ℕ → List ℕ) → List (Option ℕ) → VolumeResult Unit × Device
attempt done torn [] = (ok tt, record { content = done; plan = [] })
attempt done torn (none ∷ plan) = (ok tt, record { content = done; plan = plan })
attempt done torn (some n ∷ plan) = (err (io other), record { content = torn n; plan = plan })

-- `seek` to an offset and `write_all` there.
unfoldable pub write_all : ℕ → List ℕ → Io Unit
write_all offset bytes d =
    attempt (write_at offset bytes d.content) (λ n. write_at offset (take n bytes) d.content) d.plan

unfoldable pub set_len : ℕ → Io Unit
set_len n d =
    attempt (take n (d.content ++ replicate (n - length d.content) 0)) (λ _. d.content) d.plan

-- `sync_data` and `sync_all`.
unfoldable pub sync : Io Unit
sync d = attempt d.content (λ _. d.content) d.plan

-- `seek` to an offset and `read_exact` there.
unfoldable pub read_at : ℕ → ℕ → List ℕ → VolumeResult (List ℕ)
read_at offset n content =
    if leb (offset + n) (length content)
    then ok (take n (drop offset content))
    else err (io unexpected_eof)
