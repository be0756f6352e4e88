-- ===== src/Uploads/Stream.antt =====
-- The stream of backend/app/uploads.py writes what fits and refuses what does not.
use the_vc_brain.Prelude.{
  ℕ, ◌+◌, ◌≤◌, ◌≡◌, inl, inr, refl, true, false, List, [], ◌∷◌, ◌++◌, ltb, leb, Bool-cases,
  if◌then◌else◌, length, length-append, arith, ap, sym,
}
use the_vc_brain.Uploads.{
  Checked, accepted, rejected, too_large, stream_chunks, stream_to_quarantine,
}

-- the bytes that a reader of chunks sees, which a chunk without bytes ends
abbrev pub received : List (List ℕ) → List ℕ
received [] = []
received ([] ∷ chunks) = []
received ((b ∷ bytes) ∷ chunks) = (b ∷ bytes) ++ received chunks

append_nil : (xs : List ℕ) → xs ++ [] ≡ xs
append_nil [] = refl
append_nil (x ∷ xs) = ap (λ r. x ∷ r) (append_nil xs)

append_assoc : (xs ys zs : List ℕ) → (xs ++ ys) ++ zs ≡ xs ++ (ys ++ zs)
append_assoc [] ys zs = refl
append_assoc (x ∷ xs) ys zs = ap (λ r. x ∷ r) (append_assoc xs ys zs)

abbrev pub within : ℕ → List ℕ → Checked (List ℕ)
within max_bytes bytes =
    if leb (length bytes) max_bytes then accepted bytes else rejected (too_large max_bytes)

within-fits : (n : ℕ) (bytes : List ℕ) → length bytes ≤ n → within n bytes ≡ accepted bytes
within-fits n bytes h = let fits : leb (length bytes) n ≡ true = ground arith in rw fits refl

within-exceeds :
    (n : ℕ) (bytes : List ℕ) → n + 1 ≤ length bytes → within n bytes ≡ rejected (too_large n)
within-exceeds n bytes h =
    let exceeds : leb (length bytes) n ≡ false = ground arith in rw exceeds refl

stream_chunks_lem :
    (n : ℕ) (written : List ℕ) (chunks : List (List ℕ))
    → length written ≤ n
    → stream_chunks n (length written) written chunks ≡ within n (written ++ received chunks)
stream_chunks_lem n written [] h = rw (append_nil written) (sym (within-fits n written h))
stream_chunks_lem n written ([] ∷ chunks) h =
    rw (append_nil written) (sym (within-fits n written h))
stream_chunks_lem n written ((b ∷ bytes) ∷ chunks) h =
    let chunk : List ℕ = b ∷ bytes in
    let joined : length (written ++ chunk) ≡ length written + length chunk =
      length-append written chunk in
    let parted : length ((written ++ chunk) ++ received chunks)
        ≡ length (written ++ chunk) + length (received chunks) =
      length-append (written ++ chunk) (received chunks) in
    elim (Bool-cases (ltb n (length written + length chunk))) [
      | inl over ↦
          rw (over, ← append_assoc written chunk (received chunks))
            (sym (within-exceeds n ((written ++ chunk) ++ received chunks) (ground arith)))
      | inr fits ↦
          rw (fits, ← append_assoc written chunk (received chunks), ← joined)
            (stream_chunks_lem n (written ++ chunk) chunks (ground arith))
    ]

-- The bytes received up to the first chunk without bytes are written whole when they are at most
-- `max_bytes`, and the upload is refused as too large when they are more.
pub stream_to_quarantine_lem :
    (max_bytes : ℕ) (chunks : List (List ℕ))
    → stream_to_quarantine max_bytes chunks ≡ within max_bytes (received chunks)
unfolding stream_to_quarantine
stream_to_quarantine_lem n chunks = stream_chunks_lem n [] chunks (omega arith)
