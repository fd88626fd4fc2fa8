-- ===== src/Capi/Buffer.antt =====
-- The buffer of `mmreg_find_uio`: bindings/c/src/lib.rs.
use mmreg.Capi.Open.{mmreg_find_uio, copy_path, fill, small_message}
use mmreg.Capi.Reports.{IsReported, set_mmreg_error-IsReported, set_error-IsReported}
use mmreg.Capi.{Errors, Status, minus_one, zero, text, set_error}
use mmreg.Error.{MmregError}
use mmreg.Message.{ProfileMessage}
use mmreg.Opening.Build.{Setting}
use mmreg.Preflight.{take, drop, starts_with}
use mmreg.Prelude.{
  ℕ, suc, ◌+◌, ◌≤◌, ◌<◌, Bool, true, false, List, [], ◌∷◌, ◌++◌, Option, some, ltb, if◌then◌else◌,
  length, Text, codes, Result, ok, err, ◌≡◌, ◌⊎◌, inl, inr, refl, sym, ap, ◌∙◌, arith, ok-eq,
}
use mmreg.Strings.{bytes, strip_prefix}

-- A path and a NUL are written at the start, and nothing after them.
abbrev pub IsFilled : List ℕ → List ℕ → List ℕ → Type 0
IsFilled path buf filled =
    (length filled ≡ length buf)
    × (take (length path + 1) filled ≡ path ++ 0 ∷ [])
    × (drop (length path + 1) filled ≡ drop (length path + 1) buf)

fill-filled :
    (path buf : List ℕ)
    → length path + 1 ≤ length buf
    → (length (path ++ 0 ∷ drop (suc (length path)) buf) ≡ length buf)
      × (take (suc (length path)) (path ++ 0 ∷ drop (suc (length path)) buf) ≡ path ++ 0 ∷ [])
      × (drop (suc (length path)) (path ++ 0 ∷ drop (suc (length path)) buf)
          ≡ drop (suc (length path)) buf)
unfolding take drop
fill-filled [] [] h = absurd (omega arith)
fill-filled [] (b ∷ buf) h = (refl, refl, refl)
fill-filled (c ∷ path) [] h = absurd (omega arith)
fill-filled (c ∷ path) (b ∷ buf) h =
    let (size, front, back) = fill-filled path buf (omega arith) in
    (ap suc size, ap (λ t. c ∷ t) front, back)

module _ {Mem : Type 0} (details_of : ProfileMessage → Text) (e : Setting Mem) (thread : ℕ) where
  -- What a call with a buffer does: it finds a path that fits with its NUL, and writes it; or it
  -- fails, leaves the buffer alone, and records an error.
  abbrev pub IsFound : Text → List ℕ → Errors → Status × Option (List ℕ) × Errors → Type 0
  IsFound name buf errors r =
      ((path : Text) × (e.find_uio name ≡ ok path)
        × (length (bytes path) + 1 ≤ length buf)
        × (r.0 ≡ zero)
        × (r.2 ≡ errors)
        × (filled : List ℕ) × (r.1 ≡ some filled)
        × IsFilled (bytes path) buf filled)
      ⊎ (((path : Text) → e.find_uio name ≡ ok path → length buf ≤ length (bytes path))
          × (r.0 ≡ minus_one)
          × (r.1 ≡ some buf)
          × IsReported thread errors r.2)

  -- `mmreg_find_uio` with a name and a buffer returns 0 exactly if the name's path and a NUL fit the
  -- buffer: then these are written at its start, nothing is written past them, and no error is set.
  -- Otherwise it returns -1, leaves the buffer as it was, and sets the thread's error.
  pub mmreg_find_uio-IsFound :
      (name : Text) (buf : List ℕ) (errors : Errors)
      → IsFound name buf errors (mmreg_find_uio details_of e thread (text name) (some buf) errors)
  unfolding mmreg_find_uio
  mmreg_find_uio-IsFound name buf errors = go (e.find_uio name) refl
    where
      short :
          (path : Text)
          → ltb (length buf) (length (bytes path) + 1) ≡ true
          → length buf < length (bytes path) + 1
      short path k = ground arith

      enough :
          (path : Text)
          → ltb (length buf) (length (bytes path) + 1) ≡ false
          → length (bytes path) + 1 ≤ length buf
      enough path k = ground arith

      filled_at :
          (path : List ℕ)
          → length path + 1 ≤ length buf
          → IsFilled path buf (fill details_of e thread path buf)
      filled_at path h =
          let count : length path + 1 ≡ suc (length path) = omega arith in
          rw count (fill-filled path buf h)

      copied : Result MmregError Text → Status × Option (List ℕ) × Errors
      copied r =
          let (status, filled, later) = copy_path details_of e thread r buf errors in
          (status, some filled, later)

      shaped : Text → Bool → Status × Option (List ℕ) × Errors
      shaped path b =
          let (status, filled, later) : Status × List ℕ × Errors =
            if b
            then (
              minus_one,
              buf,
              set_error thread (codes "E_BUFFER_TOO_SMALL")
                  (small_message details_of e thread (length buf) path) errors,
            )
            else (zero, fill details_of e thread (bytes path) buf, errors) in
          (status, some filled, later)

      fitted :
          (path : Text) (b : Bool)
          → e.find_uio name ≡ ok path
          → ltb (length buf) (length (bytes path) + 1) ≡ b
          → IsFound name buf errors (shaped path b)
      fitted path true h k = inr (
        λ other found.
            let same : path ≡ other = ok-eq (sym h ∙ found) in
            let size = ap (λ t. length (bytes t)) same in omega (arith, size, short path k),
        refl,
        refl,
        set_error-IsReported thread _ _ errors (unfold starts_with strip_prefix in refl),
      )
      fitted path false h k = inl (
        path,
        h,
        enough path k,
        refl,
        refl,
        fill details_of e thread (bytes path) buf,
        refl,
        filled_at (bytes path) (enough path k),
      )

      go : (r : Result MmregError Text) → e.find_uio name ≡ r → IsFound name buf errors (copied r)
      go (err x) h =
          inr
            (λ path k. cc (h, k), refl, refl, set_mmreg_error-IsReported details_of thread x errors)
      go (ok path) h = fitted path (ltb (length buf) (length (bytes path) + 1)) h refl
