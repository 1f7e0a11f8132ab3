-- ===== src/Artifacts/Digest.antt =====
-- `digest`: a file hashed in chunks of a megabyte.
use rungrid.Common.{
  ℕ, zero, suc, ◌-◌, ◌*◌, ◌≤◌, ◌≡◌, sym, ap, ◌∙◌, List, [], ◌∷◌, ◌++◌, Text, arith, length, take,
  drop, length-drop, take-append-drop,
}

-- An incremental hash, as `hashlib` documents it: two updates amount to one with both inputs.
pub record Hash : Type 1 where
  pub State : Type 0
  pub init : State
  pub update : State → List ℕ → State
  pub hexdigest : State → Text
  pub update-nil : (h : State) → update h [] ≡ h
  pub update-append : (h : State) (a b : List ℕ) → update (update h a) b ≡ update h (a ++ b)

-- `iter(lambda: stream.read(size), b"")`, on fuel.
unfoldable pub chunks : ℕ → ℕ → List ℕ → List (List ℕ)
chunks zero size bytes = []
chunks (suc fuel) size [] = []
chunks (suc fuel) size (b ∷ bytes) =
    take size (b ∷ bytes) ∷ chunks fuel size (drop size (b ∷ bytes))

abbrev pub chunk_size : ℕ
chunk_size = 1024 * 1024

module _ (hash : Hash) where
  open hash use {State, init, update, hexdigest, update-nil, update-append}

  unfoldable pub update_all : State → List (List ℕ) → State
  update_all h [] = h
  update_all h (c ∷ cs) = update_all (update h c) cs

  -- Each chunk holds a byte or more, so the length of the file is enough fuel.
  unfoldable pub digest : List ℕ → Text
  unfolding chunks update_all
  digest file = hexdigest (update_all init (chunks (length file) chunk_size file))

  update_all-chunks :
      (fuel size : ℕ) (h : State) (bytes : List ℕ)
      → length bytes ≤ fuel
      → update_all h (chunks fuel (suc size) bytes) ≡ update h bytes
  unfolding update_all chunks
  update_all-chunks zero size h [] le = sym (update-nil h)
  update_all-chunks zero size h (b ∷ bytes) le = absurd (omega arith)
  update_all-chunks (suc fuel) size h [] le = sym (update-nil h)
  update_all-chunks (suc fuel) size h (b ∷ bytes) le =
      update_all-chunks fuel size (update h (b ∷ take size bytes)) (drop size bytes)
        (omega (arith, length-drop size bytes))
      ∙ (update-append h (b ∷ take size bytes) (drop size bytes)
          ∙ ap (λ t. update h (b ∷ t)) (take-append-drop size bytes))

  -- For every file, the digest taken chunk by chunk is the hash of the whole content at once.
  pub digest-eq-hash : (file : List ℕ) → digest file ≡ hexdigest (update init file)
  unfolding digest
  digest-eq-hash file =
      ap hexdigest (update_all-chunks (length file) (chunk_size - 1) init file (omega arith))
