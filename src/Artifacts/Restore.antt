-- ===== src/Artifacts/Restore.antt =====
-- `Artifacts.restore`, and an upload that is restored.
use rungrid.Common.{
  ℕ, zero, suc, ◌≡◌, refl, ◌⊎◌, inl, inr, true, false, Option, none, some, List, Text, arith,
  text_eq, text_eq_refl, text_eq_sound, if◌then◌else◌, Bool-cases,
}
use rungrid.Wire.{Lease, Entry}
use rungrid.Artifacts.Digest.{Hash, digest}
use rungrid.Artifacts.Upload.{Site, Upload, uploaded, tries, try_put, entry_at, entry_of, upload}
use rungrid.Artifacts.Effects.{try_put-cases}

-- A restored file, the storage's error, or `ValueError("checkpoint checksum mismatch")`.
pub data Restored : Type 0 where
  restored : List ℕ → Restored
  download_error checksum_mismatch : Restored

-- `restore` of what `download_file` found under the artifact's key.
unfoldable pub check_download : Hash → Entry → Option (List ℕ) → Restored
check_download hash artifact none = download_error
check_download hash artifact (some content) =
    if text_eq (digest hash content) artifact.checksum then restored content else checksum_mismatch

unfoldable pub restore : {S : Type 0} → (S → Text → Option (List ℕ)) → Hash → Entry → S → Restored
unfolding check_download
restore download hash artifact s = check_download hash artifact (download s artifact.object_key)

-- A restored file has the digest that its artifact names, and is what the storage holds under the
-- artifact's key; any other content under the key is refused as a mismatch.
pub restore_checked :
    {S : Type 0} (download : S → Text → Option (List ℕ)) (hash : Hash) (artifact : Entry) (s : S)
    → (content : List ℕ) → download s artifact.object_key ≡ some content
    → ((digest hash content ≡ artifact.checksum)
        × (restore download hash artifact s ≡ restored content))
      ⊎ ((¬ (digest hash content ≡ artifact.checksum))
          × (restore download hash artifact s ≡ checksum_mismatch))
unfolding restore
restore_checked download hash artifact s content found =
    elim (Bool-cases (text_eq (digest hash content) artifact.checksum)) [
      | inl same ↦ inl (text_eq_sound _ _ same, rw (found) (rw (same)))
      | inr other ↦ inr (λ e. differs e other, rw (found) (rw (other)))
    ]
  where
    differs :
        digest hash content ≡ artifact.checksum
        → text_eq (digest hash content) artifact.checksum ≡ false
        → ⊥
    differs e other = let same = text_eq_refl artifact.checksum in ground (arith, e)

-- A storage that keeps what was put into it without an error.
abbrev pub Keeps : {S : Type 0} → Site S → (S → Text → Option (List ℕ)) → Type 0
Keeps {S} site download =
    (k h : Text) (c : List ℕ) (s : S)
    → (site.put k c h s).0 ≡ true
    → download (site.put k c h s).1 k ≡ some c

module _ {S : Type 0} (site : Site S) (download : S → Text → Option (List ℕ)) where
  -- What an upload that returned an entry has left in the storage.
  abbrev Stored : Entry → List ℕ → Upload × S → Type 0
  Stored entry content (uploaded e, s) = (e ≡ entry) × (download s entry.object_key ≡ some content)
  Stored entry content (_, s) = Unit

  try_put-Stored :
      (content : List ℕ) (entry : Entry)
      → Keeps site download
      → (left attempt : ℕ) (s : S)
      → Stored entry content
          (try_put site entry.object_key (λ i. content) (λ i. entry) left attempt s)
  unfolding try_put
  try_put-Stored content entry keeps zero attempt s = tt
  try_put-Stored content entry keeps (suc left) attempt s =
      try_put-cases site entry.object_key (λ i. content) (λ i. entry) (Stored entry content) left
        attempt s (λ a. tt) (λ a d. (refl, keeps _ _ _ _ d)) (λ a d e. tt)
        (λ a d e. try_put-Stored content entry keeps left (suc attempt) _)

  -- If the storage keeps what was put, and the file does not change during its upload, then restoring the
  -- entry that the upload returned gives the uploaded file, with no mismatch.
  pub restore-upload :
      (hash : Hash) (lease : Lease) (kind : Text) (content : List ℕ) (uuid name : Text) (s s' : S)
      → (e : Entry) → Keeps site download
      → upload site hash lease kind (λ i. content) uuid name s ≡ (uploaded e, s')
      → restore download hash e s' ≡ restored content
  unfolding upload restore entry_at
  restore-upload hash lease kind content uuid name s s' e keeps done =
      let entry = entry_of hash lease kind content uuid name in
      let stored : Stored entry content (uploaded e, s') =
        rw done at (try_put-Stored content entry keeps tries 0 s) in
      rw (stored.0, stored.1) (rw (text_eq_refl (digest hash content)))
