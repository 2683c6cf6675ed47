-- ===== src/Campaign/Text/Laws.antt =====
-- Trimming adds no character.
use Prim.Native.Char.{Char, code}
use Prim.Native.String.{String}
use conference_contact.Prelude.{ℕ, Bool, false, ◌≡◌, Bool-cases, inl, inr}
use conference_contact.Campaign.Text.{is_space_code, trim_start, put_end, trim_end, trim}

module _ (p : ℕ → Bool) where
  -- No character of a text passes a test.
  abbrev pub Free : String → Type 0
  Free String.[] = Unit
  Free (String.◌∷◌ c s) = (p (code c) ≡ false) × Free s

  trim_start-Free : (s : String) → Free s → Free (trim_start s)
  unfolding trim_start
  trim_start-Free String.[] h = tt
  trim_start-Free (String.◌∷◌ c s) h = elim (Bool-cases (is_space_code (code c))) [
    | inl space ↦ rw space (trim_start-Free s h.1)
    | inr other ↦ rw other h
  ]

  put_end-Free : (c : Char) (s : String) → p (code c) ≡ false → Free s → Free (put_end c s)
  unfolding put_end
  put_end-Free c String.[] h k = elim (Bool-cases (is_space_code (code c))) [
    | inl space ↦ rw space tt
    | inr other ↦ rw other (h, tt)
  ]
  put_end-Free c (String.◌∷◌ d s) h k = (h, k)

  trim_end-Free : (s : String) → Free s → Free (trim_end s)
  unfolding trim_end
  trim_end-Free String.[] h = tt
  trim_end-Free (String.◌∷◌ c s) h = put_end-Free c (trim_end s) h.0 (trim_end-Free s h.1)

  pub trim-Free : (s : String) → Free s → Free (trim s)
  unfolding trim
  trim-Free s h = trim_end-Free (trim_start s) (trim_start-Free s h)
