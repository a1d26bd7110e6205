-- ===== src/Connector/WebSsh/Input.antt =====
-- services/connector/service/webssh.go: `writeAll`, which hands a text to a writer that may take it in
-- parts. The writer is a parameter: from its state and a text it gives its state, and how many bytes
-- it has written or that it failed.
use vps_manager.Base.{
  ℕ, zero, suc, ◌-◌, ◌≤◌, ◌≡◌, ◌≢◌, ◌||◌, Option, none, some, [], ◌∷◌, arith, ℤ, pos, pos_part,
  ltb_ℤ, leb_ℤ, Text, length, drop, if◌then◌else◌, Option-cases, inl, inr, Check, ok, err,
}

pub data WriteError : Type 0 where
  write_failed short_write : WriteError

module _ {S : Type 0} (writer : S → Text → S × Option ℤ) where
  -- Each round writes a byte or more; `none` is that the fuel ran out.
  unfoldable pub write_all : ℕ → S → Text → Option (S × Check WriteError)
  write_all fuel s [] = some (s, ok tt)
  write_all zero s (c ∷ value) = none
  write_all (suc fuel) s (c ∷ value) = elim (writer s (c ∷ value)).1 [
    | none ↦ some ((writer s (c ∷ value)).0, err write_failed)
    | some written ↦
        let rest = write_all fuel (writer s (c ∷ value)).0 (drop (pos_part written) (c ∷ value)) in
        if leb_ℤ written (pos 0) || ltb_ℤ (pos (length (c ∷ value))) written
        then some ((writer s (c ∷ value)).0, err short_write)
        else rest
  ]

  length-drop : (n : ℕ) (s : Text) → length (drop n s) ≡ length s - n
  length-drop zero s = omega arith
  length-drop (suc n) [] = omega arith
  length-drop (suc n) (c ∷ s) = omega (arith, length-drop n s)

  -- The loop ends: whatever the writer does, as many rounds as the text has bytes are enough, so the
  -- loop gives a result.
  pub write_all_ends :
      (fuel : ℕ) (s : S) (value : Text) → length value ≤ fuel → write_all fuel s value ≢ none
  unfolding write_all
  write_all_ends fuel s [] h = λ e. cc
  write_all_ends zero s (c ∷ value) h = absurd (omega arith)
  write_all_ends (suc fuel) s (c ∷ value) h = elim (Option-cases (writer s (c ∷ value)).1) [
    | inl bad ↦ rw (bad, write_all) (λ e. cc)
    | inr (n, good) ↦ ground (
      arith,
      h,
      good,
      length-drop (pos_part n) (c ∷ value),
      write_all_ends fuel (writer s (c ∷ value)).0 (drop (pos_part n) (c ∷ value)),
    )
  ]
