-- ===== src/Command/MaskLaws.antt =====
-- What `redactLocked` hides, and what `addMaskLocked` makes it hide.
use git_ci.Common.{
  Bool, true, false, ◌||◌, inl, inr, List, [], ◌∷◌, ◌++◌, ℕ, zero, suc, ◌-◌, Text, text_eq,
  text_eq_refl, text_eq→eq, has_prefix, contains_text, length, ◌==◌, any, ◌≡◌, refl, ap, ◌∙◌, arith,
  Bool-cases,
}
use git_ci.Schedule.Words.{fields}
use git_ci.Command.State.{State}
use git_ci.Command.Masks.{
  replace_loop, redact, contains_string, insert_mask, sort_masks, count_dynamic, candidate_loop,
  add_mask,
}

-- A mask that the replacement `***` cannot be a part of.
abbrev pub has_star : Text → Bool
has_star mask = any (λ c. c == b'*') mask

-- A prefix without a star of a redacted text is one of the text.
has_prefix-replace_loop :
    (mask s p : Text)
    → has_star p ≡ false
    → has_prefix (replace_loop mask 0 s) p ≡ true
    → has_prefix s p ≡ true
unfolding replace_loop has_prefix
has_prefix-replace_loop mask s [] h e = ground arith
has_prefix-replace_loop mask [] (p ∷ ps) h e = ground arith
has_prefix-replace_loop mask (c ∷ s) (p ∷ ps) h e = elim (Bool-cases (has_prefix (c ∷ s) mask)) [
  | inl b ↦ ground arith
  | inr b ↦ ground (arith, has_prefix-replace_loop mask s ps)
]

-- So is every part without a star.
contains_text-replace_loop :
    (mask : Text) (skip : ℕ) (s : Text) (p : ℕ) (ps : Text)
    → has_star (p ∷ ps) ≡ false
    → contains_text (replace_loop mask skip s) (p ∷ ps) ≡ true
    → contains_text s (p ∷ ps) ≡ true
unfolding replace_loop contains_text
contains_text-replace_loop mask zero [] p ps h e = e
contains_text-replace_loop mask (suc skip) [] p ps h e = e
contains_text-replace_loop mask (suc skip) (c ∷ s) p ps h e =
    ground (arith, contains_text-replace_loop mask skip s p ps)
contains_text-replace_loop mask zero (c ∷ s) p ps h e =
    elim (Bool-cases (has_prefix (c ∷ s) mask)) [
      | inl b ↦
          unfold has_prefix in
          ground (arith, contains_text-replace_loop mask (length mask - 1) s p ps)
      | inr b ↦ ground (
        arith,
        has_prefix-replace_loop mask (c ∷ s) (p ∷ ps),
        contains_text-replace_loop mask 0 s p ps,
      )
    ]

-- The mask itself is no part of the text that it was replaced in.
replace_loop-hides :
    (m : ℕ) (ms : Text) (skip : ℕ) (s : Text)
    → has_star (m ∷ ms) ≡ false
    → contains_text (replace_loop (m ∷ ms) skip s) (m ∷ ms) ≡ false
unfolding replace_loop contains_text
replace_loop-hides m ms zero [] h = unfold has_prefix in refl
replace_loop-hides m ms (suc skip) [] h = unfold has_prefix in refl
replace_loop-hides m ms (suc skip) (c ∷ s) h = replace_loop-hides m ms skip s h
replace_loop-hides m ms zero (c ∷ s) h = elim (Bool-cases (has_prefix (c ∷ s) (m ∷ ms))) [
  | inl b ↦ unfold has_prefix in ground (arith, replace_loop-hides m ms (length ms) s)
  | inr b ↦
      ground (arith, has_prefix-replace_loop (m ∷ ms) (c ∷ s) (m ∷ ms), replace_loop-hides m ms 0 s)
]

redact-keeps :
    (masks : List Text) (v : Text) (p : ℕ) (ps : Text)
    → has_star (p ∷ ps) ≡ false
    → contains_text v (p ∷ ps) ≡ false
    → contains_text (redact masks v) (p ∷ ps) ≡ false
unfolding redact
redact-keeps [] v p ps h e = e
redact-keeps ([] ∷ masks) v p ps h e = redact-keeps masks v p ps h e
redact-keeps ((m ∷ ms) ∷ masks) v p ps h e =
    redact-keeps masks (replace_loop (m ∷ ms) 0 v) p ps h
      (ground (arith, contains_text-replace_loop (m ∷ ms) 0 v p ps))

pub redact-hides :
    (masks : List Text) (v : Text) (p : ℕ) (ps : Text)
    → has_star (p ∷ ps) ≡ false
    → contains_string masks (p ∷ ps) ≡ true
    → contains_text (redact masks v) (p ∷ ps) ≡ false
unfolding redact contains_string
redact-hides [] v p ps h e = cc
redact-hides (mask ∷ masks) v p ps h e = elim (Bool-cases (text_eq mask (p ∷ ps))) [
  | inl b ↦
      rw (text_eq→eq mask (p ∷ ps) b)
        (redact-keeps masks (replace_loop (p ∷ ps) 0 v) p ps h (replace_loop-hides p ps 0 v h))
  | inr b ↦ redact-hides masks _ p ps h (ground arith)
]

contains_string-append :
    (masks : List Text) (value mask : Text)
    → contains_string (masks ++ value ∷ []) mask ≡ contains_string masks mask || text_eq value mask
unfolding contains_string
contains_string-append [] value mask = ground arith
contains_string-append (item ∷ masks) value mask =
    ground (arith, contains_string-append masks value mask)

contains_string-insert_mask :
    (mask : Text) (masks : List Text) (value : Text)
    → contains_string (insert_mask mask masks) value
      ≡ text_eq mask value || contains_string masks value
unfolding contains_string insert_mask
contains_string-insert_mask mask [] value = refl
contains_string-insert_mask mask (other ∷ rest) value =
    ground (arith, contains_string-insert_mask mask rest value)

contains_string-sort_masks :
    (masks : List Text) (value : Text)
    → contains_string (sort_masks masks) value ≡ contains_string masks value
unfolding sort_masks contains_string
contains_string-sort_masks [] value = refl
contains_string-sort_masks (mask ∷ rest) value =
    contains_string-insert_mask mask (sort_masks rest) value
    ∙ ap (λ b. text_eq mask value || b) (contains_string-sort_masks rest value)

-- A mask stays one.
candidate_loop-keeps :
    (dynamic : Bool) (candidates : List Text) (accepted : Bool) (state : State) (mask : Text)
    → contains_string state.masks mask ≡ true
    → contains_string (candidate_loop dynamic candidates accepted state).0.masks mask ≡ true
unfolding candidate_loop
candidate_loop-keeps dynamic [] accepted state mask h =
    contains_string-sort_masks state.masks mask ∙ h
candidate_loop-keeps dynamic (candidate ∷ rest) accepted state mask h = ground (
  arith,
  contains_string-append state.masks candidate mask,
  candidate_loop-keeps dynamic rest accepted state mask,
  candidate_loop-keeps dynamic rest true state mask,
  candidate_loop-keeps dynamic rest true
      (record state {
        masks = state.masks ++ candidate ∷ [];
        dynamic_masks = count_dynamic dynamic state.dynamic_masks;
      })
      mask,
)

pub add_mask-keeps :
    (dynamic : Bool) (value : Text) (state : State) (mask : Text)
    → contains_string state.masks mask ≡ true
    → contains_string (add_mask dynamic value state).0.masks mask ≡ true
unfolding add_mask
add_mask-keeps dynamic value state mask h =
    ground (arith, candidate_loop-keeps dynamic (value ∷ fields value) false state mask)

-- A value that is accepted is a mask from then on.
pub add_mask-contains :
    (dynamic : Bool) (value : Text) (state : State)
    → (add_mask dynamic value state).1 ≡ true
    → contains_string (add_mask dynamic value state).0.masks value ≡ true
unfolding add_mask candidate_loop
add_mask-contains dynamic [] state h = cc
add_mask-contains dynamic (c ∷ s) state h = ground (
  arith,
  text_eq_refl (c ∷ s),
  contains_string-append state.masks (c ∷ s) (c ∷ s),
  candidate_loop-keeps dynamic (fields (c ∷ s)) true state (c ∷ s),
  candidate_loop-keeps dynamic (fields (c ∷ s)) true
      (record state {
        masks = state.masks ++ (c ∷ s) ∷ [];
        dynamic_masks = count_dynamic dynamic state.dynamic_masks;
      })
      (c ∷ s),
)
