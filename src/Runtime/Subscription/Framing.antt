-- ===== src/Runtime/Subscription/Framing.antt =====
-- The delimiter that `extract_frame_from_buffer` of src/nscde_wayland_common/runtime-client.c looks
-- for, in a stream of bytes.
use orca_cde.Prelude.{
  ℕ, suc, true, false, ◌&&◌, Option, none, some, [], ◌∷◌, ◌++◌, ◌≡◌, ◌≢◌, subst, refl, sym, ap, ◌∙◌,
  ◌⊎◌, inl, inr, arith, ◌==◌, length, take, drop, append_assoc, Bytes, starts_with, Bool-cases,
}
use orca_cde.Runtime.Subscription.{find_frame_delim, raise}

abbrev pub delim : Bytes
delim = b'\n' ∷ b'\n' ∷ []

-- The text of one frame: its first delimiter is the one behind it.
abbrev pub IsFrameText : Bytes → Type 0
IsFrameText text = find_frame_delim (text ++ delim) ≡ some (length text)

-- The search moves on over a byte that is no zero and begins no delimiter.
find-cons :
    (x : ℕ) (s : Bytes)
    → (x == 0) ≡ false
    → (x == b'\n' && starts_with (b'\n' ∷ []) s) ≡ false
    → find_frame_delim (x ∷ s) ≡ raise (find_frame_delim s)
unfolding find_frame_delim
find-cons x s z d = rw (z, d)

pub find-nil : find_frame_delim [] ≡ none
unfolding find_frame_delim
find-nil = refl

find-head :
    (x : ℕ) (s : Bytes)
    → (x == 0) ≡ false
    → (x == b'\n' && starts_with (b'\n' ∷ []) s) ≡ true
    → find_frame_delim (x ∷ s) ≡ some 0
unfolding find_frame_delim
find-head x s z d = rw (z, d)

raise-some : (o : Option ℕ) {i : ℕ} → raise o ≡ some i → (j : ℕ) × (o ≡ some j) × (i ≡ suc j)
raise-some none h = cc
raise-some (some j) h = (j, refl, ground arith)

-- A found delimiter stands at the head, or further on behind a byte that is passed over.
find_cases :
    (x : ℕ) (s : Bytes) {i : ℕ}
    → find_frame_delim (x ∷ s) ≡ some i
    → ((x == 0) ≡ false)
      × (((i ≡ 0) × (x ≡ b'\n') × (starts_with (b'\n' ∷ []) s ≡ true))
          ⊎ (((x == b'\n' && starts_with (b'\n' ∷ []) s) ≡ false)
              × ((j : ℕ) × (find_frame_delim s ≡ some j) × (i ≡ suc j))))
find_cases x s {i} h = elim (Bool-cases (x == 0)) [
  | inl z ↦ cc (stopped z, h)
  | inr z ↦ elim (Bool-cases (x == b'\n' && starts_with (b'\n' ∷ []) s)) [
    | inl d ↦ (z, inl (ground (arith, find-head x s z d), ground arith, ground arith))
    | inr d ↦ (z, inr (d, raise-some _ (sym (find-cons x s z d) ∙ h)))
  ]
]
  where
    stopped : (x == 0) ≡ true → find_frame_delim (x ∷ s) ≡ none
    stopped z = unfold find_frame_delim in rw z

starts_with_newline : (s : Bytes) → starts_with (b'\n' ∷ []) s ≡ true → s ≡ b'\n' ∷ drop 1 s
unfolding starts_with
starts_with_newline [] h = cc
starts_with_newline (y ∷ s) h = ground arith

-- What follows a text of at least one byte does not change how it begins.
starts_with-append :
    (s more : Bytes)
    → find_frame_delim s ≢ none
    → starts_with (b'\n' ∷ []) (s ++ more) ≡ starts_with (b'\n' ∷ []) s
unfolding find_frame_delim starts_with
starts_with-append [] more h = absurd (h refl)
starts_with-append (y ∷ s) more h = refl

starts_with_more :
    (s more : Bytes)
    → starts_with (b'\n' ∷ []) s ≡ true
    → starts_with (b'\n' ∷ []) (s ++ more) ≡ true
unfolding starts_with
starts_with_more [] more h = cc
starts_with_more (y ∷ s) more h = h

-- What comes later does not move a delimiter that is there.
pub find-append :
    (s more : Bytes) {i : ℕ} → find_frame_delim s ≡ some i → find_frame_delim (s ++ more) ≡ some i
find-append [] more h = cc (find-nil, h)
find-append (x ∷ s) more {i} h =
    let (z, where_found) = find_cases x s h in
    elim where_found [
      | inl (i-is, x-is, d) ↦
          find-head x (s ++ more) z (ground (arith, starts_with_more s more d)) ∙ ap some (sym i-is)
      | inr (d, (j, found, i-is)) ↦
          let s-ne : find_frame_delim s ≢ none = λ e. cc (e, found) in
          find-cons x (s ++ more) z (rw (starts_with-append s more s-ne) d)
          ∙ ap raise (find-append s more found)
          ∙ ap some (sym i-is)
    ]

-- At offset `i` the text splits into a frame, a delimiter and what follows.
abbrev Splits : Bytes → ℕ → Type 0
Splits s i =
    (s ≡ take i s ++ (delim ++ drop (suc (suc i)) s))
    × (length (take i s) ≡ i)
    × IsFrameText (take i s)

IsFrameText-nil : IsFrameText []
unfolding find_frame_delim starts_with
IsFrameText-nil = refl

-- A byte in front of a frame's text, passed over in the whole, is passed over in the frame.
IsFrameText-cons :
    (x : ℕ) (s text rest : Bytes)
    → (x == 0) ≡ false
    → (x == b'\n' && starts_with (b'\n' ∷ []) s) ≡ false
    → s ≡ text ++ (delim ++ rest)
    → IsFrameText text
    → IsFrameText (x ∷ text)
IsFrameText-cons x s text rest z d e first =
    let same : starts_with (b'\n' ∷ []) s ≡ starts_with (b'\n' ∷ []) (text ++ delim) =
      ap (starts_with (b'\n' ∷ [])) (e ∙ sym (append_assoc text delim rest))
      ∙ starts_with-append (text ++ delim) rest (λ n. cc (n, first)) in
    find-cons x (text ++ delim) z (rw same at d) ∙ ap raise first

pub find-Splits : (s : Bytes) {i : ℕ} → find_frame_delim s ≡ some i → Splits s i
find-Splits [] h = cc (find-nil, h)
find-Splits (x ∷ s) {i} h =
    let (z, where_found) = find_cases x s h in
    elim where_found [
      | inl (i-is, x-is, d) ↦
          subst (Splits (x ∷ s)) (sym i-is)
            (ground (arith, starts_with_newline s d), refl, IsFrameText-nil)
      | inr (d, (j, found, i-is)) ↦
          let (splits, long, first) = find-Splits s found in
          subst (Splits (x ∷ s)) (sym i-is)
            (ap (◌∷◌ x) splits, ap suc long, IsFrameText-cons x s (take j s) _ z d splits first)
    ]
