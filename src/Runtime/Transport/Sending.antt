-- ===== src/Runtime/Transport/Sending.antt =====
-- The bytes that `send_frame_request` of src/nscde_wayland_common/runtime-client.c has written.
use orca_cde.Prelude.{
  ℕ, zero, suc, ◌+◌, ◌≤◌, ◌<◌, true, List, [], ◌∷◌, ◌++◌, ◌≡◌, refl, sym, ap, ◌∙◌, arith, length,
  length-drop, take, drop, Bytes, append_assoc, append-nil,
}
use orca_cde.Runtime.Transport.{Written, cut_short, accepted, refused, send_frame_request}

pub take-drop {ℓ} : {A : Type ℓ} (n : ℕ) (xs : List A) → xs ≡ take n xs ++ drop n xs
take-drop zero xs = refl
take-drop (suc n) [] = refl
take-drop (suc n) (x ∷ xs) = ap (◌∷◌ x) (take-drop n xs)

-- Whatever the writes answer, the bytes taken are how the request begins, and they are all of
-- it where sending returns true.
pub send_frame_request-whole :
    (text : Bytes) (answers : List Written)
    → (unsent : Bytes) × (text ≡ (send_frame_request text answers).1 ++ unsent)
      × ((send_frame_request text answers).0 ≡ true → unsent ≡ [])
unfolding send_frame_request
send_frame_request-whole [] answers = ([], refl, λ h. refl)
send_frame_request-whole (x ∷ text) [] = (x ∷ text, refl, λ h. cc)
send_frame_request-whole (x ∷ text) (cut_short ∷ answers) =
    send_frame_request-whole (x ∷ text) answers
send_frame_request-whole (x ∷ text) (refused ∷ answers) = (x ∷ text, refl, λ h. cc)
send_frame_request-whole (x ∷ text) (accepted zero ∷ answers) = (x ∷ text, refl, λ h. cc)
send_frame_request-whole (x ∷ text) (accepted (suc n) ∷ answers) =
    let (unsent, e, all) = send_frame_request-whole (drop n text) answers in
    (
      unsent,
      ap (◌∷◌ x)
          (take-drop n text ∙ ap (take n text ++◌) e ∙ sym (append_assoc (take n text) _ unsent)),
      all,
    )

pub send_frame_request-sent :
    (text : Bytes) (answers : List Written)
    → (send_frame_request text answers).0 ≡ true
    → (send_frame_request text answers).1 ≡ text
send_frame_request-sent text answers h =
    let (unsent, e, all) = send_frame_request-whole text answers in
    sym (e ∙ ap ((send_frame_request text answers).1 ++◌) (all h) ∙ append-nil _)

-- Nothing in the schedule is an error, and no `write` takes nothing.
abbrev pub Willing : List Written → Type 0
Willing [] = Unit
Willing (cut_short ∷ answers) = Willing answers
Willing (accepted n ∷ answers) = (0 < n) × Willing answers
Willing (refused ∷ answers) = ⊥

abbrev pub taken : List Written → ℕ
taken [] = 0
taken (cut_short ∷ answers) = taken answers
taken (accepted n ∷ answers) = n + taken answers
taken (refused ∷ answers) = taken answers

-- Where no write fails or takes nothing, and together the writes offer to take as many bytes as
-- the request has, sending returns true and the whole request has been taken.
pub send_frame_request-sends :
    (text : Bytes) (answers : List Written)
    → Willing answers
    → length text ≤ taken answers
    → send_frame_request text answers ≡ (true, text)
unfolding send_frame_request
send_frame_request-sends [] answers w h = refl
send_frame_request-sends (x ∷ text) [] w h = absurd (omega arith)
send_frame_request-sends (x ∷ text) (cut_short ∷ answers) w h =
    send_frame_request-sends (x ∷ text) answers w h
send_frame_request-sends (x ∷ text) (refused ∷ answers) w h = absurd w
send_frame_request-sends (x ∷ text) (accepted zero ∷ answers) w h = absurd (omega (arith, w.0))
send_frame_request-sends (x ∷ text) (accepted (suc n) ∷ answers) w h =
    rw (send_frame_request-sends (drop n text) answers w.1 (omega (arith, length-drop n text)))
      (ap (λ t. (true, x ∷ t)) (sym (take-drop n text)))
