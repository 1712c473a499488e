-- ===== src/VerificationCard/Tests.antt =====
-- The camera on concrete inputs.
use jolyne.Base.{◌≡◌, ◌≤◌, ◌==◌, refl, true, false, List, [], ◌∷◌, any, length}
use jolyne.VerificationCard.{
  initial, asks_camera, makes_blob, uploads, on_verified, verified, Input, starts, camera_opens,
  plays, closes, captures_image, captures_end, answers, unmounts, react_all,
}
use jolyne.VerificationCard.Camera.{OneByOne, react_all-initial, react_all-left_on}

abbrev inputs : List Input
inputs =
    starts true
    ∷ camera_opens 1
    ∷ plays
    ∷ closes
    ∷ starts true
    ∷ camera_opens 2
    ∷ plays
    ∷ captures_image
    ∷ captures_end true
    ∷ answers (verified 97)
    ∷ []

verifies :
    (react_all inputs initial).1
    ≡ asks_camera ∷ asks_camera ∷ makes_blob ∷ uploads ∷ on_verified ∷ []
unfolding react_all
verifies = refl

released_example :
    let s = (react_all inputs initial).0 in
    (s.is_open ≡ false → s.running ≡ [])
    × (s.mounted ≡ false → s.running ≡ [])
    × (length s.running ≤ 1)
unfolding OneByOne react_all
released_example = react_all-initial inputs (
  (refl, refl, refl),
  (refl, (tt, (tt, ((refl, refl, refl), (refl, (tt, (tt, (tt, (tt, tt))))))))),
)

left_on_example :
    let twice =
      (react_all (starts true ∷ starts true ∷ camera_opens 1 ∷ camera_opens 2 ∷ []) initial).0 in
    let late = (react_all (starts true ∷ unmounts ∷ camera_opens 1 ∷ []) initial).0 in
    (any (λ j. 1 == j) (react_all (closes ∷ unmounts ∷ []) twice).0.running ≡ true)
    × (any (λ j. 1 == j) (react_all (closes ∷ unmounts ∷ []) late).0.running ≡ true)
left_on_example =
    react_all-left_on 1 2 initial (closes ∷ unmounts ∷ []) refl refl refl (tt, (tt, tt))
