-- ===== src/VerificationCard/Camera.antt =====
-- frontend/src/components/account/VerificationCard.tsx: which streams of the camera are on.
use jolyne.Base.{
  ℕ, ◌≤◌, length, ◌≡◌, ◌≢◌, refl, true, false, List, [], ◌∷◌, Option, none, some, any, ◌==◌, All,
  arith, Bool-cases, inl, inr,
}
use jolyne.VerificationCard.{
  VerificationCard, initial, stop_tracks, stop_camera, unmount, start_camera, camera_opened,
  camera_refused, capture, captured, verified, refused, failed, answered, Input, starts,
  camera_opens, camera_refuses, plays, closes, captures_image, unmounts, captures_end, answers,
  react, react_all,
}

-- The camera is asked for only while it is not open and no request is pending, and the component goes
-- away with none pending; a stream comes only for a request, with the component there.
abbrev pub Allows : VerificationCard → Input → Type 0
Allows s (starts supported) = (s.asked ≡ 0) × (s.stream ≡ none) × (s.mounted ≡ true)
Allows s (camera_opens id) = s.asked ≡ 1
Allows s unmounts = s.asked ≡ 0
Allows s _ = Unit

unfoldable pub OneByOne : List Input → VerificationCard → Type 0
OneByOne [] s = Unit
OneByOne (i ∷ is) s = Allows s i × OneByOne is (react i s).0

abbrev only : Option ℕ → List ℕ
only none = []
only (some id) = id ∷ []

-- The stream of the open window is the one that is on.
record Inv (s : VerificationCard) : Type 0 where
  on : s.mounted ≡ true → s.running ≡ only s.stream
  off : s.mounted ≡ false → (s.running ≡ []) × (s.asked ≡ 0)
  shut : s.is_open ≡ false → s.mounted ≡ true → s.stream ≡ none
  lone : s.asked ≢ 0 → s.stream ≡ none

react-Inv : (i : Input) (s : VerificationCard) → Allows s i → Inv s → Inv (react i s).0
unfolding react start_camera camera_opened camera_refused stop_camera unmount capture captured
    answered
react-Inv (starts supported) s a h = record {
  on = ground (arith, h.on);
  off = ground (arith, a);
  shut = ground (arith, h.shut);
  lone = ground (arith, a);
}
react-Inv (camera_opens id) s a h = record {
  on = ground (arith, a, h.on, h.off, h.lone);
  off = ground (arith, a, h.off);
  shut = ground (arith, a, h.shut, h.off);
  lone = ground (arith, a, h.lone);
}
react-Inv closes s a h = record {
  on = ground (arith, h.on);
  off = ground (arith, h.off);
  shut = ground (arith, h.shut);
  lone = ground (arith, h.lone);
}
react-Inv unmounts s a h = record {
  on = ground (arith, h.on);
  off = ground (arith, a, h.on, h.off);
  shut = ground (arith, h.shut);
  lone = ground (arith, h.lone);
}
react-Inv (captures_end made) s a h = record {
  on = ground (arith, h.on);
  off = ground (arith, h.off);
  shut = ground (arith, h.shut);
  lone = ground (arith, h.lone);
}
react-Inv camera_refuses s a h = record {
  on = h.on;
  off = λ e. ((h.off e).0, omega (arith, (h.off e).1));
  shut = h.shut;
  lone = λ e. h.lone (omega arith);
}
react-Inv plays s a h = record { on = h.on; off = h.off; shut = h.shut; lone = h.lone }
react-Inv captures_image s a h = record {
  on = ground (arith, h.on);
  off = ground (arith, h.off);
  shut = ground (arith, h.shut);
  lone = ground (arith, h.lone);
}
react-Inv (answers (verified confidence)) s a h = record {
  on = h.on;
  off = h.off;
  shut = h.shut;
  lone = h.lone;
}
react-Inv (answers (refused message)) s a h = record {
  on = h.on;
  off = h.off;
  shut = h.shut;
  lone = h.lone;
}
react-Inv (answers (failed message)) s a h = record {
  on = h.on;
  off = h.off;
  shut = h.shut;
  lone = h.lone;
}

react_all-Inv :
    (is : List Input) (s : VerificationCard) → OneByOne is s → Inv s → Inv (react_all is s).0
unfolding react_all OneByOne
react_all-Inv [] s o h = h
react_all-Inv (i ∷ is) s (a, o) h = react_all-Inv is (react i s).0 o (react-Inv i s a h)

length-only : (stream : Option ℕ) → length (only stream) ≤ 1
length-only none = omega arith
length-only (some id) = omega arith

Inv-released :
    (s : VerificationCard)
    → Inv s
    → (s.is_open ≡ false → s.running ≡ [])
      × (s.mounted ≡ false → s.running ≡ [])
      × (length s.running ≤ 1)
Inv-released s h = elim (Bool-cases s.mounted) [
  | inl m ↦
      (λ e. rw (h.on m, h.shut e m) refl, λ e. absurd (cc), rw (h.on m) (length-only s.stream))
  | inr m ↦ (λ e. (h.off m).0, λ e. (h.off m).0, rw ((h.off m).0) (omega arith))
]

-- As long as the camera is asked for one at a time, and the component is there when it answers, no
-- stream is on while the window is shut, nor once the component is gone, and one at most is on while
-- the window is open.
pub react_all-initial :
    (is : List Input)
    → OneByOne is initial
    → let s = (react_all is initial).0 in
      (s.is_open ≡ false → s.running ≡ [])
      × (s.mounted ≡ false → s.running ≡ [])
      × (length s.running ≤ 1)
react_all-initial is o = Inv-released (react_all is initial).0 (
    react_all-Inv is initial o
      (record { on = λ e. refl; off = λ e. cc; shut = λ e f. refl; lone = λ e. refl }))

-- A stream that is on and is not that of the window.
record Lost (id : ℕ) (s : VerificationCard) : Type 0 where
  on : any (λ j. id == j) s.running ≡ true
  apart : s.stream ≢ some id

abbrev pub IsOther : ℕ → Input → Type 0
IsOther id (camera_opens j) = (id == j) ≡ false
IsOther id _ = Unit

any-stop_tracks :
    (id : ℕ) (stream : Option ℕ) (running : List ℕ)
    → stream ≢ some id
    → any (λ j. id == j) running ≡ true
    → any (λ j. id == j) (stop_tracks stream running) ≡ true
any-stop_tracks id none running n h = h
any-stop_tracks id (some k) [] n h = h
any-stop_tracks id (some k) (j ∷ running) n h =
    ground (arith, any-stop_tracks id (some k) running n)

react-Lost :
    (id : ℕ) (i : Input) (s : VerificationCard) → IsOther id i → Lost id s → Lost id (react i s).0
unfolding react start_camera camera_opened camera_refused stop_camera unmount capture captured
    answered
react-Lost id (camera_opens j) s o h = record {
  on = ground (arith, h.on);
  apart = λ e. ground (arith, e, h.apart);
}
react-Lost id closes s o h = record {
  on = ground (arith, h.on, any-stop_tracks id s.stream s.running h.apart);
  apart = λ e. ground (arith, e, h.apart);
}
react-Lost id unmounts s o h = record {
  on = any-stop_tracks id s.stream s.running h.apart h.on;
  apart = h.apart;
}
react-Lost id (captures_end made) s o h = record {
  on = ground (arith, h.on, any-stop_tracks id s.stream s.running h.apart);
  apart = λ e. ground (arith, e, h.apart);
}
react-Lost id (answers (verified c)) s o h = record { on = h.on; apart = h.apart }
react-Lost id (answers (refused m)) s o h = record { on = h.on; apart = h.apart }
react-Lost id (answers (failed m)) s o h = record { on = h.on; apart = h.apart }
react-Lost id i s o h = record {
  on = ground (arith, h.on);
  apart = λ e. ground (arith, e, h.apart);
}

react_all-Lost :
    (id : ℕ) (is : List Input) (s : VerificationCard)
    → All (IsOther id) is
    → Lost id s
    → Lost id (react_all is s).0
unfolding react_all
react_all-Lost id [] s o h = h
react_all-Lost id (i ∷ is) s (o, os) h =
    react_all-Lost id is (react i s).0 os (react-Lost id i s o h)

twice-Lost :
    (a b : ℕ) (s : VerificationCard)
    → (a == b) ≡ false
    → s.mounted ≡ true
    → Lost a (react_all (starts true ∷ starts true ∷ camera_opens a ∷ camera_opens b ∷ []) s).0
unfolding react_all react start_camera camera_opened
twice-Lost a b s n m = record { on = ground (arith, m); apart = λ e. ground (arith, e, m) }

late-Lost :
    (a : ℕ) (s : VerificationCard)
    → s.stream ≡ none
    → Lost a (react_all (starts true ∷ unmounts ∷ camera_opens a ∷ []) s).0
unfolding react_all react start_camera camera_opened unmount
late-Lost a s n = record { on = ground (arith, n); apart = λ e. ground (arith, e, n) }

-- Where the button is pressed twice before the browser answers, or the component goes away before it
-- does, a stream of the camera stays on whatever comes later: the first of the two streams, and that of
-- the component which is gone.
pub react_all-left_on :
    (a b : ℕ) (s : VerificationCard) (is : List Input)
    → (a == b) ≡ false
    → s.mounted ≡ true
    → s.stream ≡ none
    → All (IsOther a) is
    → let twice =
        (react_all (starts true ∷ starts true ∷ camera_opens a ∷ camera_opens b ∷ []) s).0 in
      let late = (react_all (starts true ∷ unmounts ∷ camera_opens a ∷ []) s).0 in
      (any (λ j. a == j) (react_all is twice).0.running ≡ true)
      × (any (λ j. a == j) (react_all is late).0.running ≡ true)
react_all-left_on a b s is n m e o = (
  (react_all-Lost a is _ o (twice-Lost a b s n m)).on,
  (react_all-Lost a is _ o (late-Lost a s e)).on,
)
