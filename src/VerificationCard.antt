-- ===== src/VerificationCard.antt =====
-- frontend/src/components/account/VerificationCard.tsx: the verification of a profile by a selfie, with
-- the camera. The browser's answers and the server's are inputs; a canvas that gives no context is left
-- out.
pub mod Camera
pub mod Tests
use jolyne.Base.{
  ℕ, ◌+◌, ◌-◌, Bool, true, false, not, ◌&&◌, ◌||◌, List, [], ◌∷◌, ◌++◌, Option, none, some, is_some,
  keep, ◌==◌, ltb, String, if◌then◌else◌,
}

-- `running` holds the streams whose tracks are on, `asked` counts the calls of `getUserMedia` that are
-- pending, and `captures` those of `toBlob`. `streamRef` follows `stream`.
pub record VerificationCard : Type 0 where
  pub is_open : Bool
  pub stream : Option ℕ
  pub video_ready : Bool
  pub loading : Bool
  pub error : Option String
  pub success : Bool
  pub confidence : Option ℕ
  pub mounted : Bool
  pub running : List ℕ
  pub asked : ℕ
  pub captures : ℕ

abbrev pub initial : VerificationCard
initial = record {
  is_open = false;
  stream = none;
  video_ready = false;
  loading = false;
  error = none;
  success = false;
  confidence = none;
  mounted = true;
  running = [];
  asked = 0;
  captures = 0;
}

pub data Effect : Type 0 where
  asks_camera makes_blob uploads on_verified : Effect

-- `s.getTracks().forEach((track) => track.stop())`
abbrev pub stop_tracks : Option ℕ → List ℕ → List ℕ
stop_tracks none running = running
stop_tracks (some id) running = keep (λ j. not (id == j)) running

unfoldable pub stop_camera : VerificationCard → VerificationCard
stop_camera s =
    if is_some s.stream
    then record s { running = stop_tracks s.stream s.running; stream = none; video_ready = false }
    else s

-- The cleanup at the end of the component.
unfoldable pub unmount : VerificationCard → VerificationCard
unmount s = record s { running = stop_tracks s.stream s.running; mounted = false }

abbrev pub no_camera : String
no_camera =
    "La caméra n'est pas accessible. Assurez-vous d'utiliser une connexion sécurisée HTTPS (https://) et non HTTP (http://)."

abbrev pub no_access : String
no_access = "Impossible d'accéder à votre caméra. Veuillez autoriser l'accès pour continuer."

-- `startCamera` up to the answer of the browser; `supported` tells whether there is `getUserMedia`.
unfoldable pub start_camera : (supported : Bool) → VerificationCard → VerificationCard × List Effect
start_camera supported s =
    let s' = record s { error = none; success = false } in
    if not supported
    then (record s' { error = some no_camera }, [])
    else (record s' { asked = s.asked + 1 }, asks_camera ∷ [])

-- The stream is there. A component that is gone keeps nothing of it.
unfoldable pub camera_opened : ℕ → VerificationCard → VerificationCard
camera_opened id s =
    let s' = record s { asked = s.asked - 1; running = id ∷ s.running } in
    if s.mounted then record s' { stream = some id; is_open = true } else s'

unfoldable pub camera_refused : VerificationCard → VerificationCard
camera_refused s = record s { asked = s.asked - 1; error = some no_access }

-- `captureAndVerify`, whose button is there in the open window once the video plays, up to `toBlob`.
unfoldable pub capture : VerificationCard → VerificationCard × List Effect
capture s =
    if s.is_open && s.video_ready
    then (record s { loading = true; error = none; captures = s.captures + 1 }, makes_blob ∷ [])
    else (s, [])

unfoldable pub captured : (made : Bool) → VerificationCard → VerificationCard × List Effect
unfolding stop_camera
captured made s =
    let s' = record s { captures = s.captures - 1 } in
    if made
    then (record (stop_camera s') { is_open = false }, uploads ∷ [])
    else (record s' { error = some "Échec de la capture d'image."; loading = false }, [])

-- The server's answer: the confidence where the face is that of the profile, and the message otherwise.
pub data Answer : Type 0 where
  verified : (confidence : ℕ) → Answer
  refused : Option String → Answer
  failed : (message : String) → Answer

abbrev pub refusal_or : Option String → String
refusal_or none = "Le visage ne correspond pas à la photo de profil principale."
refusal_or (some message) = message

unfoldable pub answered : Answer → VerificationCard → VerificationCard × List Effect
answered (verified confidence) s =
    (record s { success = true; confidence = some confidence; loading = false }, on_verified ∷ [])
answered (refused message) s = (record s { error = some (refusal_or message); loading = false }, [])
answered (failed message) s = (record s { error = some message; loading = false }, [])

pub data Input : Type 0 where
  starts : (supported : Bool) → Input
  camera_opens : (id : ℕ) → Input
  camera_refuses plays closes captures_image unmounts : Input
  captures_end : (made : Bool) → Input
  answers : Answer → Input

unfoldable pub react : Input → VerificationCard → VerificationCard × List Effect
unfolding start_camera camera_opened camera_refused stop_camera unmount capture captured answered
react (starts supported) s = start_camera supported s
react (camera_opens id) s = (camera_opened id s, [])
react camera_refuses s = (camera_refused s, [])
react plays s = (record s { video_ready = s.video_ready || (s.is_open && is_some s.stream) }, [])
react closes s = (record (stop_camera s) { is_open = false }, [])
react captures_image s = capture s
react (captures_end made) s = captured made s
react (answers a) s = answered a s
react unmounts s = (unmount s, [])

unfoldable pub react_all : List Input → VerificationCard → VerificationCard × List Effect
unfolding react
react_all [] s = (s, [])
react_all (i ∷ is) s =
    let (s', out) = react i s in let (t, rest) = react_all is s' in (t, out ++ rest)
