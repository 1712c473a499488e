-- ===== src/Session/Laws.antt =====
-- What survives a reload, and when a scenario is left.
use jolyne.Base.{◌≡◌, refl, ◌∙◌, Bool, List, [], ◌∷◌, Option, String, arith}
use jolyne.Session.{SessionState, Setting, sets_bot_mode, sets_scenario, partialize, apply}

abbrev pub apply_all : List Setting → SessionState → SessionState
apply_all [] s = s
apply_all (x ∷ l) s = apply_all l (apply x s)

-- The settings that do not concern the AI teacher.
abbrev pub persistent : List Setting → List Setting
persistent [] = []
persistent (sets_bot_mode v ∷ l) = persistent l
persistent (sets_scenario v ∷ l) = persistent l
persistent (x ∷ l) = x ∷ persistent l

apply-partialize :
    (x : Setting) (s t : SessionState)
    → partialize s ≡ partialize t
    → partialize (apply x s) ≡ partialize (apply x t)
unfolding partialize apply
apply-partialize (sets_bot_mode v) s t h = ground arith
apply-partialize _ s t h = ground arith

partialize_bot_mode :
    (v : Bool) (s : SessionState) → partialize (apply (sets_bot_mode v) s) ≡ partialize s
unfolding partialize apply
partialize_bot_mode v s = ground arith

partialize_scenario :
    (v : Option String) (s : SessionState) → partialize (apply (sets_scenario v) s) ≡ partialize s
unfolding partialize apply
partialize_scenario v s = refl

partialize_all :
    (l : List Setting) (s t : SessionState)
    → partialize s ≡ partialize t
    → partialize (apply_all l s) ≡ partialize (apply_all (persistent l) t)
partialize_all [] s t h = h
partialize_all (sets_bot_mode v ∷ l) s t h =
    partialize_all l (apply (sets_bot_mode v) s) t (partialize_bot_mode v s ∙ h)
partialize_all (sets_scenario v ∷ l) s t h =
    partialize_all l (apply (sets_scenario v) s) t (partialize_scenario v s ∙ h)
partialize_all (x ∷ l) s t h = partialize_all l (apply x s) (apply x t) (apply-partialize x s t h)

-- What is written to localStorage does not depend on the mode of the AI teacher and its scenario:
-- a history of settings leaves the same as the history with those two kinds of settings left out.
pub partialize-apply_all :
    (l : List Setting) (s : SessionState)
    → partialize (apply_all l s) ≡ partialize (apply_all (persistent l) s)
partialize-apply_all l s = partialize_all l s s refl
