-- ===== src/FriendChat/Selection.antt =====
-- The selection of messages in frontend/src/components/friends/FriendConversation.tsx, and the
-- deletion of those that are selected.
use jolyne.Base.{
  ℕ, ◌+◌, ◌%◌, ◌≡◌, refl, sym, ◌∙◌, Bool, false, not, ◌&&◌, List, [], ◌∷◌, ◌++◌, Option, none, some,
  any, keep, ltb, ◌==◌, String, str_eq, if◌then◌else◌, if_cases, All, true, arith, Bool-cases, inl,
  inr, map, ap,
}
use mathlib.Core.Path.{subst}
use jolyne.Base.Text.{is_empty}
use jolyne.Learn.Counting.{count, count-append}
use jolyne.FriendSocket.{FriendMessage}
use jolyne.FriendChat.{FriendChat, toggle_selected, clear_selection}

-- A text that is there and not empty, in a test.
abbrev pub is_truthy : Option String → Bool
is_truthy none = false
is_truthy (some s) = not (is_empty s)

-- `m.kind && m.kind !== "user"`
abbrev pub is_system : FriendMessage → Bool
is_system m = elim m.kind [ none ↦ false | some k ↦ not (is_empty k) && not (str_eq k "user") ]

-- The bubble of the message lets it be selected.
unfoldable pub is_selectable : (user_id : ℕ) → FriendMessage → Bool
is_selectable user_id m =
    not (is_system m) && m.sender_id == user_id && not (is_truthy m.deleted_at)

-- `selectionMode`
abbrev pub selecting : List ℕ → Bool
selecting [] = false
selecting (j ∷ ids) = true

-- `onEnterSelection` and `onToggleSelected` of the bubble of m.
unfoldable pub enter_selection : (user_id : ℕ) → FriendMessage → FriendChat → FriendChat
unfolding is_selectable
enter_selection user_id m s =
    if is_selectable user_id m then record s { selected_ids = m.id ∷ [] } else s

-- `handleClick` of frontend/src/components/chat/MessageBubble.tsx, as far as it selects.
unfoldable pub toggle : (user_id : ℕ) → FriendMessage → FriendChat → FriendChat
unfolding is_selectable toggle_selected
toggle user_id m s =
    if selecting s.selected_ids && is_selectable user_id m then toggle_selected m.id s else s

-- A press of half a second or more, and the click that ends it: the click is left out where the press
-- has begun the selection, and counts where the selection was on.
unfoldable pub long_press : (user_id : ℕ) → FriendMessage → FriendChat → FriendChat
unfolding enter_selection toggle
long_press user_id m s =
    if selecting s.selected_ids then toggle user_id m s else enter_selection user_id m s

pub data Gesture : Type 0 where
  clicks presses_long : FriendMessage → Gesture

abbrev pub message_of : Gesture → FriendMessage
message_of (clicks m) = m
message_of (presses_long m) = m

unfoldable pub gesture : (user_id : ℕ) → Gesture → FriendChat → FriendChat
unfolding toggle long_press
gesture user_id (clicks m) s = toggle user_id m s
gesture user_id (presses_long m) s = long_press user_id m s

-- The confirmation of the deletion, with the calls of `delete` of the connection.
unfoldable pub bulk_delete : FriendChat → FriendChat × List ℕ
unfolding clear_selection
bulk_delete s = (clear_selection s, s.selected_ids)

unfoldable pub gesture_all : (user_id : ℕ) → List Gesture → FriendChat → FriendChat
unfolding gesture
gesture_all user_id [] s = s
gesture_all user_id (g ∷ gs) s = gesture_all user_id gs (gesture user_id g s)

module _ (user_id id : ℕ) where
  count-any : (ids : List ℕ) → any (λ j. id == j) ids ≡ ltb 0 (count (λ j. id == j) ids)
  count-any [] = refl
  count-any (j ∷ ids) = ground (arith, count-any ids)

  count-keep :
      (k : ℕ) (ids : List ℕ)
      → count (λ j. id == j) (keep (λ j. not (k == j)) ids)
        ≡ (if id == k then 0 else count (λ j. id == j) ids)
  count-keep k [] = ground arith
  count-keep k (j ∷ ids) = ground (arith, count-keep k ids)

  -- A gesture on the bubble of the message, which lets it be selected.
  abbrev pub is_on : Gesture → Bool
  is_on g = is_selectable user_id (message_of g) && id == (message_of g).id

  abbrev pub selections : FriendChat → ℕ
  selections s = count (λ j. id == j) s.selected_ids

  count-toggle_selected :
      (k c : ℕ) (s : FriendChat)
      → selections s ≡ c % 2
      → selections (toggle_selected k s) ≡ (c + (if id == k then 1 else 0)) % 2
  unfolding toggle_selected
  count-toggle_selected k c s h = elim (Bool-cases (id == k)) [
    | inl e ↦
        (let same : k ≡ id = ground (arith, e) in
          subst
            (λ j.
              count (λ i. id == i)
                (if any (λ i. j == i) s.selected_ids
                  then keep (λ i. not (j == i)) s.selected_ids
                  else s.selected_ids ++ j ∷ [])
              ≡ (c + (if id == j then 1 else 0)) % 2)
            (sym same)
            (ground (
              arith,
              h,
              count-any s.selected_ids,
              count-keep id s.selected_ids,
              count-append (λ i. id == i) s.selected_ids (id ∷ []),
            )))
    | inr e ↦ ground (
      arith,
      h,
      e,
      count-keep k s.selected_ids,
      count-append (λ i. id == i) s.selected_ids (k ∷ []),
    )
  ]

  -- While something is selected, each gesture on a message toggles it.
  gesture-selecting :
      (g : Gesture) (s : FriendChat)
      → selecting s.selected_ids ≡ true
      → gesture user_id g s
        ≡ (if is_selectable user_id (message_of g) then toggle_selected (message_of g).id s else s)
  unfolding gesture long_press toggle
  gesture-selecting (clicks m) s e = rw e refl
  gesture-selecting (presses_long m) s e = rw e refl

  count-gesture :
      (g : Gesture) (s : FriendChat) (c : ℕ)
      → selecting s.selected_ids ≡ true
      → selections s ≡ c % 2
      → selections (gesture user_id g s) ≡ (c + (if is_on g then 1 else 0)) % 2
  count-gesture g s c on h =
      let m = message_of g in
      rw (gesture-selecting g s on) (
        if_cases (λ u. selections u ≡ (c + (if is_on g then 1 else 0)) % 2)
          (is_selectable user_id m) (toggle_selected m.id s) s
          (λ e. rw e (count-toggle_selected m.id c s h)) (λ e. ground (arith, e, h)))

count-selecting : (p : ℕ → Bool) (ids : List ℕ) → count p ids ≡ 1 % 2 → selecting ids ≡ true
count-selecting p [] h = cc
count-selecting p (j ∷ ids) h = refl

count-gesture_all :
    (user_id id first : ℕ) (gs : List Gesture) (s : FriendChat) (c : ℕ)
    → All (λ g. is_on user_id first g ≡ false) gs
    → selections user_id first s ≡ 1 % 2
    → selections user_id id s ≡ c % 2
    → selections user_id id (gesture_all user_id gs s) ≡ (c + count (is_on user_id id) gs) % 2
unfolding gesture_all
count-gesture_all user_id id first [] s c a f h = h ∙ omega arith
count-gesture_all user_id id first (g ∷ gs) s c (n, a) f h =
    let on = count-selecting (λ j. first == j) s.selected_ids f in
    let kept : selections user_id first (gesture user_id g s) ≡ 1 % 2 =
      ground (arith, count-gesture user_id first g s 1 on f, n) in
    count-gesture_all user_id id first gs (gesture user_id g s)
      (c + (if is_on user_id id g then 1 else 0)) a kept (count-gesture user_id id g s c on h)
    ∙ omega arith

click-unselected :
    (user_id : ℕ) (m : FriendMessage) (s : FriendChat)
    → s.selected_ids ≡ []
    → gesture user_id (clicks m) s ≡ s
unfolding gesture toggle
click-unselected user_id m s e =
    let off : selecting s.selected_ids ≡ false = rw e refl in rw off refl

clicks-unselected :
    (user_id : ℕ) (ms : List FriendMessage) (s : FriendChat)
    → s.selected_ids ≡ []
    → gesture_all user_id (map clicks ms) s ≡ s
unfolding gesture_all
clicks-unselected user_id [] s e = refl
clicks-unselected user_id (m ∷ ms) s e =
    ap (gesture_all user_id (map clicks ms)) (click-unselected user_id m s e)
    ∙ clicks-unselected user_id ms s e

-- Where nothing is selected, clicks on bubbles select nothing, and a long press on the bubble of an own
-- message that is not deleted begins a selection. Whatever bubbles are clicked or pressed then, as long
-- as that one is not among them, the confirmed deletion deletes exactly once the message pressed first,
-- and each other message whose own, undeleted bubble was clicked or pressed since an odd number of
-- times, and it deletes nothing else.
pub count-bulk_delete :
    (user_id id : ℕ) (ms : List FriendMessage) (m : FriendMessage) (gs : List Gesture)
    (s : FriendChat)
    → s.selected_ids ≡ []
    → is_selectable user_id m ≡ true
    → All (λ g. is_on user_id m.id g ≡ false) gs
    → let begun = gesture user_id (presses_long m) (gesture_all user_id (map clicks ms) s) in
      count (λ j. id == j) (bulk_delete (gesture_all user_id gs begun)).1
      ≡ (count (is_on user_id id) gs + (if id == m.id then 1 else 0)) % 2
unfolding bulk_delete
count-bulk_delete user_id id ms m gs s e b a =
    let begun : (gesture user_id (presses_long m) s).selected_ids ≡ m.id ∷ [] =
      unfold gesture in unfold long_press in unfold enter_selection in rw e (rw b refl) in
    rw (clicks-unselected user_id ms s e) (
      count-gesture_all user_id id m.id gs (gesture user_id (presses_long m) s)
        (if id == m.id then 1 else 0) a (rw begun (ground arith)) (rw begun (ground arith))
      ∙ omega arith)
