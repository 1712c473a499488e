-- ===== src/Notify/Tests.antt =====
-- The notification store on concrete calls.
use jolyne.Base.{◌≡◌, refl, [], ◌∷◌}
use jolyne.Notify.{NotificationState, initial, select_total_unread}

abbrev unread_two : NotificationState
unread_two = record initial { unread_by_friend = (4, 2) ∷ (7, 1) ∷ [] }

total : select_total_unread unread_two ≡ 3
unfolding select_total_unread
total = refl
