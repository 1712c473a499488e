-- ===== src/Notify/Totals.antt =====
-- The counters of unread messages and their sum.
use jolyne.Base.{
  ℕ, ◌+◌, ◌≡◌, refl, inl, inr, not, List, [], ◌∷◌, ◌==◌, if◌then◌else◌, if_cases, arith, Bool-cases,
}
use jolyne.Base.Assoc.{
  has_key, insert, remove, IsKeyed, lookup-insert, lookup-remove, lookup_absent, insert-IsKeyed,
  remove-IsKeyed, remove_absent,
}
use jolyne.Notify.{
  NotificationState, Action, act, unread, total_of, increment_unread, clear_unread,
  select_total_unread,
}

pub total_of-insert :
    (k n : ℕ) (m : List (ℕ × ℕ)) → total_of (insert k n m) + unread k m ≡ total_of m + n
total_of-insert k n [] = omega arith
total_of-insert k n ((j, w) ∷ m) = ground (arith, total_of-insert k n m)

total_of-remove :
    (k : ℕ) (m : List (ℕ × ℕ)) → IsKeyed m → total_of (remove k m) + unread k m ≡ total_of m
total_of-remove k [] h = refl
total_of-remove k ((j, w) ∷ m) (a, h) = elim (Bool-cases (k == j)) [
  | inl e ↦ ground (arith, remove_absent j m a, lookup_absent j m a)
  | inr e ↦ ground (arith, total_of-remove k m h)
]

-- The entries that a call brings are those of an object: each key stands once.
abbrev pub IsObject : Action → Type 0
IsObject (Action.hydrates_unread entries) = IsKeyed entries
IsObject _ = Unit {0}

-- The counters stay an object, in which each friend stands once, if what `hydrateUnread` is given is
-- one.
pub act-IsKeyed :
    (a : Action) (s : NotificationState)
    → IsObject a
    → IsKeyed s.unread_by_friend
    → IsKeyed (act a s).unread_by_friend
unfolding act
act-IsKeyed (Action.hydrates_unread entries) s o h = o
act-IsKeyed (Action.increments_unread friend_id) s o h =
    insert-IsKeyed friend_id _ s.unread_by_friend h
act-IsKeyed (Action.clears_unread friend_id) s o h =
    if_cases (λ t. IsKeyed t.unread_by_friend) (not (has_key friend_id s.unread_by_friend)) s
      (record s { unread_by_friend = remove friend_id s.unread_by_friend }) (λ _. h)
      (λ _. remove-IsKeyed friend_id s.unread_by_friend h)
act-IsKeyed _ s o h = h

pub unread-increment_unread :
    (f g : ℕ) (s : NotificationState)
    → unread f (increment_unread g s).unread_by_friend
      ≡ (if f == g then unread f s.unread_by_friend + 1 else unread f s.unread_by_friend)
unfolding increment_unread
unread-increment_unread f g s =
    ground (arith, lookup-insert f g (unread g s.unread_by_friend + 1) s.unread_by_friend)

pub unread-clear_unread :
    (f g : ℕ) (s : NotificationState)
    → unread f (clear_unread g s).unread_by_friend
      ≡ (if f == g then 0 else unread f s.unread_by_friend)
unfolding clear_unread
unread-clear_unread f g s =
    ground (arith, lookup-remove f g s.unread_by_friend, lookup_absent g s.unread_by_friend)

-- The badge counts the unread messages: a new message of a friend adds one to it, and reading the
-- conversation takes off what that friend had, if each friend stands once in the counters.
pub select_total_unread_act :
    (f : ℕ) (s : NotificationState)
    → IsKeyed s.unread_by_friend
    → (select_total_unread (increment_unread f s) ≡ select_total_unread s + 1)
      × (select_total_unread (clear_unread f s) + unread f s.unread_by_friend
          ≡ select_total_unread s)
unfolding select_total_unread increment_unread clear_unread
select_total_unread_act f s h = (
  omega (arith, total_of-insert f (unread f s.unread_by_friend + 1) s.unread_by_friend),
  ground (arith, total_of-remove f s.unread_by_friend h, lookup_absent f s.unread_by_friend),
)
