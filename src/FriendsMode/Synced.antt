-- ===== src/FriendsMode/Synced.antt =====
-- frontend/src/components/friends/FriendsMode.tsx, `refresh`: what the store holds after an answer.
use jolyne.Base.{
  ℕ, ◌+◌, ◌≡◌, refl, ◌∙◌, false, List, [], ◌∷◌, some, All, map, sum, ltb, ◌==◌, arith,
  if◌then◌else◌,
}
use jolyne.Base.Assoc.{lookup, insert, lookup-insert}
use jolyne.Inbox.{FriendSummary}
use jolyne.Notify.{
  NotificationState, LiveStreak, unread, total_of, hydrate_unread, set_live_streak,
  select_total_unread,
}
use jolyne.Notify.Totals.{total_of-insert}
use jolyne.FriendsMode.Friends.{Friends, count_unread, align_streaks, preload, refreshed}

-- No friend of the list has the identifier.
abbrev pub IsAbsent : ℕ → List FriendSummary → Type 0
IsAbsent id [] = Unit
IsAbsent id (f ∷ fs) = (id == f.id) ≡ false × IsAbsent id fs

abbrev pub IsListed : List FriendSummary → Type 0
IsListed [] = Unit
IsListed (f ∷ fs) = IsAbsent f.id fs × IsListed fs

-- None of the friends is counted yet.
abbrev IsUncounted : List (ℕ × ℕ) → List FriendSummary → Type 0
IsUncounted m [] = Unit
IsUncounted m (f ∷ fs) = unread f.id m ≡ 0 × IsUncounted m fs

unread-insert :
    (j k n : ℕ) (m : List (ℕ × ℕ)) → unread j (insert k n m) ≡ (if j == k then n else unread j m)
unread-insert j k n m = ground (arith, lookup-insert j k n m)

abbrev count_one : FriendSummary → List (ℕ × ℕ) → List (ℕ × ℕ)
count_one f m = if ltb 0 f.unread_count then insert f.id f.unread_count m else m

unread-count_one_other :
    (id : ℕ) (f : FriendSummary) (m : List (ℕ × ℕ))
    → (id == f.id) ≡ false
    → unread id (count_one f m) ≡ unread id m
unread-count_one_other id f m h = ground (arith, lookup-insert id f.id f.unread_count m)

unread-count_one :
    (f : FriendSummary) (m : List (ℕ × ℕ))
    → unread f.id m ≡ 0
    → unread f.id (count_one f m) ≡ f.unread_count
unread-count_one f m h = ground (arith, lookup-insert f.id f.id f.unread_count m)

total_of-count_one :
    (f : FriendSummary) (m : List (ℕ × ℕ))
    → unread f.id m ≡ 0
    → total_of (count_one f m) ≡ total_of m + f.unread_count
total_of-count_one f m h = ground (arith, total_of-insert f.id f.unread_count m)

count_one-IsUncounted :
    (f : FriendSummary) (fs : List FriendSummary) (m : List (ℕ × ℕ))
    → IsAbsent f.id fs
    → IsUncounted m fs
    → IsUncounted (count_one f m) fs
count_one-IsUncounted f [] m a u = tt
count_one-IsUncounted f (g ∷ fs) m (n, a) (z, u) =
    (ground (arith, unread-count_one_other g.id f m), count_one-IsUncounted f fs m a u)

unread-count_unread_absent :
    (id : ℕ) (fs : List FriendSummary) (m : List (ℕ × ℕ))
    → IsAbsent id fs
    → unread id (count_unread fs m) ≡ unread id m
unfolding count_unread
unread-count_unread_absent id [] m a = refl
unread-count_unread_absent id (f ∷ fs) m (n, a) =
    unread-count_unread_absent id fs (count_one f m) a ∙ unread-count_one_other id f m n

unread-count_unread :
    (fs : List FriendSummary) (m : List (ℕ × ℕ))
    → IsListed fs
    → IsUncounted m fs
    → All (λ f. unread f.id (count_unread fs m) ≡ f.unread_count) fs
unfolding count_unread
unread-count_unread [] m l u = tt
unread-count_unread (f ∷ fs) m (a, l) (z, u) = (
  unread-count_unread_absent f.id fs (count_one f m) a ∙ unread-count_one f m z,
  unread-count_unread fs (count_one f m) l (count_one-IsUncounted f fs m a u),
)

total_of-count_unread :
    (fs : List FriendSummary) (m : List (ℕ × ℕ))
    → IsListed fs
    → IsUncounted m fs
    → total_of (count_unread fs m) ≡ total_of m + sum (map (λ f. f.unread_count) fs)
unfolding count_unread
total_of-count_unread [] m l u = omega arith
total_of-count_unread (f ∷ fs) m (a, l) (z, u) = omega (
  arith,
  total_of-count_unread fs (count_one f m) l (count_one-IsUncounted f fs m a u),
  total_of-count_one f m z,
)

IsUncounted-nil : (fs : List FriendSummary) → IsUncounted [] fs
IsUncounted-nil [] = tt
IsUncounted-nil (f ∷ fs) = (refl, IsUncounted-nil fs)

abbrev streak_of : FriendSummary → LiveStreak
streak_of f = record { streak = f.streak; at_risk = f.streak_at_risk }

lookup-align_streaks_absent :
    (id : ℕ) (fs : List FriendSummary) (store : NotificationState)
    → IsAbsent id fs
    → lookup id (align_streaks fs store).streak_by_friend ≡ lookup id store.streak_by_friend
unfolding align_streaks set_live_streak
lookup-align_streaks_absent id [] store a = refl
lookup-align_streaks_absent id (f ∷ fs) store (n, a) = ground (
  arith,
  lookup-align_streaks_absent id fs (set_live_streak f.id f.streak f.streak_at_risk store) a,
  lookup-insert id f.id (streak_of f) store.streak_by_friend,
)

lookup-align_streaks :
    (fs : List FriendSummary) (store : NotificationState)
    → IsListed fs
    → All (λ f. lookup f.id (align_streaks fs store).streak_by_friend ≡ some (streak_of f)) fs
unfolding align_streaks set_live_streak
lookup-align_streaks [] store l = tt
lookup-align_streaks (f ∷ fs) store (a, l) =
    let next = set_live_streak f.id f.streak f.streak_at_risk store in
    (
      ground (
        arith,
        lookup-align_streaks_absent f.id fs next a,
        lookup-insert f.id f.id (streak_of f) store.streak_by_friend,
      ),
      lookup-align_streaks fs next l,
    )

All-both :
    (P Q : FriendSummary → Type 0) (fs : List FriendSummary)
    → All P fs
    → All Q fs
    → All (λ f. P f × Q f) fs
All-both P Q [] p q = tt
All-both P Q (f ∷ fs) (p, ps) (q, qs) = ((p, q), All-both P Q fs ps qs)

store-refreshed :
    (fs : List FriendSummary) (s : Friends)
    → (refreshed (some fs) s).0.store
      ≡ hydrate_unread (count_unread fs []) (align_streaks fs s.store)
unfolding refreshed preload
store-refreshed fs s = ground arith

-- After an answer with a list of friends, each listed once, the store agrees with it, whatever it held
-- before: each friend has the number of unread messages and the streak of the list, the total on the
-- badge is the sum of the list's numbers, and another friend has no unread message and the streak that
-- was known.
pub store-refreshed_agrees :
    (fs : List FriendSummary) (s : Friends)
    → IsListed fs
    → let store = (refreshed (some fs) s).0.store in
      All
        (λ f.
          (unread f.id store.unread_by_friend ≡ f.unread_count)
          × (lookup f.id store.streak_by_friend ≡ some (streak_of f)))
        fs
      × (select_total_unread store ≡ sum (map (λ f. f.unread_count) fs))
      × ((id : ℕ)
          → IsAbsent id fs
          → (unread id store.unread_by_friend ≡ 0)
            × (lookup id store.streak_by_friend ≡ lookup id s.store.streak_by_friend))
unfolding hydrate_unread select_total_unread
store-refreshed_agrees fs s l = rw (store-refreshed fs s) (
  All-both _ _ fs (unread-count_unread fs [] l (IsUncounted-nil fs))
      (lookup-align_streaks fs s.store l),
  omega (arith, total_of-count_unread fs [] l (IsUncounted-nil fs)),
  λ id a. (unread-count_unread_absent id fs [] a, lookup-align_streaks_absent id fs s.store a),
)
