-- ===== src/FriendChat/Restored.antt =====
-- frontend/src/components/friends/FriendConversation.tsx: what the header and the banner of a
-- conversation say of the streak, after any inputs.
use jolyne.Base.{
  ℕ, ◌≡◌, refl, Bool, true, false, List, [], ◌∷◌, Option, none, some, is_some, All, String, str_eq,
  if◌then◌else◌, arith,
}
use jolyne.Base.Assoc.{lookup, lookup-insert}
use jolyne.Inbox.{FriendProfile}
use jolyne.Notify.{LiveStreak, set_live_streak}
use jolyne.FriendChat.Streaks.{
  Streaks, RestoreStreakResult, Input, profile_loads, announces, store_sets, opens_restore, closes,
  confirms, closing_fires, restore_answers, profile_loaded, streak_announced, on_restored,
  restore_answered, react, react_all, header_streak, shows_lost_banner, lost_or_zero,
}

-- The answer restores the streak: the server says so and names no error that the modal knows.
unfoldable pub restores : RestoreStreakResult → Bool
restores r =
    if str_eq r.err_code "quota_exhausted"
    then false
    else if str_eq r.err_code "window_expired"
    then false
    else if str_eq r.err_code "no_loss"
    then false
    else r.restored

abbrev live_streak : ℕ × Bool → LiveStreak
live_streak k = record { streak = k.0; at_risk = k.1 }

module _ (friend_id : ℕ) where
  -- The streak that was told last, from the one that was known before.
  pub told : Input friend_id → ℕ × Bool → ℕ × Bool
  unfolding restores
  told (profile_loads p) old = (p.streak, p.streak_at_risk)
  told (announces streak at_risk) old = (streak, at_risk)
  told (store_sets streak at_risk) old = (streak, at_risk)
  told (restore_answers none) old = old
  told (restore_answers (some r)) old = if restores r then (r.new_streak, false) else old
  told _ old = old

  pub told_last : List (Input friend_id) → ℕ × Bool → ℕ × Bool
  told_last [] old = old
  told_last (i ∷ is) old = told_last is (told i old)

  -- The profile is there and the store holds the streak.
  record Holds (k : ℕ × Bool) (s : Streaks) : Type 0 where
    loaded : is_some s.profile ≡ true
    live : lookup friend_id s.store.streak_by_friend ≡ some (live_streak k)

  react-Holds :
      (i : Input friend_id) (k : ℕ × Bool) (s : Streaks)
      → Holds k s
      → Holds (told i k) (react friend_id i s)
  unfolding react told restores profile_loaded streak_announced on_restored restore_answered
      set_live_streak
  react-Holds (profile_loads p) k s h = record {
    loaded = refl;
    live = ground (
      arith,
      lookup-insert friend_id friend_id (live_streak (told (profile_loads p) k))
          s.store.streak_by_friend,
    );
  }
  react-Holds (announces n r) k s h = record {
    loaded = ground (arith, h.loaded);
    live =
        ground
          (arith, lookup-insert friend_id friend_id (live_streak (n, r)) s.store.streak_by_friend);
  }
  react-Holds (store_sets n r) k s h = record {
    loaded = h.loaded;
    live =
        ground
          (arith, lookup-insert friend_id friend_id (live_streak (n, r)) s.store.streak_by_friend);
  }
  react-Holds (restore_answers none) k s h = record { loaded = h.loaded; live = h.live }
  react-Holds (restore_answers (some r)) k s h = record {
    loaded = ground (arith, h.loaded);
    live = ground (
      arith,
      h.live,
      lookup-insert friend_id friend_id (live_streak (r.new_streak, false))
          s.store.streak_by_friend,
    );
  }
  react-Holds opens_restore k s h = ground (arith, h.loaded, h.live)
  react-Holds closes k s h = ground (arith, h.loaded, h.live)
  react-Holds confirms k s h = ground (arith, h.loaded, h.live)
  react-Holds closing_fires k s h = ground (arith, h.loaded, h.live)

  react_all-Holds :
      (is : List (Input friend_id)) (k : ℕ × Bool) (s : Streaks)
      → Holds k s
      → Holds (told_last is k) (react_all friend_id is s)
  unfolding react_all told_last
  react_all-Holds [] k s h = h
  react_all-Holds (i ∷ is) k s h =
      react_all-Holds is (told i k) (react friend_id i s) (react-Holds i k s h)

  header_streak-Holds :
      (k : ℕ × Bool) (s : Streaks) → Holds k s → header_streak friend_id s ≡ some k
  unfolding header_streak
  header_streak-Holds k s h = ground (arith, h.loaded, h.live)

  -- From the answer with the profile on, the header shows the streak that was told last, whoever told
  -- it: a profile, an event of the connection, the answer that restores a lost streak, or another part
  -- of the tab.
  pub header_streak-react_all :
      (p : FriendProfile) (is : List (Input friend_id)) (s : Streaks)
      → header_streak friend_id (react_all friend_id (profile_loads p ∷ is) s)
        ≡ some (told_last is (p.streak, p.streak_at_risk))
  unfolding react_all react profile_loaded set_live_streak
  header_streak-react_all p is s =
      let k : ℕ × Bool = (p.streak, p.streak_at_risk) in
      header_streak-Holds _ _ (
        react_all-Holds is k (react friend_id (profile_loads p) s) (record {
          loaded = refl;
          live =
              ground
                (arith, lookup-insert friend_id friend_id (live_streak k) s.store.streak_by_friend);
        }))

  -- No profile is fetched.
  abbrev pub IsLater : Input friend_id → Type 0
  IsLater (profile_loads p) = ⊥
  IsLater _ = Unit

  abbrev lost_of : Option FriendProfile → ℕ
  lost_of none = 0
  lost_of (some p) = lost_or_zero p.lost_streak

  lost_of-react :
      (i : Input friend_id) (s : Streaks)
      → IsLater i
      → lost_of s.profile ≡ 0
      → lost_of (react friend_id i s).profile ≡ 0
  unfolding react streak_announced restore_answered on_restored
  lost_of-react (profile_loads p) s l h = elim l [ ]
  lost_of-react (restore_answers none) s l h = h
  lost_of-react (restore_answers (some r)) s l h = ground arith
  lost_of-react i s l h = ground arith

  lost_of-react_all :
      (is : List (Input friend_id)) (s : Streaks)
      → All IsLater is
      → lost_of s.profile ≡ 0
      → lost_of (react_all friend_id is s).profile ≡ 0
  unfolding react_all
  lost_of-react_all [] s l h = h
  lost_of-react_all (i ∷ is) s (l, ls) h =
      lost_of-react_all is (react friend_id i s) ls (lost_of-react i s l h)

  shows_lost_banner-none_lost :
      (parse : String → Option ℕ) (now : ℕ) (s : Streaks)
      → lost_of s.profile ≡ 0
      → shows_lost_banner parse now s ≡ false
  unfolding shows_lost_banner
  shows_lost_banner-none_lost parse now s h = ground arith

  lost_of-restored :
      (r : RestoreStreakResult) (s : Streaks)
      → restores r ≡ true
      → lost_of (react friend_id (restore_answers (some r)) s).profile ≡ 0
  unfolding react restore_answered on_restored restores
  lost_of-restored r s h = ground arith

  -- Once an answer has restored the streak, the banner of the lost streak is gone and stays so,
  -- whatever comes later, until a profile is fetched again.
  pub shows_lost_banner-react_all :
      (parse : String → Option ℕ) (now : ℕ) (r : RestoreStreakResult) (is : List (Input friend_id))
      (s : Streaks)
      → restores r ≡ true
      → All IsLater is
      → shows_lost_banner parse now (react_all friend_id (restore_answers (some r) ∷ is) s) ≡ false
  unfolding react_all
  shows_lost_banner-react_all parse now r is s h l =
      shows_lost_banner-none_lost parse now _ (lost_of-react_all is _ l (lost_of-restored r s h))
