-- ===== src/ChatView/Guard.antt =====
-- frontend/src/components/chat/ChatView.tsx: the guard of the browser's back button.
use jolyne.Base.{
  ℕ, ◌≡◌, refl, ◌∙◌, sym, Bool, true, false, List, [], ◌∷◌, Option, arith, if◌then◌else◌, if_cases,
}
use jolyne.ChatView.{
  ChatView, Entry, decoy, stops, goes_back, cool_down, mounted, fresh, sees, submit_correction,
  on_pop, go_back, confirm_back, Input, store_changes, goes_back_once, react, react_all, same_time,
}

module _ (p : Entry) (pages : List Entry) where
  -- The chat lies above the pages, behind the decoy.
  pub record IsGuarded (s : ChatView) : Type 0 where
    pub above : s.history ≡ decoy ∷ p ∷ pages
    pub heard : s.listens ≡ true
    pub unskipped : s.skip_next_pop ≡ false

  cool_down-IsGuarded : (s : ChatView) → IsGuarded s → IsGuarded (cool_down s)
  unfolding cool_down
  cool_down-IsGuarded s h = record {
    above = ground (arith, h.above);
    heard = ground (arith, h.heard);
    unskipped = ground (arith, h.unskipped);
  }

  go_back-IsGuarded :
      (s : ChatView) → IsGuarded s → IsGuarded (go_back s) × ((go_back s).back_guard ≡ true)
  unfolding go_back on_pop
  go_back-IsGuarded s h = (
    record {
      above = ground (arith, h.above, h.heard, h.unskipped);
      heard = ground (arith, h.above, h.heard, h.unskipped);
      unskipped = ground (arith, h.above, h.heard, h.unskipped);
    },
    ground (arith, h.above, h.heard, h.unskipped),
  )

  react-IsGuarded : (i : Input) (s : ChatView) → IsGuarded s → IsGuarded (react i s).0
  unfolding react sees submit_correction
  react-IsGuarded (store_changes matched_at post_chat) s h =
      if_cases IsGuarded (same_time s.matched_at matched_at) _ _
        (λ _. record { above = h.above; heard = h.heard; unskipped = h.unskipped })
        (λ _.
          cool_down-IsGuarded (record s { matched_at = matched_at; post_chat = post_chat })
            (record { above = h.above; heard = h.heard; unskipped = h.unskipped }))
  react-IsGuarded goes_back_once s h = (go_back-IsGuarded s h).0
  react-IsGuarded i s h = record {
    above = ground (arith, h.above);
    heard = ground (arith, h.heard);
    unskipped = ground (arith, h.unskipped);
  }

  react_all-IsGuarded :
      (is : List Input) (s : ChatView) → IsGuarded s → IsGuarded (react_all is s).0
  unfolding react_all
  react_all-IsGuarded [] s h = h
  react_all-IsGuarded (i ∷ is) s h = react_all-IsGuarded is (react i s).0 (react-IsGuarded i s h)

  -- What the view then promises of the back button.
  pub record Guards (s : ChatView) : Type 0 where
    pub stays : (go_back s).history ≡ s.history
    pub asks : (go_back s).back_guard ≡ true
    pub confirmed :
        (gone : Bool)
        → let s' = record (confirm_back s).0 { listens = if gone then false else true } in
          ((confirm_back s).1 ≡ stops ∷ goes_back ∷ [])
          × ((go_back s').history ≡ p ∷ pages)
          × ((go_back s').back_guard ≡ false)

  IsGuarded-Guards : (s : ChatView) → IsGuarded s → Guards s
  unfolding confirm_back go_back on_pop
  IsGuarded-Guards s h = record {
    stays = (go_back-IsGuarded s h).0.above ∙ sym h.above;
    asks = (go_back-IsGuarded s h).1;
    confirmed = λ gone. (refl, ground (arith, h.above), ground (arith, h.above));
  }

  -- After any inputs, the back button leaves the history as it is and asks the user for a
  -- confirmation. Once that is given, the chat is stopped and the history is that of the pages before
  -- the chat, with no question asked again, whether or not the view is gone when the browser goes back.
  pub react_all-Guards :
      (clock : ℕ) (matched_at : Option ℕ) (post_chat : Bool) (is : List Input)
      → Guards (react_all is (mounted clock matched_at post_chat (p ∷ pages))).0
  unfolding mounted
  react_all-Guards clock matched_at post_chat is = IsGuarded-Guards _ (
      react_all-IsGuarded is _ (
        cool_down-IsGuarded (fresh clock matched_at post_chat (p ∷ pages))
          (record { above = refl; heard = refl; unskipped = refl })))
