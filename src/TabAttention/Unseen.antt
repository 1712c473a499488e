-- ===== src/TabAttention/Unseen.antt =====
-- What the title counts.
use jolyne.Base.{
  ℕ, ◌+◌, ◌-◌, ◌≤◌, ◌≡◌, refl, Bool, true, false, List, [], ◌∷◌, none, some, ltb, if◌then◌else◌,
  arith,
}
use jolyne.TabAttention.{TabAttention, mounted, Input, counts, hides, react, react_all}

-- Messages are only added.
abbrev pub IsGrowing : ℕ → List Input → Type 0
IsGrowing n [] = Unit {0}
IsGrowing n (counts m ∷ is) = (n ≤ m) × IsGrowing m is
IsGrowing n (hides hidden ∷ is) = IsGrowing n is

-- The messages that came while the tab was hidden, since it was last shown: the description of the
-- counter, from a number of messages, a state of the tab and a number of unseen messages.
abbrev pub unseen : (count : ℕ) → (hidden : Bool) → (so_far : ℕ) → List Input → ℕ
unseen n hidden u [] = u
unseen n true u (counts m ∷ is) = unseen m true (u + (m - n)) is
unseen n false u (counts m ∷ is) = unseen m false u is
unseen n hidden u (hides true ∷ is) = unseen n true u is
unseen n hidden u (hides false ∷ is) = unseen n false 0 is

-- The hook has seen every message, and the title shows its counter.
pub record Inv (n u : ℕ) (s : TabAttention) : Type 0 where
  pub all_seen : s.seen ≡ n
  pub current : s.peer_count ≡ n
  pub counter : s.unread ≡ u
  pub shown : s.title ≡ (if ltb 0 u then some u else none)

counts_hidden :
    (m n u : ℕ) (s : TabAttention)
    → s.hidden ≡ true
    → Inv n u s
    → n ≤ m
    → ((react (counts m) s).hidden ≡ true) × Inv m (u + (m - n)) (react (counts m) s)
unfolding react
counts_hidden m n u s e h l = ground (arith, e, h, l)

counts_shown :
    (m n u : ℕ) (s : TabAttention)
    → s.hidden ≡ false
    → Inv n u s
    → n ≤ m
    → ((react (counts m) s).hidden ≡ false) × Inv m u (react (counts m) s)
unfolding react
counts_shown m n u s e h l = ground (arith, e, h, l)

react_all-unseen :
    (is : List Input) (n u : ℕ) (hidden : Bool) (s : TabAttention)
    → s.hidden ≡ hidden
    → Inv n u s
    → IsGrowing n is
    → (react_all is s).title
      ≡ (if ltb 0 (unseen n hidden u is) then some (unseen n hidden u is) else none)
unfolding react_all
react_all-unseen [] n u hidden s e h g = h.shown
react_all-unseen (counts m ∷ is) n u true s e h (l, g) =
    react_all-unseen is m (u + (m - n)) true _ (counts_hidden m n u s e h l).0
      (counts_hidden m n u s e h l).1 g
react_all-unseen (counts m ∷ is) n u false s e h (l, g) =
    react_all-unseen is m u false _ (counts_shown m n u s e h l).0 (counts_shown m n u s e h l).1 g
react_all-unseen (hides true ∷ is) n u hidden s e h g =
    react_all-unseen is n u true _ refl (ground (arith, h)) g
react_all-unseen (hides false ∷ is) n u hidden s e h g =
    react_all-unseen is n 0 false _ refl (ground (arith, h)) g

-- As long as messages are only added, the title shows how many messages of the peer came while the tab
-- was hidden, since it was last shown or the chat began; it is the base title where there are none.
pub react_all-mounted :
    (is : List Input) (n : ℕ) (hidden : Bool)
    → IsGrowing n is
    → (react_all is (mounted n hidden)).title
      ≡ (if ltb 0 (unseen n hidden 0 is) then some (unseen n hidden 0 is) else none)
react_all-mounted is n hidden g =
    react_all-unseen is n 0 hidden (mounted n hidden) refl
      record { all_seen = refl; current = refl; counter = refl; shown = refl } g
