-- ===== src/FriendsMode/Navigation.antt =====
-- frontend/src/components/friends/FriendsMode.tsx: what the buttons of a conversation do to the history.
use jolyne.Base.{ℕ, ◌≡◌, refl, ◌∙◌, ap, List, [], ◌∷◌, Option, none, some, All, map, is_some}
use jolyne.FriendsMode.{
  FriendsMode, friend_inline, mounted_on, back, leave, enter, set_open, on_pop, go_back,
  go_back_times, settle, Action, opens, goes_back, changes_tab, removed, navigates, page, act, turn,
  turn_all,
}

-- What the user sees: the conversation that is open, the page below it, and the pages behind that one.
pub record View : Type 0 where
  pub open_friend : Option ℕ
  pub current : ℕ
  pub behind : List ℕ

pub drop_page : View → View
drop_page v = elim v.behind [ [] ↦ v | f ∷ rest ↦ record v { current = f; behind = rest } ]

-- What an action in the component promises: going back closes the conversation, or else leaves the
-- page.
pub promise : Action → View → View
unfolding drop_page
promise (opens id) v = elim v.open_friend [ none ↦ record v { open_friend = some id } | some _ ↦ v ]
promise goes_back v = elim v.open_friend [
  | none ↦ drop_page v
  | some _ ↦ record v { open_friend = none }
]
promise changes_tab v = record v { open_friend = none }
promise _ v = v

pub promise_all : List Action → View → View
promise_all [] v = v
promise_all (a ∷ actions) v = promise_all actions (promise a v)

-- The pages, and one decoy above them exactly while a conversation is open.
pub realise : View → FriendsMode
realise v = record {
  open_friend_id = v.open_friend;
  pushed = is_some v.open_friend;
  history = elim v.open_friend [
    | none ↦ page v.current ∷ map page v.behind
    | some _ ↦ friend_inline ∷ page v.current ∷ map page v.behind
  ];
  backs = 0;
}

-- The user stays on the page, and no friend is removed.
abbrev pub IsKept : Action → Type 0
IsKept removed = ⊥
IsKept (navigates to) = ⊥
IsKept _ = Unit

abbrev view : Option ℕ → ℕ → List ℕ → View
view o e es = record { open_friend = o; current = e; behind = es }

turn-realise-view :
    (a : Action) (o : Option ℕ) (e : ℕ) (es : List ℕ)
    → IsKept a
    → turn a (realise (view o e es)) ≡ realise (promise a (view o e es))
unfolding turn act settle set_open leave back enter on_pop go_back go_back_times realise promise
    drop_page
turn-realise-view (opens id) none e es h = refl
turn-realise-view (opens id) (some j) e es h = refl
turn-realise-view goes_back none e [] h = refl
turn-realise-view goes_back none e (f ∷ es) h = refl
turn-realise-view goes_back (some j) e es h = refl
turn-realise-view changes_tab none e es h = refl
turn-realise-view changes_tab (some j) e es h = refl
turn-realise-view removed o e es h = elim h [ ]
turn-realise-view (navigates to) o e es h = elim h [ ]

turn_all-realise-kept :
    (actions : List Action) (v : View)
    → All IsKept actions
    → turn_all actions (realise v) ≡ realise (promise_all actions v)
unfolding turn_all promise_all
turn_all-realise-kept [] v h = refl
turn_all-realise-kept (a ∷ actions) v (k, h) =
    ap (turn_all actions) (turn-realise-view a v.open_friend v.current v.behind k)
    ∙ turn_all-realise-kept actions (promise a v) h

turn-navigates :
    (to : ℕ) (o : Option ℕ) (e : ℕ) (es : List ℕ)
    → turn (navigates to) (realise (view o e es))
      ≡ mounted_on (page to ∷ (realise (view o e es)).history)
unfolding turn act settle set_open leave back go_back_times realise
turn-navigates to none e es = refl
turn-navigates to (some j) e es = refl

-- Over a history of pages, and as long as no friend is removed, what the user sees after any actions is
-- what they promise: one decoy lies above the pages exactly while a conversation is open, and going
-- back closes it without leaving the page, the history being then what it was. If a router goes to
-- another page next, from an open conversation or not, the user stays there, with all of that history
-- behind, and nothing goes back.
pub turn_all-realise :
    (actions : List Action) (v : View) (to : ℕ)
    → All IsKept actions
    → (turn_all actions (realise v) ≡ realise (promise_all actions v))
      × (turn (navigates to) (turn_all actions (realise v))
          ≡ mounted_on (page to ∷ (realise (promise_all actions v)).history))
turn_all-realise actions v to h =
    let seen = turn_all-realise-kept actions v h in
    let w = promise_all actions v in
    (seen, ap (turn (navigates to)) seen ∙ turn-navigates to w.open_friend w.current w.behind)

-- Where the friend of an open conversation is removed, the conversation is closed and the page below
-- is left too; and where the conversation was closed before the answer came, the page is left all the
-- same. In both cases the user is on the page before.
pub turn-removed :
    (o : Option ℕ) (e f : ℕ) (es : List ℕ)
    → turn removed (realise (record { open_friend = o; current = e; behind = f ∷ es }))
      ≡ realise (record { open_friend = none; current = f; behind = es })
unfolding turn act settle set_open leave back enter on_pop go_back go_back_times realise
turn-removed none e f es = refl
turn-removed (some j) e f es = refl
