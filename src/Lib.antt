-- ===== src/Lib.antt =====
-- Jolyne's web client: the anonymous language-exchange chat and what surrounds it.
--
-- The program is a Next.js front end (frontend/src) over a Go back end (backend). This library models
-- the logic of the front end: the stores that hold its state, the clients of its WebSockets and the
-- hooks that tie them together. The drawing of components and the HTTP calls are left out.
--
-- * Langs (frontend/src/lib/langs.ts): the languages and the pairs that can be matched.
-- * Sanitize (frontend/src/lib/sanitize.ts): the decoding of escaped texts; DOMPurify is a parameter.
-- * Session (frontend/src/stores/sessionStore.ts): the preferences, and the part that is persisted.
-- * Chat (frontend/src/stores/chatStore.ts): the store of the anonymous chat, each method a function.
-- * Frames, Socket (frontend/src/lib/ws.ts): the frames of /ws/match, and `connectMatch` as a machine
--   over the events of the browser: `handle` is one callback, `step` skips what cannot happen, and
--   `run` is a sequence of events.
-- * Match (frontend/src/hooks/useMatch.ts): the hook over the store, the session and the connection.
--   `receive` is `onFrame`, Match/Send has the actions of the user, and Match/Start has `start` and
--   `stop`; `start` waits for the fingerprint of the device, so it is `start` and `resume`.
--   Connections that were replaced stay in `others`, since their callbacks still run.
-- * InboxSocket (frontend/src/lib/inbox_ws.ts): `openInboxWS`, with every socket and timer that it
--   makes, and FriendSocket (frontend/src/lib/friend_ws.ts): `openFriendWS` and `decodeFrame`.
-- * Notify (frontend/src/stores/notificationStore.ts): the unread counters, toasts and streaks.
-- * Inbox (frontend/src/components/notifications/InboxProvider.tsx): what a tab does with the events of
--   the inbox. Inbox/Events has the handler, Inbox/React the answers to the requests it makes.
-- * Learn (frontend/src/lib/learnExercises.ts, scriptExercises.ts): the exercises of a lesson. Learn/Shuffle
--   has `shuffle` and `sampleDistinct`, which the two files share, with the random draws as an
--   argument; Learn/Lesson and Learn/Script have the two builders.
-- * Player (frontend/src/components/learn/LessonPlayer.tsx): the course of a lesson, with its hearts and
--   its report to the server.
-- * Pairs, Cards (frontend/src/components/learn/exercises.tsx): `MatchExercise`; `ChooseExercise`,
--   `AssembleExercise` and the bar below them.
-- * Vocab (frontend/src/lib/vocab.ts): `practiceItems`, which a practice of the notebook starts from.
-- * Translate (frontend/src/lib/translate.ts, autoTranslate.ts): the guess of a language, and the cache
--   and queue of the automatic translation.
-- * Players (frontend/src/components/learn, vocab): the other players, one file each. ScriptCards
--   (frontend/src/components/learn): the cards of a lesson on writing.
-- * Auth (frontend/src/hooks/useAuthForm.ts, lib/password.ts): the form of signing in; Auth/Password has
--   the server's rules beside those of the form. The classes of Unicode are parameters.
-- * Profanity (frontend/src/lib/profanity.ts): the refused words. Pii (frontend/src/lib/pii.ts): the
--   search for personal data, each regular expression a list of items.
-- * TabAttention, PhotoDrag (frontend/src/hooks/useTabAttention.ts, usePhotoDrag.ts): the title of a
--   hidden tab, and the dragging of photos.
-- * MessageInput (frontend/src/components/chat/MessageInput.tsx): the field where a message is written;
--   Grammar (frontend/src/lib/grammar.ts): the cache of the checks of grammar.
-- * LearnMode (frontend/src/components/learn/LearnMode.tsx): the mode of courses and its requests;
--   ScriptDiagnostic (frontend/src/components/learn/ScriptDiagnostic.tsx): the test that skips a script.
-- * FriendChat (frontend/src/components/friends/FriendConversation.tsx): the handler of an open
--   conversation with a friend; FriendChat/Streaks has its streak and StreakRestoreModal.tsx, and
--   FriendChat/View what it shows of the messages.
-- * FriendsMode (frontend/src/components/friends/FriendsMode.tsx): the list of friends, and the history
--   of the browser below an open conversation. The history is a list of entries; `act` is an action up to
--   the calls of `history.back()`, and `turn` carries these out.
-- * ChatView (frontend/src/components/chat/ChatView.tsx): the view of a chat, with its delay and the guard
--   of the back button. FriendPrompt (frontend/src/components/chat/FriendPromptCard.tsx,
--   BotQueueWatch.tsx): the search for a new friend's conversation, and the watch of the queue.
-- * TranslationPopover (frontend/src/components/chat/TranslationPopover.tsx, learn/SaveWordButton.tsx): the
--   translation of a selected text, and the saving of words.
-- * Home (frontend/src/components/Conversation.tsx): the modes of the home page, with the tabs and swipes.
--   VerificationCard (frontend/src/components/account/VerificationCard.tsx): the verification by a
--   selfie, with the streams of the camera that are on.
-- * Base holds the shared tests, lists and texts.
--
-- Times are natural numbers of milliseconds, and a handler reads the clock once. Identifiers drawn at
-- random are arguments, and so are other draws; where a theorem needs them to be new, it says so.
-- Received text that is no JSON is `none`, and frames of an unknown type are `unknown`. A request to the
-- server is an effect and its answer an input, so answers come in any order and as late as they may.
-- Every recursion is over a list or a text, but for FriendsMode.settle, which carries out the calls of
-- `history.back()` in rounds: `turn` gives it two, since an action asks for one such call at a time or
-- two at once, and what comes of them asks for none, so that none is left after the second round.
--
-- Left out: the back end, the HTTP clients, the texts of the interface, and the drawing of
-- components.
pub mod Auth
pub mod Base
pub mod Cards
pub mod Chat
pub mod ChatView
pub mod Frames
pub mod FriendChat
pub mod FriendPrompt
pub mod FriendSocket
pub mod FriendsMode
pub mod Grammar
pub mod Home
pub mod Inbox
pub mod InboxSocket
pub mod Langs
pub mod Learn
pub mod LearnMode
pub mod Match
pub mod MessageInput
pub mod Notify
pub mod Pairs
pub mod PhotoDrag
pub mod Pii
pub mod Player
pub mod Players
pub mod Profanity
pub mod Sanitize
pub mod ScriptCards
pub mod ScriptDiagnostic
pub mod Session
pub mod Socket
pub mod TabAttention
pub mod Translate
pub mod TranslationPopover
pub mod VerificationCard
pub mod Vocab
