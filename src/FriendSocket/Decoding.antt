-- ===== src/FriendSocket/Decoding.antt =====
-- What `decodeFrame` gives back of the bodies that the server escapes.
use jolyne.Base.{◌≡◌, refl, List, [], ◌∷◌, map}
use jolyne.Sanitize.Entities.{html_escape, decode_entities-html_escape}
use jolyne.FriendSocket.{FriendMessage, FriendEvent, decode_body, decode_frame}

-- The frame that the server sends: each body is escaped.
abbrev pub escape_body : FriendMessage → FriendMessage
escape_body m = record m { body = html_escape m.body }

abbrev pub escape_frame : FriendEvent → FriendEvent
escape_frame (FriendEvent.history messages read_at) =
    FriendEvent.history (map escape_body messages) read_at
escape_frame (FriendEvent.msg m) = FriendEvent.msg (escape_body m)
escape_frame e = e

decode_body-escape_body : (m : FriendMessage) → decode_body (escape_body m) ≡ m
unfolding decode_body
decode_body-escape_body m = rw (decode_entities-html_escape m.body) refl

map-decode_body : (ms : List FriendMessage) → map decode_body (map escape_body ms) ≡ ms
map-decode_body [] = refl
map-decode_body (m ∷ ms) = rw (decode_body-escape_body m) (rw (map-decode_body ms) refl)

-- Whatever messages the server escapes, in a history or one by one, the frame that is delivered holds
-- their texts; every other frame is delivered as it is.
pub decode_frame-escape_frame : (e : FriendEvent) → decode_frame (escape_frame e) ≡ e
unfolding decode_frame
decode_frame-escape_frame (FriendEvent.history messages read_at) =
    rw (map-decode_body messages) refl
decode_frame-escape_frame (FriendEvent.msg m) = rw (decode_body-escape_body m) refl
decode_frame-escape_frame e = refl
