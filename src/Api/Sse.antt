-- ===== src/Api/Sse.antt =====
-- api/sse.ts: `consumeSse`, the reader of server-sent events. A chunk is the text that the decoder
-- gives for a block of bytes. `emit` may throw: `accepts` says for which events it does not.
pub mod Frames
pub mod Normal
pub mod Chunks
pub mod Tests
use g_manager.Common.{
  ℕ, zero, suc, ◌+◌, String, Bool, true, false, ◌&&◌, ◌||◌, not, Option, none, some, List, [], ◌∷◌,
  ◌++◌, map, ==_iff, ◌==◌, leb, if◌then◌else◌, CodePoints, codes, same_text, begins, length, find,
  filter, is_empty,
}

abbrev pub cr : ℕ
cr = 13

abbrev pub lf : ℕ
lf = 10

abbrev pub begins_lf : CodePoints → Bool
begins_lf [] = false
begins_lf (c ∷ s) = c == lf

-- `replace(/\r\n/g, '\n')`: a CR in front of an LF is left out.
unfoldable pub crlf : CodePoints → CodePoints
crlf [] = []
crlf (c ∷ s) = let rest = crlf s in if c == cr && begins_lf s then rest else c ∷ rest

abbrev pub tail : CodePoints → CodePoints
tail [] = []
tail (c ∷ s) = s

abbrev pub push_front : ℕ → Option (CodePoints × CodePoints) → Option (CodePoints × CodePoints)
push_front c none = none
push_front c (some (f, r)) = some (c ∷ f, r)

-- The text in front of the first empty line, and the text behind it.
unfoldable pub cut : CodePoints → Option (CodePoints × CodePoints)
cut [] = none
cut (c ∷ s) =
    let later = push_front c (cut s) in if c == lf && begins_lf s then some ([], tail s) else later

-- The inner loop: all complete frames of the buffer, and what remains. Every round makes the buffer
-- shorter.
unfoldable pub drain_from : ℕ → CodePoints → List CodePoints × CodePoints
drain_from zero buffer = ([], buffer)
drain_from (suc fuel) buffer = elim (cut buffer) [
  | none ↦ ([], buffer)
  | some (f, r) ↦ (f ∷ (drain_from fuel r).0, (drain_from fuel r).1)
]

unfoldable pub drain : CodePoints → List CodePoints × CodePoints
unfolding drain_from
drain buffer = drain_from (length buffer) buffer

-- The space that `trim` takes away.
abbrev pub is_space : ℕ → Bool
is_space c =
    (leb 9 c && leb c 13)
    || (c == 0x20
        || (c == 0xa0
            || (c == 0x1680
                || ((leb 0x2000 c && leb c 0x200a)
                    || (c == 0x2028
                        || (c == 0x2029
                            || (c == 0x202f || (c == 0x205f || (c == 0x3000 || c == 0xfeff)))))))))

abbrev pub trim_start : CodePoints → CodePoints
trim_start [] = []
trim_start (c ∷ s) = if is_space c then trim_start s else c ∷ s

abbrev pub trim_end : CodePoints → CodePoints
trim_end [] = []
trim_end (c ∷ s) = if is_space c && is_empty (trim_end s) then [] else c ∷ trim_end s

abbrev pub trim : CodePoints → CodePoints
trim s = trim_end (trim_start s)

abbrev pub drop_prefix : CodePoints → CodePoints → CodePoints
drop_prefix [] s = s
drop_prefix (p ∷ ps) s = drop_prefix ps (tail s)

-- `split('\n')`, with the line read so far.
unfoldable pub split_lines : CodePoints → CodePoints → List CodePoints
split_lines line [] = line ∷ []
split_lines line (c ∷ s) =
    let closed = line ∷ split_lines [] s in
    let longer = split_lines (line ++ c ∷ []) s in if c == lf then closed else longer

-- `lines.find(line => line.startsWith(name))?.slice(name.length).trim()`
abbrev pub field_line : CodePoints → List CodePoints → Option CodePoints
field_line name lines = elim (find (begins name) lines) [
  | none ↦ none
  | some line ↦ some (trim (drop_prefix name line))
]

-- `join('\n')`
abbrev pub join_lines : List CodePoints → CodePoints
join_lines [] = []
join_lines (l ∷ []) = l
join_lines (l ∷ m ∷ ls) = l ++ lf ∷ join_lines (m ∷ ls)

abbrev pub data_of : List CodePoints → CodePoints
data_of lines =
    join_lines (
      map (λ l. trim_start (drop_prefix (codes "data:") l)) (filter (begins (codes "data:")) lines))

pub record Message : Type 0 where
  pub id : Option CodePoints
  pub payload : CodePoints

abbrev pub is_event : CodePoints → Option CodePoints → Bool
is_event name none = false
is_event name (some event) = same_text event name

-- The message of a frame, if it is of the event that is listened for and not empty.
unfoldable pub message_of : CodePoints → CodePoints → Option Message
unfolding split_lines
message_of name frame =
    let lines = split_lines [] frame in
    if is_event name (field_line (codes "event:") lines) && not (is_empty (data_of lines))
    then some (record { id = field_line (codes "id:") lines; payload = data_of lines })
    else none

-- What has been emitted, and whether `emit` threw.
pub record Emitted : Type 0 where
  pub messages : List Message
  pub threw : Bool

-- One frame; nothing is read any more after a throw.
unfoldable pub emit_frame : CodePoints → (Message → Bool) → CodePoints → Emitted → Emitted
unfolding message_of
emit_frame name accepts frame e = if e.threw then e else elim (message_of name frame) [
  | none ↦ e
  | some m ↦
      if accepts m
      then record { messages = e.messages ++ m ∷ []; threw = false }
      else record { messages = e.messages; threw = true }
]

unfoldable pub emit_all : CodePoints → (Message → Bool) → List CodePoints → Emitted → Emitted
unfolding emit_frame
emit_all name accepts [] e = e
emit_all name accepts (f ∷ fs) e = emit_all name accepts fs (emit_frame name accepts f e)

-- The outer loop over the chunks of the stream.
unfoldable pub consume :
    CodePoints → (Message → Bool) → CodePoints → List CodePoints → Emitted → Emitted
unfolding drain crlf cut emit_all
consume name accepts buffer [] e = e
consume name accepts buffer (chunk ∷ chunks) e =
    let (frames, rest) = drain (crlf (buffer ++ chunk)) in
    let now = emit_all name accepts frames e in
    let later = consume name accepts rest chunks now in if now.threw then now else later

unfoldable pub consume_sse : CodePoints → (Message → Bool) → List CodePoints → Emitted
unfolding consume
consume_sse name accepts chunks =
    consume name accepts [] chunks (record { messages = []; threw = false })
