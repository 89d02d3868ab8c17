-- ===== src/Parser.antt =====
-- src/parser.cpp: `appendData`, `parseData` and the event by which the parser calls itself, with
-- the compile-time option that leaves the loop behind each stanza, as the source sets it.
pub mod Arrival
pub mod Delivery
pub mod Xmpp
use jreen.Base.{
  ℕ, zero, suc, ◌+◌, Bool, true, false, List, [], ◌∷◌, ◌++◌, if◌then◌else◌, Text, text, is_empty,
  length,
}
use jreen.Framing.{next_part}

-- What the loop works on behind the buffer: the reader that only checks, the reader of the stream
-- with the tokens that it has not given out yet, what `S` is to the handlers, and the bytes that
-- the stream handlers saw, with the last first.
pub record Core (N R V S : Type 0) : Type 0 where
  pub null_reader : N
  pub reader : R
  pub unread : List V
  pub handlers : S
  pub seen : List Text

-- `hooks` counts the events that are posted and not yet delivered.
pub record Parser (N R V S : Type 0) : Type 0 where
  pub buffer : Text
  pub first : Bool
  pub at_parsing : Bool
  pub hooks : ℕ
  pub core : Core N R V S

-- The parameters are Qt's readers: `check` adds bytes to the reader that checks and answers whether
-- they are not well-formed, `fresh` is that reader with the header alone, and `tokens` is what the
-- reader of the stream makes of more bytes. `handle` is what the handlers do with a token, and
-- `ends_stanza` whether the token closed an element of depth 1. `stray` is a byte before the buffer.
pub record Readers (N R V S : Type 0) : Type 0 where
  pub stray : ℕ
  pub check : N → Text → N × Bool
  pub fresh : N
  pub tokens : R → Text → R × List V
  pub handle : V → S → S
  pub ends_stanza : V → S → Bool

module _ {N R V S : Type 0} (q : Readers N R V S) where
  -- The inner loop: whether a stanza ended it.
  unfoldable pub read_tokens : List V → Core N R V S → Core N R V S × Bool
  read_tokens [] c = (record c { unread = [] }, false)
  read_tokens (v ∷ vs) c =
      let after = record c { handlers = q.handle v c.handlers } in
      let rest = read_tokens vs after in
      if q.ends_stanza v after.handlers then (record after { unread = vs }, true) else rest

  abbrev pub commented : Text → Text
  commented part = text "<!--" ++ part ++ text "-->"

  abbrev pub checked : Text → N × Bool → Core N R V S → Core N R V S × Bool
  unfolding read_tokens
  checked part (n, true) c =
      (record c { null_reader = q.fresh; seen = commented part ∷ c.seen }, false)
  checked part (n, false) c =
      let (r, vs) = q.tokens c.reader part in
      read_tokens (c.unread ++ vs) (record c { null_reader = n; reader = r; seen = part ∷ c.seen })

  -- One round behind `nextPart`.
  unfoldable pub deliver : Text → Core N R V S → Core N R V S × Bool
  unfolding read_tokens
  deliver part c = checked part (q.check c.null_reader part) c

  abbrev pub leave : Text → Bool → ℕ → Core N R V S → Parser N R V S
  leave buffer first hooks c = record {
    buffer = buffer;
    first = first;
    at_parsing = false;
    hooks = hooks;
    core = c;
  }

  -- The loop of `parseData`, on fuel. A stanza ends it with an event for the rest.
  unfoldable pub loop : ℕ → Text → Bool → ℕ → Core N R V S → Parser N R V S
  unfolding deliver
  loop zero b first hooks c = leave b first hooks c
  loop (suc fuel) b first hooks c =
      let part = next_part q.stray b first in
      let (d, stopped) = deliver part.result c in
      let rest = loop fuel part.rest false hooks d in
      if is_empty b
      then leave b first hooks c
      else if part.more
      then leave part.rest first hooks c
      else if stopped
      then leave part.rest false (hooks + 1) d
      else rest

  -- `parseData`; each round takes a byte at least.
  unfoldable pub parse_data : Parser N R V S → Parser N R V S
  unfolding loop
  parse_data s =
      if s.at_parsing then s else loop (suc (length s.buffer)) s.buffer s.first s.hooks s.core

  unfoldable pub append_data : Text → Parser N R V S → Parser N R V S
  unfolding parse_data
  append_data a s = parse_data (record s { buffer = s.buffer ++ a })

  -- `event` with the event that was posted; there is none to deliver where none is.
  unfoldable pub delivered : ℕ → Parser N R V S → Parser N R V S
  unfolding parse_data
  delivered zero s = s
  delivered (suc n) s = parse_data (record s { hooks = n })

  unfoldable pub hook : Parser N R V S → Parser N R V S
  unfolding delivered
  hook s = delivered s.hooks s
