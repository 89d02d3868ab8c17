-- ===== src/Dispatch.antt =====
-- The XML events in src/parser.cpp: which handlers see which elements, and when a stanza or the
-- features of the server are complete.
pub mod Restore
use jreen.Base.{
  ℕ, zero, suc, ◌+◌, Bool, true, false, Option, none, some, List, [], ◌∷◌, ◌++◌, ◌==◌,
  if◌then◌else◌, Text, is_empty, length, take, map,
}

-- `ParserState`
pub data State : Type 0 where
  waiting_for_stanza read_features read_stanza read_custom : State

-- `parsers` in the order in which they were added; `parsers_count` with its top first.
pub record Reader : Type 0 where
  pub depth : ℕ
  pub state : State
  pub parsers : List ℕ
  pub parsers_count : List ℕ

-- The parameters are what an element start is, by its name, namespace and attributes, whether its
-- name is `features`, and the stanza factories and the stream features that can parse it.
module _ (E : Type 0) (is_features : E → Bool) (stanzas_for features_for : E → List ℕ) where
  pub data Event : Type 0 where
    start end : E → Event
    characters : Text → Event

  pub data Report : Type 0 where
    started ended : ℕ → E → Report
    text_seen : ℕ → Text → Report
    stanza_read : ℕ → Report
    features_complete : Report

  -- `parsers.top()`
  unfoldable pub top : List ℕ → Option ℕ
  top [] = none
  top (p ∷ []) = some p
  top (p ∷ (q ∷ ps)) = top (q ∷ ps)

  -- What `handleStartElement` adds to the handlers, and the state that it sets, by the depth.
  unfoldable pub choose_parsers : E → Reader → State × List ℕ
  choose_parsers e r =
      if r.depth == 1
      then if is_features e
        then (read_features, [])
        else if is_empty (r.parsers ++ stanzas_for e)
        then (read_custom, features_for e)
        else (read_stanza, stanzas_for e)
      else if r.depth == 2
      then elim r.state [ read_features ↦ (read_features, features_for e) | s ↦ (s, []) ]
      else (r.state, [])

  unfoldable pub handle_start : E → Reader → Reader × List Report
  handle_start e r =
      let (state, more) = choose_parsers e r in
      (
        record {
          depth = suc r.depth;
          state = state;
          parsers = r.parsers ++ more;
          parsers_count = length r.parsers ∷ r.parsers_count;
        },
        map (λ p. started p e) (r.parsers ++ more),
      )

  abbrev pub top_read : Option ℕ → List Report
  top_read none = []
  top_read (some p) = stanza_read p ∷ []

  abbrev pub complete : State → List ℕ → List Report
  complete read_features parsers = features_complete ∷ []
  complete read_stanza parsers = top_read (top parsers)
  complete _ parsers = []

  abbrev pub ended_at : ℕ → E → ℕ → List ℕ → Reader → Reader × List Report
  ended_at depth e count counts r = (
    record {
      depth = depth;
      state = if depth == 1 then waiting_for_stanza else r.state;
      parsers = take count r.parsers;
      parsers_count = counts;
    },
    map (λ p. ended p e) r.parsers ++ (if depth == 1 then complete r.state r.parsers else []),
  )

  -- `handleEndElement`; `none` is `pop` on an empty stack. The depth is that after `depth--`.
  unfoldable pub end_at : ℕ → E → List ℕ → Reader → Option (Reader × List Report)
  end_at depth e [] r = none
  end_at depth e (count ∷ counts) r = some (ended_at depth e count counts r)

  unfoldable pub end_from : ℕ → E → Reader → Option (Reader × List Report)
  unfolding end_at
  end_from zero e r = none
  end_from (suc depth) e r = end_at depth e r.parsers_count r

  unfoldable pub handle_end : E → Reader → Option (Reader × List Report)
  unfolding end_from
  handle_end e r = end_from r.depth e r

  unfoldable pub handle : Event → Reader → Option (Reader × List Report)
  unfolding handle_start handle_end
  handle (start e) r = some (handle_start e r)
  handle (end e) r = handle_end e r
  handle (characters t) r = some (r, map (λ p. text_seen p t) r.parsers)

  abbrev pub prepend : List Report → Option (Reader × List Report) → Option (Reader × List Report)
  prepend first none = none
  prepend first (some (s, rest)) = some (s, first ++ rest)

  abbrev pub and_then :
      (Reader → Option (Reader × List Report))
      → Option (Reader × List Report)
      → Option (Reader × List Report)
  and_then next none = none
  and_then next (some (s, first)) = prepend first (next s)

  -- `none` as soon as one event fails.
  unfoldable pub handle_all : List Event → Reader → Option (Reader × List Report)
  unfolding handle
  handle_all [] r = some (r, [])
  handle_all (v ∷ vs) r = and_then (handle_all vs) (handle v r)

  -- `Parser::reset`; the reader of the stream is cleared too.
  unfoldable pub reset : Reader → Reader
  reset r = record r { depth = 0; state = waiting_for_stanza; parsers = [] }
