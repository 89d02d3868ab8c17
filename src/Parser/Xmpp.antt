-- ===== src/Parser/Xmpp.antt =====
-- src/parser.cpp: the parser with the handlers of the client behind it, as Dispatch has them.
use jreen.Base.{ℕ, Bool, false, Option, none, some, List, ◌==◌}
use jreen.Dispatch
use jreen.Dispatch.{Event, start, end, characters, Report, handle, and_then}

module _ (E : Type 0) (is_features : E → Bool) (stanzas_for features_for : E → List ℕ) where
  abbrev pub Token : Type 0
  Token = Event E is_features stanzas_for features_for

  -- What the handlers made of the tokens so far: `none` from the first one that cannot be handled.
  abbrev pub Handled : Type 0
  Handled = Option (Dispatch.Reader × List (Report E is_features stanzas_for features_for))

  -- The switch over the type of a token
  unfoldable pub handle_token : Token → Handled → Handled
  unfolding handle
  handle_token v s =
      and_then E is_features stanzas_for features_for
        (handle E is_features stanzas_for features_for v) s

  abbrev pub at_depth_one : Handled → Bool
  at_depth_one none = false
  at_depth_one (some (r, reports)) = r.depth == 1

  -- Whether the token closed an element of depth 1.
  unfoldable pub ends_stanza : Token → Handled → Bool
  ends_stanza (end e) s = at_depth_one s
  ends_stanza _ s = false
