-- ===== src/Tests/ParserTests.antt =====
-- A stream whose bytes come in pieces, with one stanza factory.
use jreen.Base.{
  false, true, ◌+◌, some, List, [], ◌∷◌, ◌≡◌, refl, Text, text, text_eq, length, take,
  if◌then◌else◌, text_discrete, index_of,
}
use jreen.Dispatch.{waiting_for_stanza, start, end}
use jreen.Framing.{
  next_part, scan, at_start, at_end, tag, close_tag, resume, cut_part, begin_header, end_header,
  byte_before,
}
use jreen.Framing.Stable.{overruns}
use jreen.Parser.{Core, Readers, deliver}
use jreen.Parser.Xmpp.{Token, Handled, handle_token, ends_stanza}
use jreen.Parser.Arrival.{drain, all_parts}
use jreen.Parser.Delivery.{Step, arrive, fire, bytes, run, fresh_parser, fires, all_is_read}
use jreen.Tests.DispatchTests.{is_features, stanzas_for, features_for}

abbrev XmlToken : Type 0
XmlToken = Token Text is_features stanzas_for features_for

abbrev Handlers : Type 0
Handlers = Handled Text is_features stanzas_for features_for

-- The header opens the stream, any other part is one element.
abbrev tokens_of : Text → List XmlToken
tokens_of part =
    if text_eq (take 2 part) (text "<?") then start part ∷ [] else start part ∷ end part ∷ []

abbrev readers : Readers (Unit {0}) (Unit {0}) XmlToken Handlers
readers = record {
  stray = 0;
  check = λ n part. (n, false);
  fresh = tt;
  tokens = λ r part. (r, tokens_of part);
  handle = handle_token Text is_features stanzas_for features_for;
  ends_stanza = ends_stanza Text is_features stanzas_for features_for;
}

abbrev silent : Core (Unit {0}) (Unit {0}) XmlToken Handlers
silent = record {
  null_reader = tt;
  reader = tt;
  unread = [];
  handlers =
      some (record { depth = 0; state = waiting_for_stanza; parsers = []; parsers_count = [] }, []);
  seen = [];
}

abbrev pieces : List Step
pieces = arrive (text "<s><a") ∷ fire ∷ arrive (text "/><b/><c") ∷ []

all_is_read_example :
    let s = run readers pieces (fresh_parser readers silent) in
    let t = run readers (fires (s.hooks + length s.buffer)) s in
    let all = all_parts readers (bytes pieces) true silent in
    (t.hooks ≡ 0) × (t.core ≡ all.core) × (t.buffer ≡ all.left) × (t.first ≡ all.first)
unfolding all_parts drain overruns next_part scan at_start at_end tag close_tag resume cut_part
    begin_header end_header byte_before index_of deliver text_discrete
all_is_read_example = all_is_read readers pieces silent refl
