-- ===== src/Tests/FramingTests.antt =====
-- `Parser::nextPart` on short streams.
use jreen.Base.{index_of, true, false, [], ◌++◌, ◌≡◌, refl, arith, Text, text, contains}
use jreen.Framing.{
  scan, at_start, at_end, tag, resume, cut_part, next_part, begin_header, end_header, byte_before,
  xml_header,
}
use jreen.Framing.Element.{Element, empty, element, nil, node, print, IsPlain}
use jreen.Framing.Stanza.{next_part-print}
use jreen.Framing.Progress.{Progresses, next_part-progress}

-- <message id='1'><body>hi</body><x/></message>
abbrev message : Element
message =
    element (text "message id='1'") []
      (node (element (text "body") (text "hi") nil (text "body")) []
        (node (empty (text "x")) [] nil))
      (text "message")

message-IsPlain : IsPlain message
unfolding contains
message-IsPlain = ground arith

message_prints : print message [] ≡ text "<message id='1'><body>hi</body><x/></message>"
unfolding print
message_prints = refl

next_part-print_example :
    next_part 0 (text "\n" ++ print message (text "<iq")) false
    ≡ record { result = text "\n" ++ print message []; rest = text "<iq"; more = false }
unfolding contains
next_part-print_example = next_part-print 0 (text "\n") message (text "<iq") refl message-IsPlain

abbrev half : Text
half = text "<a><b>"

abbrev header : Text
header = text "<stream:stream><a/>"

next_part-progress_example : Progresses true header (next_part 0 header true)
next_part-progress_example = next_part-progress 0 header true

header_part :
    next_part 0 header true
    ≡ record { result = xml_header ++ text "<stream:stream>"; rest = text "<a/>"; more = false }
unfolding next_part begin_header end_header byte_before index_of
header_part = refl

-- A > in an attribute is taken for the end of the tag, and the element never ends.
attribute_waits : (next_part 0 (text "<a b='>'/>") false).more ≡ true
unfolding next_part scan at_start at_end tag resume cut_part index_of
attribute_waits = refl
