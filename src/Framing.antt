-- ===== src/Framing.antt =====
-- `Parser::nextPart` of src/parser.cpp: it cuts the next complete part, the stream header or one
-- stanza, off the bytes that came in.
mod Scan
pub mod Progress
pub mod Element
pub mod Stanza
pub mod Header
pub mod Stable
pub mod Shorter
use jreen.Base.{
  ℕ, zero, suc, ◌+◌, ◌-◌, Bool, true, false, Option, none, some, [], ◌++◌, ◌==◌, if◌then◌else◌,
  length, get_or, take, drop, Text, text, index_of, index_from,
}

-- How the loop over the tags ends: for want of a `<` or `>`, at an end tag too many, or behind
-- the tag that closes the part.
pub data Cut : Type 0 where
  need_more excess out_of_fuel : Cut
  upto : ℕ → Cut

-- Behind a tag: the part is complete when no tag is open.
unfoldable pub resume : (ℕ → ℕ → Cut) → ℕ → ℕ → Cut
resume next index zero = upto index
resume next index (suc depth) = next index (suc depth)

-- An end tag lowers the depth; below 0 the loop swaps everything out.
unfoldable pub close_tag : (ℕ → ℕ → Cut) → ℕ → ℕ → Cut
close_tag next index zero = excess
close_tag next index (suc depth) = resume next index depth

-- The tag that reaches from `start` to `end`.
unfoldable pub tag : (ℕ → ℕ → Cut) → Text → ℕ → ℕ → ℕ → Cut
tag next data' depth start end =
    if get_or data' (start + 1) 0 == b'/'
    then close_tag next (end + 1) depth
    else resume next (end + 1) (if get_or data' (end - 1) 0 == b'/' then depth else suc depth)

-- One round of the `while (true)`, from its two searches on; `next` is the rounds after it.
unfoldable pub at_end : (ℕ → ℕ → Cut) → Text → ℕ → ℕ → Option ℕ → Cut
at_end next data' depth start none = need_more
at_end next data' depth start (some end) = tag next data' depth start end

unfoldable pub at_start : (ℕ → ℕ → Cut) → Text → ℕ → Option ℕ → Cut
at_start next data' depth none = need_more
at_start next data' depth (some start) = at_end next data' depth start (index_from b'>' data' start)

unfoldable pub scan : ℕ → Text → ℕ → ℕ → Cut
scan zero data' index depth = out_of_fuel
scan (suc fuel) data' index depth =
    at_start (scan fuel data') data' depth (index_from b'<' data' index)

-- `result`, what is left in `data`, and `*needMoreData`.
pub record Part : Type 0 where
  pub result : Text
  pub rest : Text
  pub more : Bool

unfoldable pub cut_part : Cut → Text → Part
cut_part (upto index) data' = record {
  result = take index data';
  rest = drop index data';
  more = false;
}
cut_part excess data' = record { result = data'; rest = []; more = false }
cut_part _ data' = record { result = []; rest = data'; more = true }

abbrev pub xml_header : Text
xml_header = text "<?xml version=\"1.0\" encoding=\"UTF-8\"?>"

-- The header: its second `>` ends it, or its first where no XML declaration stands in front.
unfoldable pub end_header : Text → Text → Option ℕ → Part
end_header prefix data' none = record { result = []; rest = data'; more = true }
end_header prefix data' (some end) = record {
  result = prefix ++ take (end + 1) data';
  rest = drop (end + 1) data';
  more = false;
}

-- `stray` is what `data[-1]` reads where the bytes begin with `>`.
module _ (stray : ℕ) where
  unfoldable pub byte_before : ℕ → Text → ℕ
  byte_before zero data' = stray
  byte_before (suc i) data' = get_or data' i 0

  unfoldable pub begin_header : Text → Option ℕ → Part
  begin_header data' none = record { result = []; rest = data'; more = true }
  begin_header data' (some begin) =
      if byte_before begin data' == b'?'
      then end_header [] data' (index_from b'>' data' (begin + 1))
      else end_header xml_header data' (index_from b'>' data' 0)

  unfoldable pub next_part : Text → Bool → Part
  next_part data' true = begin_header data' (index_of b'>' data')
  next_part data' false = cut_part (scan (suc (length data')) data' 0 0) data'
