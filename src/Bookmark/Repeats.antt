-- ===== src/Bookmark/Repeats.antt =====
-- What an element that is no conference does behind one.
use jreen.Base.{
  map, ap, ◌∙◌, refl, Bool, false, List, [], ◌∷◌, ◌++◌, Text, text, text_eq, Hash, ◌≡◌, arith,
}
use jreen.Prep.{Preps}
use jreen.Xml.{NsEvent, opened, text_read, closed}
use jreen.Bookmark.{Factory, at_conference, handle_text, handle_event, feed}

texts-ignored :
    (p : Preps) (unknown_below : Bool) (texts : List Text) (rest : List NsEvent) (f : Factory)
    → f.state ≡ at_conference
    → feed p unknown_below (map text_read texts ++ rest) f ≡ feed p unknown_below rest f
unfolding feed handle_event handle_text
texts-ignored p u [] rest f s = refl
texts-ignored p u (t ∷ texts) rest f s =
    ap
      (λ z.
        feed p u (map text_read texts ++ rest)
          (record f { conference = handle_text t z f.conference }))
      s
    ∙ texts-ignored p u texts rest f s

-- Directly behind a conference, a child of the bookmarks that is no conference and has no child
-- elements, such as the bookmark of a page, adds that conference once more, whatever text is in it.
pub feed-other_child :
    (p : Preps) (unknown_below : Bool) (name uri : Text) (attributes : Hash Text)
    (texts : List Text) (rest : List NsEvent) (f : Factory)
    → f.depth ≡ 1
    → f.state ≡ at_conference
    → text_eq name (text "conference") ≡ false
    → feed p unknown_below (opened name uri attributes ∷ (map text_read texts ++ closed ∷ rest)) f
      ≡ feed p unknown_below rest (record f { bookmark = f.bookmark ++ f.conference ∷ [] })
unfolding feed handle_event
feed-other_child p u name uri attributes texts rest f d s n =
    let entered : Factory = record f { depth = 2 } in
    let start : handle_event p u (opened name uri attributes) f ≡ entered =
      ground (arith, d, s, n) in
    let end : handle_event p u closed entered
        ≡ record f { bookmark = f.bookmark ++ f.conference ∷ [] } =
      ground (arith, d, s) in
    ap (λ z. feed p u (map text_read texts ++ closed ∷ rest) z) start
    ∙ texts-ignored p u texts (closed ∷ rest) entered s
    ∙ ap (λ z. feed p u rest z) end
